-- ===== src/Storage/Upload/Sending.antt =====
-- lcloud/userbot/files.py and files_lc2.py: a file is sent to a chat, with its caption.
use lcloud.Base.{ℕ, String, List, [], ◌∷◌, ◌++◌, if◌then◌else◌}
use lcloud.Base.Int.{ℤ}
use lcloud.Base.Bytes.{Bytes}
use lcloud.Storage.Session.{
  telegram_upload_failed, Env, Handler, Message, pure, guard, modify, or_fail, ◌>>=◌, ◌>>◌,
  is_message,
}
use lcloud.Storage.Captions.{
  Ed25519, Lc2Payload, to_caption, build_lc1_caption, file_signature_payload,
}

-- What a sent message gives the row.
pub record SentFile : Type 0 where
  pub message_id : ℕ
  pub signature : Bytes
  pub uploaded_at_unix : ℕ
  pub caption_kind : String

-- `client.send_file`: the message has no caption yet.
unfoldable pub send_file : Env → ℤ → String → Handler ℕ
send_file env chat_id name = do
  id ← or_fail env.sent_message telegram_upload_failed
  modify λ w. record w {
    messages =
        w.messages ++ record { chat_id = chat_id; message_id = id; name = name; caption = "" } ∷ [];
  }
  pure id

unfoldable pub set_caption : ℤ → ℕ → String → List Message → List Message
set_caption chat_id id caption [] = []
set_caption chat_id id caption (m ∷ ms) =
    let rest = set_caption chat_id id caption ms in
    if is_message chat_id id m then record m { caption = caption } ∷ rest else m ∷ rest

-- `client.edit_message`
unfoldable pub edit_message : Env → ℤ → ℕ → String → Handler (Unit {0})
unfolding set_caption
edit_message env chat_id id caption = do
  guard env.is_edited telegram_upload_failed
  modify λ w. record w { messages = set_caption chat_id id caption w.messages }

-- Each exception of these two becomes `telegram_upload_failed`.
unfoldable pub upload_file_lc2 : Env → ℤ → String → Lc2Payload → Handler SentFile
upload_file_lc2 env chat_id name payload = do
  id ← send_file env chat_id name
  edit_message env chat_id id (to_caption payload)
  pure (record {
    message_id = id;
    signature = payload.signature;
    uploaded_at_unix = payload.ts;
    caption_kind = "LC2";
  })

unfoldable pub upload_file_to_cloud : Ed25519 → Env → ℤ → String → Bytes → Handler SentFile
upload_file_to_cloud key env chat_id name sha = do
  id ← send_file env chat_id name
  payload ←
      or_fail (file_signature_payload sha chat_id id key.verify_key env.unix) telegram_upload_failed
  let signature = key.sign payload
  caption ← or_fail (build_lc1_caption sha signature key.verify_key env.unix) telegram_upload_failed
  edit_message env chat_id id caption
  pure (record {
    message_id = id;
    signature = signature;
    uploaded_at_unix = env.unix;
    caption_kind = "LC1";
  })
