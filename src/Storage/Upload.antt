-- ===== src/Storage/Upload.antt =====
-- lcloud/api/v2_files.py, `upload_file`.
mod Sending
unfoldable pub use Sending.*
use lcloud.Base.{
  ℕ, ◌+◌, String, Bool, ◌&&◌, not, Option, none, some, List, [], ◌∷◌, ◌++◌, ltb, ◌==◌, str_eq,
  if◌then◌else◌, length, any_of,
}
use lcloud.Base.Int.{ℤ, pos, pos_part}
use lcloud.Base.Bytes.{Bytes, bytes_eq, from_hex}
use lcloud.Accounts.{absent, several, found, scalar_one_or_none, next_id}
use lcloud.Cache.Invalidators.{invalidate_user_quota, invalidate_files_in_cloud}
use lcloud.Storage.Rows.{File, is_live, mark_deleted}
use lcloud.Storage.Session.{
  Answer, ok, raise, file_too_large, lc2_bad_hex, lc2_sha256_mismatch, lc2_verify_failed,
  telegram_upload_failed, multiple_results_found, integrity_error, Env, CurrentUser, Handler,
  Message, FileBody, pure, fail, gets, guard, modify, or_fail, modify_cache, ◌>>=◌, ◌>>◌,
  serialize_file, ensure_userbot_authorized, get_cloud_for_user, may_access, is_message,
}
use lcloud.Storage.Quota.{assert_can_store, increment_used}
use lcloud.Storage.Compression.{Codecs, Compressed, compression_pass}
use lcloud.Storage.Captions.{
  Ed25519, Lc2Payload, to_caption, verify_lc2_payload, build_lc1_caption, file_signature_payload,
}

-- The libraries that an upload calls.
pub record Libs : Type 0 where
  pub codecs : Codecs
  pub ed25519 : Ed25519
  pub sha256 : Bytes → Bytes

-- The form: the file's name and type, the chunks in which its bytes are read, and the fields.
pub record Form : Type 0 where
  pub filename : Option String
  pub content_type : Option String
  pub chunks : List Bytes
  pub client_sha256 : Option String
  pub signature : Option String
  pub ts : Option ℤ
  pub compress : Bool

-- `value or default`, for a text
abbrev pub text_or_default : Option String → String → String
text_or_default none default = default
text_or_default (some s) default = if str_eq s "" then default else s

abbrev pub mime_of : Form → String
mime_of form = text_or_default form.content_type "application/octet-stream"

abbrev add_chunk : Bytes → Answer Bytes → Answer Bytes
add_chunk chunk (ok rest) = ok (chunk ++ rest)
add_chunk chunk (raise e) = raise e

-- The loop of `_stream_to_temp`, after `size` bytes: it ends at an empty chunk.
unfoldable pub read_chunks : ℕ → ℕ → List Bytes → Answer Bytes
read_chunks max_size size [] = ok []
read_chunks max_size size (chunk ∷ chunks) =
    let total = size + length chunk in
    let rest = read_chunks max_size total chunks in
    if length chunk == 0
    then ok []
    else (if ltb max_size total
        then raise (file_too_large total max_size)
        else add_chunk chunk rest)

unfoldable pub stream_to_temp : ℕ → List Bytes → Handler Bytes
stream_to_temp max_size chunks w = (read_chunks max_size 0 chunks, w)

-- The check of a client's signature, which gives the payload of the caption.
unfoldable pub check_lc2 :
    Libs → Env → CurrentUser → Bytes → String → String → ℤ → Handler (Option Lc2Payload)
check_lc2 libs env user sha client_sha256 signature ts = do
  client_sha ← or_fail (from_hex client_sha256) lc2_bad_hex
  sig ← or_fail (from_hex signature) lc2_bad_hex
  guard (bytes_eq client_sha sha) (lc2_sha256_mismatch sha client_sha)
  elim (verify_lc2_payload libs.ed25519 env.unix user.pubkey sha sig ts) [
    | some why ↦ fail (lc2_verify_failed why)
    | none ↦
        pure
          (some (record { pubkey = user.pubkey; sha256 = sha; signature = sig; ts = pos_part ts }))
  ]

-- `use_lc2`: the three fields are given.
unfoldable pub check_fields :
    Libs
    → Env
    → CurrentUser
    → Bytes
    → Option String
    → Option String
    → Option ℤ
    → Handler (Option Lc2Payload)
check_fields libs env user sha (some client_sha256) (some signature) (some ts) =
    check_lc2 libs env user sha client_sha256 signature ts
check_fields libs env user sha _ _ _ = pure none

abbrev pub check_signed : Libs → Env → CurrentUser → Bytes → Form → Handler (Option Lc2Payload)
check_signed libs env user sha form =
    check_fields libs env user sha form.client_sha256 form.signature form.ts

-- The client's caption is kept when its bytes are the ones that are sent.
unfoldable pub send : Libs → Env → ℤ → String → Compressed → Option Lc2Payload → Handler SentFile
send libs env chat_id name c none =
    upload_file_to_cloud libs.ed25519 env chat_id name (libs.sha256 c.contents)
send libs env chat_id name c (some payload) =
    if c.was_compressed
    then upload_file_to_cloud libs.ed25519 env chat_id name (libs.sha256 c.contents)
    else upload_file_lc2 env chat_id name payload

-- The columns of a new row but its id, its time and the row that it replaces.
pub record NewFile : Type 0 where
  pub cloud_id : ℕ
  pub owner_id : ℕ
  pub owner_user_id : ℕ
  pub name : String
  pub sent : SentFile
  pub file : Compressed
  pub sha256 : Bytes
  pub original_size : ℕ

unfoldable pub file_row : ℕ → Option ℕ → NewFile → List File → File
file_row now replaces n files = record {
  id = next_id (λ (f : File). f.id) files;
  cloud_id = n.cloud_id;
  message_id = n.sent.message_id;
  owner_id = n.owner_id;
  owner_user_id = some n.owner_user_id;
  replaces_file_id = replaces;
  original_name = n.name;
  mime = n.file.mime;
  size_bytes = length n.file.contents;
  sha256 = n.sha256;
  signature = n.sent.signature;
  compressed = n.file.was_compressed;
  original_size_bytes = if n.file.was_compressed then some n.original_size else none;
  uploaded_at = now;
  deleted_at = none;
}

-- The live row that the upload may replace.
unfoldable pub find_previous : (File → Bool) → Handler (Option File)
find_previous is_same = do
  row ← gets (λ w. scalar_one_or_none is_same w.files)
  elim row [
    | several ↦ fail multiple_results_found
    | absent ↦ pure none
    | found prev ↦ pure (some prev)
  ]

unfoldable pub supersede : ℕ → Option ℕ → List File → List File
supersede now none files = files
supersede now (some id) files = mark_deleted now id files

-- `uq_files_cloud_msg`
abbrev pub is_sent_as : ℕ → ℕ → File → Bool
is_sent_as cloud_id message_id f = f.cloud_id == cloud_id && f.message_id == message_id

-- The old row's end and the new row, committed together.
unfoldable pub insert_file : Env → Option ℕ → NewFile → Handler File
unfolding supersede
insert_file env replaces n = do
  row ← gets (λ w. file_row env.now replaces n w.files)
  taken ← gets (λ w. any_of (is_sent_as n.cloud_id n.sent.message_id) w.files)
  guard (not taken) integrity_error
  modify λ w. record w { files = supersede env.now replaces w.files ++ row ∷ [] }
  pure row

pub record Uploaded : Type 0 where
  pub file : FileBody
  pub caption_kind : String
  pub uploaded_at_unix : ℕ

-- The row is committed: the total and the caches follow.
unfoldable pub account_upload : ℕ → SentFile → File → Handler Uploaded
account_upload user_id sent row = do
  increment_used user_id (pos row.size_bytes)
  modify_cache (invalidate_user_quota user_id)
  modify_cache (invalidate_files_in_cloud row.cloud_id)
  pure (record {
    file = serialize_file row;
    caption_kind = sent.caption_kind;
    uploaded_at_unix = sent.uploaded_at_unix;
  })

-- The id of the old row, where the user may replace it.
abbrev pub replaced_by : CurrentUser → Option File → Option ℕ
replaced_by user none = none
replaced_by user (some prev) = if may_access user prev.owner_user_id then some prev.id else none

abbrev pub is_live_named : ℕ → String → File → Bool
is_live_named cloud_id name f = f.cloud_id == cloud_id && (str_eq f.original_name name && is_live f)

-- A name is drawn each time that the form has none.
unfoldable pub upload_file : Libs → Env → CurrentUser → ℕ → Form → Handler Uploaded
upload_file libs env user cloud_id form = do
  ensure_userbot_authorized env
  cloud ← get_cloud_for_user cloud_id user
  contents ← stream_to_temp env.max_file_bytes form.chunks
  payload ← check_signed libs env user (libs.sha256 contents) form
  let file = compression_pass libs.codecs form.compress contents (mime_of form)
  assert_can_store user.id (length file.contents)
  sent ← send libs env cloud.chat_id (text_or_default form.filename (env.new_name 0)) file payload
  prev ← find_previous (is_live_named cloud.id (text_or_default form.filename (env.new_name 1)))
  row ← insert_file env (replaced_by user prev) (record {
    cloud_id = cloud.id;
    owner_id = cloud.owner_id;
    owner_user_id = user.id;
    name = text_or_default form.filename (env.new_name 2);
    sent = sent;
    file = file;
    sha256 = libs.sha256 file.contents;
    original_size = length contents;
  })
  account_upload user.id sent row
