-- ===== src/Storage/PublicFiles.antt =====
-- lcloud/api/storage_public.py: the files of a cloud by a publishable key.
pub mod Cached
use lcloud.Base.{
  ℕ, String, Bool, true, ◌&&◌, not, Option, none, some, List, leb, ltb, min, ◌==◌, str_eq, length,
  find_if, is_some, if◌then◌else◌,
}
use lcloud.Base.Int.{neg}
use lcloud.Cache.Invalidators.{invalidate_user_quota, invalidate_files_in_cloud}
use lcloud.Db.Errors.{read, write}
use lcloud.Storage.Rows.{File, is_id, is_live, mark_deleted}
use lcloud.Storage.Session.{
  Env, Handler, World, Context, Body, not_found, file_too_large, attribute_error,
  storage_key_upload_disabled, storage_key_list_disabled, storage_key_download_disabled,
  storage_key_delete_disabled, pure, gets, guard, modify, or_fail, modify_cache, ◌>>=◌, ◌>>◌,
  ensure_userbot_authorized, delete_file_message,
}
use lcloud.Storage.Quota.{assert_can_store, increment_used}
use lcloud.Storage.Compression.{compression_pass}
use lcloud.Storage.Upload.{
  Libs, Form, Uploaded, mime_of, text_or_default, stream_to_temp, upload_file_to_cloud,
  find_previous, insert_file, account_upload, is_live_named,
}
use lcloud.Storage.Files.{Download, files_page, download_of, is_live_id}
use lcloud.Storage.PublicKeys.{enforce_public_storage_rate, load_public_storage_context, number_or}

-- The files that a key reaches: those of its cloud that its owner has.
abbrev pub in_scope_of : Context → File → Bool
in_scope_of c f = f.cloud_id == c.cloud.id && is_id f.owner_user_id c.key.owner_user_id

unfoldable pub public_list_files : Env → String → ℕ → ℕ → Handler Body
public_list_files env storage_key limit offset = do
  enforce_public_storage_rate env read
  c ← load_public_storage_context env storage_key
  guard c.key.allow_list storage_key_list_disabled
  gets λ w. files_page (λ f. in_scope_of c f && is_live f) limit offset w.files

-- The live file of the user's that an upload replaces.
abbrev pub is_replaced : ℕ → ℕ → String → File → Bool
is_replaced cloud_id user_id name f = is_id f.owner_user_id user_id && is_live_named cloud_id name f

abbrev pub id_of : Option File → Option ℕ
id_of none = none
id_of (some f) = some f.id

-- The part of `public_upload_file` that has a context: `cloud.owner_id` is read when the row is built.
unfoldable pub upload_in : Libs → Env → Context → Form → Handler Uploaded
upload_in libs env c form = do
  guard c.key.allow_upload storage_key_upload_disabled
  ensure_userbot_authorized env
  let limit = min (number_or c.key.max_file_bytes env.max_file_bytes) env.max_file_bytes
  contents ← stream_to_temp limit form.chunks
  let file = compression_pass libs.codecs form.compress contents (mime_of form)
  guard (leb (length file.contents) limit) (file_too_large (length file.contents) limit)
  assert_can_store c.user.id (length file.contents)
  sent ←
      upload_file_to_cloud libs.ed25519 env c.cloud.chat_id
        (text_or_default form.filename (env.new_name 0)) (libs.sha256 file.contents)
  let name = text_or_default form.filename (env.new_name 1)
  prev ← find_previous (is_replaced c.cloud.id c.user.id name)
  owner_id ← or_fail c.cloud.owner_id attribute_error
  row ← insert_file env (id_of prev) (record {
    cloud_id = c.cloud.id;
    owner_id = owner_id;
    owner_user_id = c.user.id;
    name = name;
    sent = sent;
    file = file;
    sha256 = libs.sha256 file.contents;
    original_size = length contents;
  })
  account_upload c.user.id sent row

unfoldable pub public_upload_file : Libs → Env → String → Form → Handler Uploaded
public_upload_file libs env storage_key form = do
  enforce_public_storage_rate env write
  c ← load_public_storage_context env storage_key
  upload_in libs env c form

-- The live file of an id that a key reaches.
unfoldable pub get_file_in : Context → ℕ → Handler File
get_file_in c file_id = do
  or_fail (← gets (λ w. find_if (λ f. in_scope_of c f && is_live_id file_id f) w.files)) not_found

unfoldable pub public_download_file : Env → String → ℕ → Handler Download
public_download_file env storage_key file_id = do
  enforce_public_storage_rate env read
  c ← load_public_storage_context env storage_key
  guard c.key.allow_download storage_key_download_disabled
  ensure_userbot_authorized env
  row ← get_file_in c file_id
  pure (download_of row c.cloud.chat_id)

-- The part of `public_delete_file` that has a context.
unfoldable pub delete_in : Env → Context → ℕ → Handler (Unit {0})
delete_in env c file_id = do
  guard c.key.allow_delete storage_key_delete_disabled
  ensure_userbot_authorized env
  row ← get_file_in c file_id
  delete_file_message env c.cloud.chat_id row.message_id
  modify λ w. record w { files = mark_deleted env.now file_id w.files }
  increment_used c.key.owner_user_id (neg row.size_bytes)
  modify_cache (invalidate_user_quota c.key.owner_user_id)
  modify_cache (invalidate_files_in_cloud c.cloud.id)

unfoldable pub public_delete_file : Env → String → ℕ → Handler (Unit {0})
public_delete_file env storage_key file_id = do
  enforce_public_storage_rate env write
  c ← load_public_storage_context env storage_key
  delete_in env c file_id
