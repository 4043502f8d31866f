-- ===== src/Storage/Files.antt =====
-- lcloud/api/v2_files.py: the list of files, the download, the deletion and the quota.
use lcloud.Base.{
  ℕ, ◌+◌, ◌-◌, ◌*◌, String, Bool, ◌&&◌, Option, none, some, List, ◌==◌, map, length, find_if,
  keep_if, take, drop, if◌then◌else◌,
}
use lcloud.Base.Int.{ℤ, pos, negsuc, neg}
use lcloud.Cache.Keys.{k_files_in_cloud, k_user_quota}
use lcloud.Cache.Invalidators.{invalidate_user_quota, invalidate_files_in_cloud}
use lcloud.Storage.Rows.{CloudRow, File, is_live, mark_deleted, newest_files}
use lcloud.Storage.Session.{
  Env, CurrentUser, Handler, Body, listing, quota_info, not_found, no_result_found, pure, gets,
  guard, modify, or_fail, modify_cache, cache_get, cache_set, ◌>>=◌, ◌>>◌, serialize_file,
  ensure_userbot_authorized, get_cloud_for_user, may_access, find_cloud, delete_file_message,
}
use lcloud.Storage.Quota.{get_used_and_quota, increment_used}

-- A page of the rows that a condition selects.
unfoldable pub files_page : (File → Bool) → ℕ → ℕ → List File → Body
files_page cond limit offset files =
    let rows = newest_files (keep_if cond files) in
    listing (map serialize_file (take limit (drop offset rows))) (length rows) limit offset

abbrev pub role_of : CurrentUser → String
role_of user = if user.is_admin then "admin" else "user"

-- The condition of `list_files`.
abbrev pub is_listed_for : CurrentUser → ℕ → File → Bool
is_listed_for user cloud_id f =
    f.cloud_id == cloud_id && (is_live f && may_access user f.owner_user_id)

unfoldable pub list_files : Env → CurrentUser → ℕ → ℕ → ℕ → Handler Body
list_files env user cloud_id limit offset = do
  cloud ← get_cloud_for_user cloud_id user
  let key = k_files_in_cloud cloud.id user.id (role_of user) limit offset
  cached ← cache_get env key
  elim cached [
    | some body ↦ pure body
    | none ↦ do
      body ← gets (λ w. files_page (is_listed_for user cloud.id) limit offset w.files)
      cache_set env key body (30 * env.second) none
      pure body
  ]

-- What the stream of a file is read from, with its headers.
pub record Download : Type 0 where
  pub chat_id : ℤ
  pub message_id : ℕ
  pub filename : String
  pub length : ℕ
  pub mime : String

unfoldable pub download_of : File → ℤ → Download
download_of f chat_id = record {
  chat_id = chat_id;
  message_id = f.message_id;
  filename = f.original_name;
  length = f.size_bytes;
  mime = f.mime;
}

abbrev pub is_live_id : ℕ → File → Bool
is_live_id file_id f = f.id == file_id && is_live f

-- The live file of an id, where the user may use it.
unfoldable pub get_file_for_user : CurrentUser → ℕ → Handler File
get_file_for_user user file_id = do
  row ← or_fail (← gets (λ w. find_if (is_live_id file_id) w.files)) not_found
  guard (may_access user row.owner_user_id) not_found
  pure row

-- The file of an id, live or not, where the user may use it.
unfoldable pub get_any_file : CurrentUser → ℕ → Handler File
get_any_file user file_id = do
  f ← or_fail (← gets (λ w. find_if (λ (f : File). f.id == file_id) w.files)) not_found
  guard (may_access user f.owner_user_id) not_found
  pure f

-- The cloud's `scalar_one()`.
unfoldable pub cloud_of : File → Handler CloudRow
cloud_of row = do or_fail (← gets (λ w. find_cloud row.cloud_id w.clouds)) no_result_found

unfoldable pub download_file : Env → CurrentUser → ℕ → Handler Download
download_file env user file_id = do
  ensure_userbot_authorized env
  row ← get_file_for_user user file_id
  cloud ← cloud_of row
  pure (download_of row cloud.chat_id)

-- The total of the file's owner, if it has one, and its cache.
unfoldable pub release : Option ℕ → ℕ → Handler (Unit {0})
release none size = pure tt
release (some owner) size = do
  increment_used owner (neg size)
  modify_cache (invalidate_user_quota owner)

-- The second session of a deletion: the file's row, the total and the caches.
unfoldable pub commit_deletion : Env → ℕ → ℕ → File → Handler (Unit {0})
commit_deletion env file_id cloud_id row = do
  modify λ w. record w { files = mark_deleted env.now file_id w.files }
  release row.owner_user_id row.size_bytes
  modify_cache (invalidate_files_in_cloud cloud_id)

unfoldable pub delete_file : Env → CurrentUser → ℕ → Handler (Unit {0})
delete_file env user file_id = do
  ensure_userbot_authorized env
  row ← get_file_for_user user file_id
  cloud ← cloud_of row
  delete_file_message env cloud.chat_id row.message_id
  commit_deletion env file_id cloud.id row

-- `max(0, quota - used)`
unfoldable pub free_bytes : ℤ → ℕ → ℕ
free_bytes (pos used) quota = quota - used
free_bytes (negsuc n) quota = quota + n + 1

unfoldable pub get_quota : Env → CurrentUser → Handler Body
get_quota env user = do
  cached ← cache_get env (k_user_quota user.id)
  elim cached [
    | some body ↦ pure body
    | none ↦ do
      totals ← get_used_and_quota user.id
      let body = quota_info totals.0 totals.1 (free_bytes totals.0 totals.1)
      cache_set env (k_user_quota user.id) body (10 * env.second) none
      pure body
  ]
