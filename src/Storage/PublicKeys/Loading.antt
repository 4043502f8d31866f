-- ===== src/Storage/PublicKeys/Loading.antt =====
-- lcloud/api/storage_public.py: the rate limit, and what a request by a key loads.
use Prim.Native.String.{◌++◌ as str_append}
use lcloud.Base.{
  ℕ, String, Bool, false, ◌&&◌, Option, none, some, ◌==◌, str_eq, find_if, if◌then◌else◌,
}
use lcloud.RateLimiter.{try_acquire}
use lcloud.Cache.Keys.{k_json_storage_key}
use lcloud.Db.Errors.{Action, read, write}
use lcloud.Db.Rows.{JsonDatabase}
use lcloud.Storage.Rows.{UserRow, CloudRow, StoragePublicKey, is_id, is_null}
use lcloud.Storage.Session.{
  Env, Handler, KeyScope, Context, Body, context, listing, quota_info, clouds, ok, raise,
  rate_limited, suspended, storage_key_not_found, storage_key_cloud_mismatch,
  storage_key_database_mismatch, key_error, pure, fail, gets, guard, or_fail, cache_get, cache_set,
  ◌>>=◌, ◌>>◌, find_cloud,
}
use lcloud.Storage.Quota.{find_user}

-- `_enforce_public_storage_rate`
unfoldable pub enforce_public_storage_rate : Env → Action → Handler (Unit {0})
enforce_public_storage_rate env read w =
    let (passed, r) =
      try_acquire (str_append "storage:read:" env.client_ip) 1 env.tick w.read_rate in
    (if passed then ok tt else raise (rate_limited read), record w { read_rate = r })
enforce_public_storage_rate env write w =
    let (passed, r) =
      try_acquire (str_append "storage:write:" env.client_ip) 1 env.tick w.write_rate in
    (if passed then ok tt else raise (rate_limited write), record w { write_rate = r })

unfoldable pub key_scope : StoragePublicKey → KeyScope
key_scope k = record {
  id = k.id;
  database_id = k.database_id;
  owner_user_id = k.owner_user_id;
  cloud_id = k.cloud_id;
  allow_upload = k.allow_upload;
  allow_list = k.allow_list;
  allow_download = k.allow_download;
  allow_delete = k.allow_delete;
  max_file_bytes = k.max_file_bytes;
}

unfoldable pub row_context : StoragePublicKey → CloudRow → UserRow → Context
row_context k cloud user = record {
  key = key_scope k;
  cloud = record {
    id = cloud.id;
    chat_id = cloud.chat_id;
    owner_id = some cloud.owner_id;
    owner_user_id = cloud.owner_user_id;
  };
  user = record { id = user.id; suspended_at = user.suspended_at };
}

-- The dict that is cached has no `owner_id`.
unfoldable pub cached_context : Context → Context
cached_context c = record c { cloud = record c.cloud { owner_id = none } }

-- `database is None or database.cloud_id != cloud.id` is not the case.
unfoldable pub backs : ℕ → Option JsonDatabase → Bool
backs cloud_id none = false
backs cloud_id (some d) = is_id d.cloud_id cloud_id

unfoldable pub check_database : Option ℕ → ℕ → Handler (Unit {0})
check_database none cloud_id = pure tt
check_database (some id) cloud_id = do
  database ← gets (λ w. find_if (λ (d : JsonDatabase). d.id == id) w.databases)
  guard (backs cloud_id database) storage_key_database_mismatch

abbrev is_active_storage_key : String → StoragePublicKey → Bool
is_active_storage_key key k = str_eq k.key key && is_null k.revoked_at

-- The context from the tables, which is then cached.
unfoldable pub load_rows : Env → String → Handler Context
load_rows env storage_key = do
  row ←
      or_fail (← gets (λ w. find_if (is_active_storage_key storage_key) w.keys))
        storage_key_not_found
  cloud ← or_fail (← gets (λ w. find_cloud row.cloud_id w.clouds)) storage_key_not_found
  user ← or_fail (← gets (λ w. find_user row.owner_user_id w.users)) storage_key_not_found
  guard (is_null user.suspended_at) suspended
  guard (is_id cloud.owner_user_id row.owner_user_id) storage_key_cloud_mismatch
  check_database row.database_id cloud.id
  let loaded = row_context row cloud user
  cache_set env (k_json_storage_key storage_key) (context (cached_context loaded))
      env.public_key_ttl (some "json_storage_key")
  pure loaded

-- What a cached value is taken for: the context of a dict, and the rows where there is none.
unfoldable pub context_or_rows : Env → String → Option Body → Handler Context
context_or_rows env storage_key (some (context c)) = do
  guard (is_null c.user.suspended_at) suspended
  pure c
context_or_rows env storage_key (some (listing _ _ _ _)) = fail key_error
context_or_rows env storage_key (some (quota_info _ _ _)) = fail key_error
context_or_rows env storage_key (some (clouds _)) = load_rows env storage_key
context_or_rows env storage_key none = load_rows env storage_key

unfoldable pub load_public_storage_context : Env → String → Handler Context
load_public_storage_context env storage_key = do
  cached ← cache_get env (k_json_storage_key storage_key)
  context_or_rows env storage_key cached
