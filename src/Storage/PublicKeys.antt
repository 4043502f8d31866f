-- ===== src/Storage/PublicKeys.antt =====
-- lcloud/api/storage_public.py: the publishable keys of a cloud.
mod Loading
unfoldable pub use Loading.*
use Prim.Native.String.{◌++◌ as str_append}
use lcloud.Base.{
  ℕ, String, Bool, true, false, ◌&&◌, ◌||◌, Option, none, some, List, [], ◌∷◌, ◌++◌, leb, ltb, ◌==◌,
  str_eq, is_some, map, length, find_if, keep_if, if◌then◌else◌,
}
use lcloud.Base.Text.{prefix, strip}
use lcloud.RateLimiter.{try_acquire}
use lcloud.Accounts.{next_id}
use lcloud.Cache.Keys.{k_json_storage_key}
use lcloud.Cache.Invalidators.{invalidate_json_storage_keys}
use lcloud.Db.Errors.{Action, read, write}
use lcloud.Db.Rows.{JsonDatabase}
use lcloud.Storage.Rows.{UserRow, CloudRow, StoragePublicKey, is_id, is_null}
use lcloud.Storage.Session.{
  Env, CurrentUser, Handler, KeyScope, Context, Body, context, listing, quota_info, clouds, ok,
  raise, rate_limited, suspended, storage_key_not_found, storage_key_cloud_mismatch,
  storage_key_database_mismatch, storage_key_limit_reached, key_error, cloud_not_found,
  database_not_found, database_scope_conflict, database_not_telegram_backed,
  database_cloud_mismatch, max_file_bytes_too_large, value_error, pure, fail, gets, guard, modify,
  or_fail, modify_cache, cache_get, cache_set, ◌>>=◌, ◌>>◌, may_access, find_cloud,
}
use lcloud.Storage.Quota.{find_user}

-- The body as the validator leaves it.
pub record StoragePublicKeyIn : Type 0 where
  pub cloud_id : Option ℕ
  pub database_id : Option ℕ
  pub database_key : Option String
  pub label : String
  pub allow_upload : Bool
  pub allow_list : Bool
  pub allow_download : Bool
  pub allow_delete : Bool
  pub max_file_bytes : Option ℕ

-- `validate_permissions`
unfoldable pub validate_permissions : StoragePublicKeyIn → Bool
validate_permissions body =
    (body.allow_upload || (body.allow_list || (body.allow_download || body.allow_delete)))
    && (is_some body.cloud_id || (is_some body.database_id || is_some body.database_key))

abbrev pub max_storage_public_keys_per_user : ℕ
max_storage_public_keys_per_user = 25

unfoldable pub user_database : CurrentUser → (JsonDatabase → Bool) → Handler JsonDatabase
user_database user p = do
  d ← or_fail (← gets (λ w. find_if p w.databases)) database_not_found
  guard (may_access user (some d.owner_user_id)) database_not_found
  pure d

-- `resolve_database`, where an id or a key is given: none stands for neither.
unfoldable pub scope_database :
    CurrentUser → Option ℕ → Option String → Handler (Option JsonDatabase)
scope_database user none none = pure none
scope_database user (some id) none = do d ← user_database user (λ d. d.id == id); pure (some d)
scope_database user none (some key) = do
  d ← user_database user (λ d. str_eq d.database_key key)
  pure (some d)
scope_database user (some id) (some key) = do
  d ← user_database user (λ d. d.id == id)
  guard (str_eq d.database_key key) database_scope_conflict
  pure (some d)

-- `cloud_id is not None and cloud_id != database.cloud_id` is not the case.
unfoldable pub agrees : Option ℕ → ℕ → Bool
agrees none id = true
agrees (some given) id = given == id

-- The cloud of a new key, with its database: that of the database, where one is named.
unfoldable pub cloud_with : StoragePublicKeyIn → Option JsonDatabase → Handler (ℕ × Option ℕ)
cloud_with body none = do
  cloud_id ← or_fail body.cloud_id value_error
  pure (cloud_id, body.database_id)
cloud_with body (some d) = do
  cloud_id ← or_fail d.cloud_id database_not_telegram_backed
  guard (agrees body.cloud_id cloud_id) database_cloud_mismatch
  pure (cloud_id, some d.id)

unfoldable pub key_cloud : CurrentUser → StoragePublicKeyIn → Handler (ℕ × Option ℕ)
key_cloud user body = do
  database ← scope_database user body.database_id body.database_key
  cloud_with body database

-- `_get_cloud_for_owner`
unfoldable pub get_cloud_for_owner : ℕ → CurrentUser → Handler CloudRow
get_cloud_for_owner cloud_id user = do
  cloud ← or_fail (← gets (λ w. find_cloud cloud_id w.clouds)) cloud_not_found
  guard (may_access user cloud.owner_user_id) cloud_not_found
  pure cloud

abbrev pub is_active_of : ℕ → StoragePublicKey → Bool
is_active_of user_id k = k.owner_user_id == user_id && is_null k.revoked_at

-- `a or b`, for a number
abbrev pub number_or : Option ℕ → ℕ → ℕ
number_or none default = default
number_or (some n) default = if n == 0 then default else n

-- `strip` of a label takes the test for a space.
unfoldable pub new_storage_key :
    Env
    → (ℕ → Bool)
    → ℕ
    → ℕ
    → Option ℕ
    → StoragePublicKeyIn
    → String
    → List StoragePublicKey
    → StoragePublicKey
new_storage_key env is_space user_id cloud_id database_id body key rows = record {
  id = next_id (λ (k : StoragePublicKey). k.id) rows;
  database_id = database_id;
  owner_user_id = user_id;
  cloud_id = cloud_id;
  key = key;
  prefix = prefix 15 key;
  label = strip is_space body.label;
  allow_upload = body.allow_upload;
  allow_list = body.allow_list;
  allow_download = body.allow_download;
  allow_delete = body.allow_delete;
  max_file_bytes = some (number_or body.max_file_bytes env.max_file_bytes);
  created_at = env.now;
  revoked_at = none;
}

unfoldable pub create_storage_public_key :
    Env → (ℕ → Bool) → CurrentUser → StoragePublicKeyIn → Handler StoragePublicKey
create_storage_public_key env is_space user body = do
  guard (leb (number_or body.max_file_bytes env.max_file_bytes) env.max_file_bytes)
      (max_file_bytes_too_large env.max_file_bytes)
  scope ← key_cloud user body
  get_cloud_for_owner scope.0 user
  active ← gets (λ w. length (keep_if (is_active_of user.id) w.keys))
  guard (ltb active max_storage_public_keys_per_user) storage_key_limit_reached
  key ← gets (λ w. env.new_key (map (λ (k : StoragePublicKey). k.key) w.keys))
  row ← gets (λ w. new_storage_key env is_space user.id scope.0 scope.1 body key w.keys)
  modify λ w. record w { keys = w.keys ++ row ∷ [] }
  modify_cache invalidate_json_storage_keys
  pure row

abbrev later_key : StoragePublicKey → StoragePublicKey → Bool
later_key k j = ltb j.created_at k.created_at || (j.created_at == k.created_at && ltb j.id k.id)

unfoldable pub insert_later_key : StoragePublicKey → List StoragePublicKey → List StoragePublicKey
insert_later_key k [] = k ∷ []
insert_later_key k (j ∷ js) =
    let rest = insert_later_key k js in if later_key j k then j ∷ rest else k ∷ j ∷ js

-- `order_by(created_at.desc(), id.desc())`
unfoldable pub latest_keys : List StoragePublicKey → List StoragePublicKey
unfolding insert_later_key
latest_keys [] = []
latest_keys (k ∷ ks) = insert_later_key k (latest_keys ks)

abbrev in_database : Option ℕ → StoragePublicKey → Bool
in_database none k = true
in_database (some id) k = is_id k.database_id id

abbrev chosen_database : Option ℕ → Option JsonDatabase → Option ℕ
chosen_database id none = id
chosen_database id (some d) = some d.id

-- A database that is given by its id alone is not looked up.
unfoldable pub list_storage_public_keys :
    CurrentUser → Option ℕ → Option String → Handler (List StoragePublicKey)
list_storage_public_keys user database_id database_key = do
  database ← scope_database user (if is_some database_key then database_id else none) database_key
  let id = chosen_database database_id database
  gets λ w. latest_keys (keep_if (λ k. k.owner_user_id == user.id && in_database id k) w.keys)

-- The flush of the revoked row.
unfoldable pub revoke_row : ℕ → ℕ → List StoragePublicKey → List StoragePublicKey
revoke_row now id [] = []
revoke_row now id (k ∷ ks) =
    let rest = revoke_row now id ks in
    if k.id == id && is_null k.revoked_at
    then record k { revoked_at = some now } ∷ rest
    else k ∷ rest

unfoldable pub revoke_storage_public_key : Env → CurrentUser → ℕ → Handler (Unit {0})
revoke_storage_public_key env user key_id = do
  row ←
      or_fail (← gets (λ w. find_if (λ k. k.id == key_id && k.owner_user_id == user.id) w.keys))
        storage_key_not_found
  modify λ w. record w { keys = revoke_row env.now row.id w.keys }
  modify_cache invalidate_json_storage_keys
