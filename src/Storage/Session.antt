-- ===== src/Storage/Session.antt =====
-- What a handler of the storage runs in: the tables, the cache, the rate limiters and what Telegram has,
-- and the steps that the handlers share.
--
-- A handler returns its answer and the world that it leaves. A request is one step. Sessions commit one
-- after the other, so that what a handler did before it raises stays, unlike an uncommitted session's.
-- Temporary files, metrics and log lines are not kept.

use lcloud.Base.{
  ℕ, String, Bool, true, false, ◌||◌, Option, none, some, List, [], ◌∷◌, ◌==◌, find_if,
  if◌then◌else◌,
}
use lcloud.Base.Int.{ℤ, eq_ℤ}
use lcloud.Base.Bytes.{Bytes}
use lcloud.RateLimiter.{RateLimiter}
use lcloud.Cache
use lcloud.Cache.{TtlCache}
use lcloud.Db.Rows.{JsonDatabase}
use lcloud.Db.Errors.{Action}
use lcloud.Storage.Rows.{UserRow, CloudRow, File, FileShare, StoragePublicKey, is_id}

-- The `HTTPException`s, and the exceptions that nothing catches.
pub data StorageError : Type 0 where
  userbot_not_started userbot_not_authorized admin_owner_missing : StorageError
  not_found cloud_not_found user_missing database_not_found database_scope_conflict : StorageError
  file_too_large : ℕ → ℕ → StorageError
  quota_exceeded : ℤ → ℕ → ℕ → StorageError
  lc2_bad_hex : StorageError
  lc2_sha256_mismatch : Bytes → Bytes → StorageError
  lc2_verify_failed : String → StorageError
  telegram_upload_failed cloud_creation_failed : StorageError
  rate_limited : Action → StorageError
  suspended : StorageError
  storage_key_not_found storage_key_cloud_mismatch storage_key_database_mismatch : StorageError
  storage_key_upload_disabled storage_key_list_disabled : StorageError
  storage_key_download_disabled storage_key_delete_disabled storage_key_limit_reached : StorageError
  max_file_bytes_too_large : ℕ → StorageError
  database_not_telegram_backed database_cloud_mismatch : StorageError
  multiple_results_found no_result_found integrity_error attribute_error key_error : StorageError
  value_error : StorageError

pub data Answer (A : Type 0) : Type 0 where
  ok : A → Answer A
  raise : StorageError → Answer A

-- `_serialize` of lcloud/api/v2_files.py; the times stand for their ISO forms.
pub record FileBody : Type 0 where
  pub id : ℕ
  pub cloud_id : ℕ
  pub message_id : ℕ
  pub owner_user_id : Option ℕ
  pub name : String
  pub mime : String
  pub size : ℕ
  pub compressed : Bool
  pub original_size_bytes : Option ℕ
  pub uploaded_at : ℕ
  pub deleted_at : Option ℕ

unfoldable pub serialize_file : File → FileBody
serialize_file f = record {
  id = f.id;
  cloud_id = f.cloud_id;
  message_id = f.message_id;
  owner_user_id = f.owner_user_id;
  name = f.original_name;
  mime = f.mime;
  size = f.size_bytes;
  compressed = f.compressed;
  original_size_bytes = f.original_size_bytes;
  uploaded_at = f.uploaded_at;
  deleted_at = f.deleted_at;
}

-- What the handlers read of a publishable key, of its cloud and of its user. The rows have every column;
-- the namespaces that are built from the cache have no `owner_id` of the cloud.
pub record KeyScope : Type 0 where
  pub id : ℕ
  pub database_id : Option ℕ
  pub owner_user_id : ℕ
  pub cloud_id : ℕ
  pub allow_upload : Bool
  pub allow_list : Bool
  pub allow_download : Bool
  pub allow_delete : Bool
  pub max_file_bytes : Option ℕ

pub record CloudScope : Type 0 where
  pub id : ℕ
  pub chat_id : ℤ
  pub owner_id : Option ℕ
  pub owner_user_id : Option ℕ

pub record UserScope : Type 0 where
  pub id : ℕ
  pub suspended_at : Option ℕ

pub record Context : Type 0 where
  pub key : KeyScope
  pub cloud : CloudScope
  pub user : UserScope

pub record CloudBody : Type 0 where
  pub id : ℕ
  pub chat_id : ℤ
  pub name : String
  pub owner_user_id : Option ℕ
  pub created_at : ℕ

-- What is cached: a page of files (with total, limit and offset), a quota (used, limit and free), the
-- context of a publishable key, and a list of clouds, which is no dict.
pub data Body : Type 0 where
  listing : List FileBody → ℕ → ℕ → ℕ → Body
  quota_info : ℤ → ℕ → ℕ → Body
  context : Context → Body
  clouds : List CloudBody → Body

-- A message that holds a file.
pub record Message : Type 0 where
  pub chat_id : ℤ
  pub message_id : ℕ
  pub name : String
  pub caption : String

pub record World : Type 0 where
  pub users : List UserRow
  pub clouds : List CloudRow
  pub files : List File
  pub shares : List FileShare
  pub keys : List StoragePublicKey
  pub databases : List JsonDatabase
  pub cache : TtlCache Body
  pub read_rate : RateLimiter
  pub write_rate : RateLimiter
  pub messages : List Message
  -- the clouds that carry the marker in their description, by chat
  pub marked : List ℤ

abbrev pub Handler : Type 0 → Type 0
Handler A = World → Answer A × World

module _ {A : Type 0} where
  unfoldable pub pure : A → Handler A
  pure a w = (ok a, w)

  unfoldable pub fail : StorageError → Handler A
  fail e w = (raise e, w)

  -- A value that is there, or an error.
  unfoldable pub or_fail : Option A → StorageError → Handler A
  or_fail none e w = (raise e, w)
  or_fail (some a) e w = (ok a, w)

  unfoldable pub gets : (World → A) → Handler A
  gets f w = (ok (f w), w)

infixl 5 ◌>>=◌ ◌>>◌
unfoldable pub ◌>>=◌ : {A B : Type 0} → Handler A → (A → Handler B) → Handler B
unfolding pure fail or_fail gets
◌>>=◌ m f w = let (r, w') = m w in elim r [ ok a ↦ f a w' | raise e ↦ (raise e, w') ]

abbrev pub ◌>>◌ : {A B : Type 0} → Handler A → Handler B → Handler B
m >> k = m >>= λ _. k

unfoldable pub guard : Bool → StorageError → Handler (Unit {0})
guard true e w = (ok tt, w)
guard false e w = (raise e, w)

-- A step that changes the world and raises nothing.
unfoldable pub modify : (World → World) → Handler (Unit {0})
modify f w = (ok tt, f w)

-- What the outside gives a request: the wall clock in microseconds and in seconds, the monotonic clock,
-- the client's address, the names, keys and tokens that are drawn, the size of a cached value, the Telegram
-- session and what it answers: the id of a message that is sent, whether a caption could be set, whether a
-- message could be deleted, the chat of a new cloud with its marker, and whether a marker could be cleared.
pub record Env : Type 0 where
  pub now : ℕ
  pub unix : ℕ
  pub tick : ℕ
  pub client_ip : String
  pub new_name : ℕ → String
  pub new_key : List String → String
  pub new_token : String
  pub estimate_size : Body → ℕ
  pub public_key_ttl : ℕ
  pub second : ℕ
  pub max_file_bytes : ℕ
  pub is_started : Bool
  pub is_admin_authorized : Bool
  pub sent_message : Option ℕ
  pub is_edited : Bool
  pub is_deleted : Bool
  pub new_chat : Option (ℤ × String)
  pub is_cleared : Bool
  pub admin_owner : Option ℕ

unfoldable pub modify_cache : (TtlCache Body → TtlCache Body) → Handler (Unit {0})
modify_cache f w = (ok tt, record w { cache = f w.cache })

-- `await cache.get(key)`
unfoldable pub cache_get : Env → String → Handler (Option Body)
cache_get env key w =
    let (found, cache) = Cache.get key env.tick w.cache in (ok found, record w { cache = cache })

-- `await cache.set(key, value, ttl=…, namespace=…)`
unfoldable pub cache_set : Env → String → Body → ℕ → Option String → Handler (Unit {0})
cache_set env key value ttl namespace =
    modify_cache (Cache.set key value (env.estimate_size value) (some ttl) namespace env.tick)

-- `_ensure_userbot_authorized`
unfoldable pub ensure_userbot_authorized : Env → Handler (Unit {0})
ensure_userbot_authorized env = do
  guard env.is_started userbot_not_started
  guard env.is_admin_authorized userbot_not_authorized

-- The user that a request comes from.
pub record CurrentUser : Type 0 where
  pub id : ℕ
  pub is_admin : Bool
  pub pubkey : Bytes

-- `not (user.role != "admin" and row.owner_user_id != user.id)`
abbrev pub may_access : CurrentUser → Option ℕ → Bool
may_access user owner_user_id = user.is_admin || is_id owner_user_id user.id

abbrev pub find_cloud : ℕ → List CloudRow → Option CloudRow
find_cloud id = find_if λ (c : CloudRow). c.id == id

-- `_get_cloud_for_user`
unfoldable pub get_cloud_for_user : ℕ → CurrentUser → Handler CloudRow
get_cloud_for_user cloud_id user = do
  cloud ← or_fail (← gets (λ w. find_cloud cloud_id w.clouds)) not_found
  guard (may_access user cloud.owner_user_id) not_found
  pure cloud

-- `delete_file_message`, whose errors the callers catch.
abbrev pub is_message : ℤ → ℕ → Message → Bool
is_message chat_id message_id m =
    if m.message_id == message_id then eq_ℤ m.chat_id chat_id else false

unfoldable pub delete_message : ℤ → ℕ → List Message → List Message
delete_message chat_id message_id [] = []
delete_message chat_id message_id (m ∷ ms) =
    let rest = delete_message chat_id message_id ms in
    if is_message chat_id message_id m then rest else m ∷ rest

unfoldable pub delete_file_message : Env → ℤ → ℕ → Handler (Unit {0})
unfolding delete_message
delete_file_message env chat_id message_id = modify λ w.
    if env.is_deleted
    then record w { messages = delete_message chat_id message_id w.messages }
    else w
