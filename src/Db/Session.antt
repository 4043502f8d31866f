-- ===== src/Db/Session.antt =====
-- What a handler of lcloud/api/json_db.py runs in: the tables, the cache and the rate limiters, and
-- the steps that the handlers share.
--
-- A handler returns its reply and the world that it leaves. An `HTTPException` inside `async with sm()`
-- ends the session with no commit, so that the tables are as before; what was done to the cache and
-- to the limiters stays. Only cache calls follow a `commit`, and they raise nothing.
use Prim.Native.String.{◌++◌}
use lcloud.Base.{ℕ, String, Bool, true, false, Option, none, some, List, if◌then◌else◌}
use lcloud.RateLimiter.{RateLimiter, try_acquire}
use lcloud.Cache
use lcloud.Cache.{TtlCache}
use lcloud.Cache.Keys.{}
use lcloud.Json.{Fields, json_loads}
use lcloud.Db.Errors.{
  Action, read, write, HttpError, Reply, ok, raise, rate_limited, invalid_collection_name,
  invalid_document_id, collection_not_found, document_not_found, access_denied,
  public_validator_failed,
}
use lcloud.Db.Names.{is_collection_name, doc_id_re}
use lcloud.Db.Validator.{validate_public_write}
use lcloud.Db.Access.{Caller, can_access}
use lcloud.Db.Rows.{JsonCollection, JsonDocument, Db}
use lcloud.Db.Store.{find_document, if_live, find_collection, find_collection_by_id}

-- `_serialize_document`; the times stand for their ISO forms.
pub record DocumentBody : Type 0 where
  pub id : String
  pub collection_id : ℕ
  pub owner_id : Option String
  pub contents : Fields
  pub version : ℕ
  pub created_at : ℕ
  pub updated_at : ℕ

unfoldable pub serialize_document : JsonDocument → DocumentBody
serialize_document row = record {
  id = row.doc_id;
  collection_id = row.collection_id;
  owner_id = row.owner_uid;
  contents = json_loads row.data_json;
  version = row.version;
  created_at = row.created_at;
  updated_at = row.updated_at;
}

-- The dicts that the handlers cache: a document, a page of a list (with total, limit and offset), and
-- the database of a publishable key.
pub data Body : Type 0 where
  document : DocumentBody → Body
  page : List DocumentBody → ℕ → ℕ → ℕ → Body
  key_database : ℕ → Body

pub record World : Type 0 where
  pub db : Db
  pub cache : TtlCache Body
  pub read_rate : RateLimiter
  pub write_rate : RateLimiter

-- What the outside gives a request: the wall clock, the monotonic clock, the client's address, the id
-- that `_new_doc_id` draws for each document that wants one, the size of a cached value, and the times
-- to live that the environment variables of lcloud/cache.py set, `JSON_DOCUMENT_TTL`, `JSON_QUERY_TTL`
-- and `PUBLIC_KEY_TTL`.
pub record Env : Type 0 where
  pub now : ℕ
  pub tick : ℕ
  pub client_ip : String
  pub new_doc_id : ℕ → String
  pub estimate_size : Body → ℕ
  pub document_ttl : ℕ
  pub query_ttl : ℕ
  pub public_key_ttl : ℕ

abbrev pub Handler : Type 0 → Type 0
Handler A = World → Reply A × World

module _ {A : Type 0} where
  unfoldable pub pure : A → Handler A
  pure a w = (ok a, w)

  unfoldable pub fail : HttpError → Handler A
  fail e w = (raise e, w)

  -- A value that is there, or an error.
  unfoldable pub or_fail : Option A → HttpError → Handler A
  or_fail none e w = (raise e, w)
  or_fail (some a) e w = (ok a, w)

  unfoldable pub gets : (World → A) → Handler A
  gets f w = (ok (f w), w)

infixl 5 ◌>>=◌ ◌>>◌
unfoldable pub ◌>>=◌ : {A B : Type 0} → Handler A → (A → Handler B) → Handler B
unfolding pure fail or_fail gets
◌>>=◌ m f w = let (r, w') = m w in elim r [ ok a ↦ f a w' | raise e ↦ (raise e, w') ]

abbrev pub ◌>>◌ : {A B : Type 0} → Handler A → Handler B → Handler B
m >> k = m >>= λ _. k

unfoldable pub guard : Bool → HttpError → Handler (Unit {0})
guard true e w = (ok tt, w)
guard false e w = (raise e, w)

unfoldable pub modify_db : (Db → Db) → Handler (Unit {0})
modify_db f w = (ok tt, record w { db = f w.db })

unfoldable pub modify_cache : (TtlCache Body → TtlCache Body) → Handler (Unit {0})
modify_cache f w = (ok tt, record w { cache = f w.cache })

-- `await cache.get(key)`
unfoldable pub cache_get : Env → String → Handler (Option Body)
cache_get env key w =
    let (found, cache) = Cache.get key env.tick w.cache in (ok found, record w { cache = cache })

-- `await cache.set(key, value, ttl=…, namespace=…)`
unfoldable pub cache_set : Env → String → Body → ℕ → String → Handler (Unit {0})
cache_set env key value ttl namespace =
    modify_cache
      (Cache.set key value (env.estimate_size value) (some ttl) (some namespace) env.tick)

-- `_enforce_public_rate`
unfoldable pub enforce_public_rate : Env → Action → Handler (Unit {0})
enforce_public_rate env read w =
    let (passed, r) = try_acquire ("read:" ++ env.client_ip) 1 env.tick w.read_rate in
    (if passed then ok tt else raise (rate_limited read), record w { read_rate = r })
enforce_public_rate env write w =
    let (passed, r) = try_acquire ("write:" ++ env.client_ip) 1 env.tick w.write_rate in
    (if passed then ok tt else raise (rate_limited write), record w { write_rate = r })

-- `_validate_collection_name` and `_validate_doc_id`
unfoldable pub validate_collection_name : String → Handler (Unit {0})
validate_collection_name name = guard (is_collection_name name) invalid_collection_name

unfoldable pub validate_doc_id : String → Handler (Unit {0})
validate_doc_id doc_id = guard (doc_id_re doc_id) invalid_document_id

-- `_get_collection_or_404`
unfoldable pub get_collection_or_404 :
    ℕ → Option ℕ → Option String → String → Handler JsonCollection
get_collection_or_404 user_id database_id database_key name w =
    or_fail (find_collection user_id database_id database_key name w.db) collection_not_found w

-- `_get_collection_by_id_or_404`
unfoldable pub get_collection_by_id_or_404 : ℕ → Handler JsonCollection
get_collection_by_id_or_404 id w = or_fail (find_collection_by_id id w.db) collection_not_found w

-- `_get_document_or_404`
unfoldable pub get_document_or_404 : ℕ → String → Handler JsonDocument
get_document_or_404 collection_id doc_id w =
    or_fail (if_live (find_document collection_id doc_id w.db.documents)) document_not_found w

-- `_require_collection_access`
unfoldable pub require_collection_access :
    JsonCollection → Caller → Action → Option JsonDocument → Handler (Unit {0})
require_collection_access c caller action row = guard (can_access c caller action row) access_denied

-- `_validate_public_write`
unfoldable pub require_valid_write : JsonCollection → Fields → Handler (Unit {0})
require_valid_write c contents w = elim (validate_public_write c.write_validator_json contents) [
  | none ↦ (ok tt, w)
  | some check ↦ (raise (public_validator_failed check), w)
]

-- A session that an error ends before its `commit`: the tables are as they were.
unfoldable pub transaction : {A : Type 0} → Handler A → Handler A
transaction m w =
    let (r, w') = m w in elim r [ ok a ↦ (ok a, w') | raise e ↦ (raise e, record w' { db = w.db }) ]
