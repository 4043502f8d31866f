-- ===== src/Db/Owner/Projects.antt =====
-- The choice of a database (lcloud/api/json_databases.py), and the handlers of lcloud/api/json_db.py that
-- list and create its collections and its publishable keys.
--
-- A key is drawn until it is new: `fresh` gives the draw that ends the loop, from the keys that are taken.
-- The name of a database and the time of its last change are not kept.
pub mod Created
use lcloud.Base.{
  ℕ, suc, ◌+◌, String, Bool, true, false, not, ◌&&◌, ◌||◌, Option, none, some, List, [], ◌∷◌, ◌++◌,
  ltb, leb, ◌==◌, str_eq, is_some, if◌then◌else◌, find_if, any_of, keep_if, length, max_of, map,
}
use lcloud.Json.{Json, str, Fields, end, field}
use lcloud.Db.Rows.{JsonDatabase, JsonCollection, JsonDbPublicKey, Db}
use lcloud.Db.Errors.{
  collection_exists, public_key_limit_reached, database_not_found, database_scope_conflict,
  integrity_error,
}
use lcloud.Db.Store.{first_database, add_operation}
use lcloud.Cache.Invalidators.{invalidate_json_collection, invalidate_json_public_keys}
use lcloud.Db.Session.{
  Env, Handler, pure, fail, gets, or_fail, guard, modify_db, modify_cache, transaction, ◌>>=◌, ◌>>◌,
}

-- `User`, as far as these handlers read it.
pub record Account : Type 0 where
  pub id : ℕ
  pub is_admin : Bool

-- `user.role != "admin" and row.owner_user_id != user.id` is not the case.
abbrev pub may_use : Account → JsonDatabase → Bool
may_use user row = user.is_admin || row.owner_user_id == user.id

unfoldable pub found_for : Account → Option JsonDatabase → Handler JsonDatabase
found_for user none = fail database_not_found
found_for user (some row) = if may_use user row then pure row else fail database_not_found

unfoldable pub get_database_or_404 : Account → ℕ → Handler JsonDatabase
get_database_or_404 user database_id = do
  row ← gets (λ w. find_if (λ (d : JsonDatabase). d.id == database_id) w.db.databases)
  found_for user row

unfoldable pub get_database_by_key_or_404 : Account → String → Handler JsonDatabase
get_database_by_key_or_404 user key = do
  row ← gets (λ w. find_if (λ (d : JsonDatabase). str_eq d.database_key key) w.db.databases)
  found_for user row

unfoldable pub new_database : ℕ → String → Db → JsonDatabase
new_database owner_user_id key db = record {
  id = suc (max_of (λ (d : JsonDatabase). d.id) db.databases);
  owner_user_id = owner_user_id;
  cloud_id = none;
  database_key = key;
  is_default = true;
}

unfoldable pub add_database : JsonDatabase → Db → Db
add_database d db = record db { databases = db.databases ++ d ∷ [] }

-- `get_default_database`, with `create=True`
unfoldable pub get_default_database : (List String → String) → ℕ → Handler JsonDatabase
get_default_database fresh owner_user_id = do
  row ← gets (λ w. first_database owner_user_id w.db.databases)
  elim row [
    | some d ↦ pure d
    | none ↦ do
      -- `_allocate_database_key`
      key ← gets (λ w. fresh (map (λ (d : JsonDatabase). d.database_key) w.db.databases))
      d ← gets (λ w. new_database owner_user_id key w.db)
      modify_db (add_database d)
      pure d
  ]

unfoldable pub resolve_database :
    (List String → String) → Account → Option ℕ → Option String → Handler JsonDatabase
resolve_database fresh user (some database_id) (some key) = do
  row ← get_database_or_404 user database_id
  guard (str_eq row.database_key key) database_scope_conflict
  pure row
resolve_database fresh user none (some key) = get_database_by_key_or_404 user key
resolve_database fresh user (some database_id) none = get_database_or_404 user database_id
resolve_database fresh user none none = get_default_database fresh user.id

-- `body.database_id or database_id`, where both are 1 or more, or a key that is not empty.
abbrev pub or_else : {A : Type 0} → Option A → Option A → Option A
or_else none b = b
or_else (some a) b = some a

abbrev pub is_named : ℕ → String → JsonCollection → Bool
is_named database_id name c = c.database_id == database_id && str_eq c.name name

abbrev pub collection_named : ℕ → ℕ → String → JsonCollection → Bool
collection_named user_id database_id name c =
    c.owner_user_id == user_id && is_named database_id name c

unfoldable pub new_collection : ℕ → ℕ → ℕ → String → Db → JsonCollection
new_collection now user_id database_id name db = record {
  id = suc (max_of (λ (c : JsonCollection). c.id) db.collections);
  database_id = database_id;
  owner_user_id = user_id;
  name = name;
  read_rule = "owner";
  write_rule = "owner";
  write_validator_json = none;
  created_at = now;
  updated_at = now;
}

-- The row and its operation.
unfoldable pub add_collection : ℕ → JsonCollection → Db → Db
add_collection now c db =
    add_operation c.id none "collection"
      (field "action" (str "create") (field "name" (str c.name) end)) none now
      (record db { collections = db.collections ++ c ∷ [] })

-- What a request names in its query and in its body: the database by its id and by its key.
pub record Scope : Type 0 where
  pub database_id : Option ℕ
  pub database_key : Option String

unfoldable pub scoped_database :
    (List String → String) → Account → Scope → Scope → Handler JsonDatabase
scoped_database fresh user body query =
    resolve_database fresh user (or_else body.database_id query.database_id)
      (or_else body.database_key query.database_key)

unfoldable pub insert_row : ℕ → ℕ → ℕ → String → Handler JsonCollection
insert_row now user_id database_id name = do
  c ← gets (λ w. new_collection now user_id database_id name w.db)
  modify_db (add_collection now c)
  pure c

-- The unique constraint on the database and the name, whoever owns the other row.
unfoldable pub insert_unique : ℕ → ℕ → ℕ → String → Handler JsonCollection
insert_unique now user_id database_id name = do
  taken ← gets (λ w. any_of (is_named database_id name) w.db.collections)
  guard (not taken) integrity_error
  insert_row now user_id database_id name

-- The check of the name, and the row.
unfoldable pub insert_named : ℕ → ℕ → ℕ → String → Handler JsonCollection
insert_named now user_id database_id name = do
  existing ← gets (λ w. any_of (collection_named user_id database_id name) w.db.collections)
  guard (not existing) collection_exists
  insert_unique now user_id database_id name

unfoldable pub create_collection :
    Env → (List String → String) → Account → Scope → Scope → String → Handler JsonCollection
create_collection env fresh user body query name = do
  row ← transaction (do
    database ← scoped_database fresh user body query
    insert_named env.now user.id database.id name)
  modify_cache (invalidate_json_collection row.id)
  pure row

-- A session that is not committed.
unfoldable pub uncommitted : {A : Type 0} → Handler A → Handler A
uncommitted m w = let (r, w') = m w in (r, record w' { db = w.db })

-- `updated_at.desc(), id.desc()`
abbrev pub later_collection : JsonCollection → JsonCollection → Bool
later_collection a b =
    ltb b.updated_at a.updated_at || (a.updated_at == b.updated_at && ltb b.id a.id)

abbrev pub insert_collection : JsonCollection → List JsonCollection → List JsonCollection
insert_collection c [] = c ∷ []
insert_collection c (x ∷ cs) =
    let rest = insert_collection c cs in if later_collection x c then x ∷ rest else c ∷ x ∷ cs

abbrev pub sort_collections : List JsonCollection → List JsonCollection
sort_collections [] = []
sort_collections (c ∷ cs) = insert_collection c (sort_collections cs)

unfoldable pub list_collections :
    (List String → String) → Account → Option ℕ → Option String → Handler (List JsonCollection)
list_collections fresh user database_id database_key = uncommitted (do
  database ← resolve_database fresh user database_id database_key
  gets (λ w.
      sort_collections (
        keep_if (λ c. c.owner_user_id == user.id && c.database_id == database.id)
          w.db.collections)))

-- `MAX_DB_PUBLIC_KEYS_PER_USER`
abbrev pub max_db_public_keys_per_user : ℕ
max_db_public_keys_per_user = 25

abbrev pub is_active_key : ℕ → ℕ → JsonDbPublicKey → Bool
is_active_key user_id database_id k =
    k.owner_user_id == user_id && (k.database_id == database_id && not (is_some k.revoked_at))

unfoldable pub new_public_key : ℕ → ℕ → ℕ → String → String → Db → JsonDbPublicKey
new_public_key now user_id database_id key label db = record {
  id = suc (max_of (λ (k : JsonDbPublicKey). k.id) db.public_keys);
  database_id = database_id;
  owner_user_id = user_id;
  key = key;
  label = label;
  created_at = now;
  revoked_at = none;
}

unfoldable pub add_public_key : JsonDbPublicKey → Db → Db
add_public_key k db = record db { public_keys = db.public_keys ++ k ∷ [] }

-- `label` is stripped.
unfoldable pub create_public_key :
    Env → (List String → String) → Account → Scope → Scope → String → Handler JsonDbPublicKey
create_public_key env fresh user body query label = do
  row ← transaction (do
    database ← scoped_database fresh user body query
    active ← gets (λ w. length (keep_if (is_active_key user.id database.id) w.db.public_keys))
    guard (ltb active max_db_public_keys_per_user) public_key_limit_reached
    key ← gets (λ w. fresh (map (λ (k : JsonDbPublicKey). k.key) w.db.public_keys))
    k ← gets (λ w. new_public_key env.now user.id database.id key label w.db)
    modify_db (add_public_key k)
    pure k)
  modify_cache invalidate_json_public_keys
  pure row
