-- ===== src/Db/Lists.antt =====
-- The handlers of lcloud/api/json_db.py that list the documents of a collection.
pub mod Pages
use lcloud.Base.{
  ℕ, String, Bool, true, false, ◌&&◌, ◌||◌, not, Option, none, some, List, [], ◌∷◌, ltb, ◌==◌,
  str_eq, is_some, option_str_eq, if◌then◌else◌, keep_if, take, drop, length, map,
}
use lcloud.Cache.Keys.{k_json_list}
use lcloud.Db.Rows.{JsonCollection, JsonDocument, Db}
use lcloud.Db.Errors.{read}
use lcloud.Db.Access.{Caller, app_uid, user}
use lcloud.Db.Owner.{Target}
use lcloud.Db.PublicKey.{get_collection_by_public_key_or_404}
use lcloud.Db.Session.{
  Body, page, Env, Handler, pure, gets, ◌>>=◌, ◌>>◌, cache_get, cache_set, serialize_document,
  validate_collection_name, get_collection_or_404, get_collection_by_id_or_404, enforce_public_rate,
  require_collection_access,
}

-- `updated_at.desc(), id.desc()`
abbrev pub precedes : JsonDocument → JsonDocument → Bool
precedes a b = ltb b.updated_at a.updated_at || (a.updated_at == b.updated_at && ltb b.id a.id)

abbrev pub insert_latest : JsonDocument → List JsonDocument → List JsonDocument
insert_latest row [] = row ∷ []
insert_latest row (x ∷ rows) =
    let rest = insert_latest row rows in if precedes x row then x ∷ rest else row ∷ x ∷ rows

unfoldable pub latest_first : List JsonDocument → List JsonDocument
latest_first [] = []
latest_first (row ∷ rows) = insert_latest row (latest_first rows)

-- An app user of a collection whose documents have owners is listed its own.
unfoldable pub is_listed : JsonCollection → Caller → JsonDocument → Bool
is_listed coll caller row = elim (app_uid caller) [
  | none ↦ true
  | some uid ↦
      if str_eq coll.read_rule "document_owner"
      then option_str_eq row.owner_uid (some uid)
      else true
]

-- The query `base`.
unfoldable pub listed_rows :
    JsonCollection → (JsonDocument → Bool) → List JsonDocument → List JsonDocument
listed_rows coll shows rows =
    keep_if (λ row. row.collection_id == coll.id && (not (is_some row.deleted_at) && shows row))
      rows

-- `limit(limit).offset(offset)`
abbrev pub page_rows : ℕ → ℕ → List JsonDocument → List JsonDocument
page_rows limit offset rows = take limit (drop offset (latest_first rows))

unfoldable pub list_body : JsonCollection → (JsonDocument → Bool) → ℕ → ℕ → Db → Body
list_body coll shows limit offset db =
    let base = listed_rows coll shows db.documents in
    page (map serialize_document (page_rows limit offset base)) (length base) limit offset

-- A page from the cache, or from the tables and then cached.
unfoldable pub cached_list : Env → JsonCollection → ℕ → ℕ → Handler Body
cached_list env coll limit offset = do
  cached ← cache_get env (k_json_list coll.id limit offset)
  elim cached [
    | some body ↦ pure body
    | none ↦ do
      body ← gets (λ w. list_body coll (λ row. true) limit offset w.db)
      cache_set env (k_json_list coll.id limit offset) body env.query_ttl "json_list"
      pure body
  ]

unfoldable pub list_documents : Env → Target → ℕ → ℕ → Handler Body
list_documents env t limit offset = do
  validate_collection_name t.collection
  coll ← get_collection_or_404 t.user_id t.database_id t.database_key t.collection
  cached_list env coll limit offset

unfoldable pub public_list_documents : Env → ℕ → Option ℕ → ℕ → ℕ → Handler Body
public_list_documents env collection_id user_id limit offset = do
  enforce_public_rate env read
  coll ← get_collection_by_id_or_404 collection_id
  require_collection_access coll (user user_id) read none
  cached_list env coll limit offset

unfoldable pub public_key_list_documents : Env → String → String → Caller → ℕ → ℕ → Handler Body
public_key_list_documents env key name caller limit offset = do
  enforce_public_rate env read
  validate_collection_name name
  coll ← get_collection_by_public_key_or_404 env key name
  require_collection_access coll caller read none
  gets (λ w. list_body coll (is_listed coll caller) limit offset w.db)
