-- ===== src/Db/PublicKey.antt =====
-- The handlers of lcloud/api/json_db.py on one document of a collection that the request names by a
-- publishable key and its name; the caller may be an app user.
use lcloud.Base.{ℕ, String, Option, none, some, not, is_some, find_if, ◌&&◌, str_eq, ◌==◌}
use lcloud.Cache.Keys.{k_json_public_key}
use lcloud.Json.{Fields, end}
use lcloud.Db.Access.{Caller, app_uid}
use lcloud.Db.Errors.{document_exists, collection_not_found, public_key_not_found, read, write}
use lcloud.Db.Rows.{JsonCollection, JsonDbPublicKey, Db}
use lcloud.Db.Store.{find_document, if_live}
use lcloud.Db.Writes.{chosen_id, data_payload, upserted, set_op, merged, patched, deleted, put_row}
use lcloud.Db.Session.{
  Body, key_database, DocumentBody, Env, Handler, pure, or_fail, guard, gets, modify_db, ◌>>=◌,
  ◌>>◌, cache_get, cache_set, serialize_document, validate_collection_name, validate_doc_id,
  get_document_or_404, enforce_public_rate, require_collection_access, require_valid_write,
}

-- The key's row, if it is not revoked.
unfoldable pub find_public_key : String → Db → Option JsonDbPublicKey
find_public_key key db =
    find_if (λ k. str_eq k.key key && not (is_some k.revoked_at)) db.public_keys

unfoldable pub find_collection_in : ℕ → String → Db → Option JsonCollection
find_collection_in database_id name db =
    find_if (λ c. c.database_id == database_id && str_eq c.name name) db.collections

-- The database of the key: from the cache, or from the table and then cached.
unfoldable pub resolve_key : Env → String → Option Body → Handler ℕ
resolve_key env key (some (key_database database_id)) = pure database_id
resolve_key env key _ = do
  found ← gets (λ w. find_public_key key w.db)
  row ← or_fail found public_key_not_found
  cache_set env (k_json_public_key key) (key_database row.database_id) env.public_key_ttl
      "json_public_key"
  pure row.database_id

-- `_get_collection_by_public_key_or_404`
unfoldable pub get_collection_by_public_key_or_404 : Env → String → String → Handler JsonCollection
get_collection_by_public_key_or_404 env key name = do
  cached ← cache_get env (k_json_public_key key)
  database_id ← resolve_key env key cached
  found ← gets (λ w. find_collection_in database_id name w.db)
  or_fail found collection_not_found

unfoldable pub public_key_create_document :
    Env → String → String → Caller → Option String → Fields → Handler DocumentBody
public_key_create_document env key name caller id contents = do
  enforce_public_rate env write
  validate_collection_name name
  let doc_id = chosen_id id (env.new_doc_id 0)
  validate_doc_id doc_id
  coll ← get_collection_by_public_key_or_404 env key name
  require_collection_access coll caller write none
  require_valid_write coll contents
  existing ← gets (λ w. find_document coll.id doc_id w.db.documents)
  guard (not (is_some (if_live existing))) document_exists
  -- the second check of the access, for a row that is there
  require_collection_access coll caller write existing
  row ← gets (λ w. upserted env.now coll.id doc_id (app_uid caller) contents existing w.db)
  modify_db (put_row env.now row "create" (data_payload contents) row.owner_uid)
  pure (serialize_document row)

unfoldable pub public_key_get_document :
    Env → String → String → Caller → String → Handler DocumentBody
public_key_get_document env key name caller doc_id = do
  enforce_public_rate env read
  validate_collection_name name
  validate_doc_id doc_id
  coll ← get_collection_by_public_key_or_404 env key name
  row ← get_document_or_404 coll.id doc_id
  require_collection_access coll caller read (some row)
  pure (serialize_document row)

unfoldable pub public_key_set_document :
    Env → String → String → Caller → String → Fields → Handler DocumentBody
public_key_set_document env key name caller doc_id contents = do
  enforce_public_rate env write
  validate_collection_name name
  validate_doc_id doc_id
  coll ← get_collection_by_public_key_or_404 env key name
  require_collection_access coll caller write none
  require_valid_write coll contents
  existing ← gets (λ w. find_document coll.id doc_id w.db.documents)
  require_collection_access coll caller write existing
  row ← gets (λ w. upserted env.now coll.id doc_id (app_uid caller) contents existing w.db)
  modify_db (put_row env.now row (set_op existing) (data_payload contents) row.owner_uid)
  pure (serialize_document row)

unfoldable pub public_key_patch_document :
    Env → String → String → Caller → String → Fields → Handler DocumentBody
public_key_patch_document env key name caller doc_id contents = do
  enforce_public_rate env write
  validate_collection_name name
  validate_doc_id doc_id
  coll ← get_collection_by_public_key_or_404 env key name
  require_collection_access coll caller write none
  old ← get_document_or_404 coll.id doc_id
  require_collection_access coll caller write (some old)
  require_valid_write coll (merged contents old)
  let row = patched env.now contents old
  modify_db (put_row env.now row "patch" (data_payload contents) row.owner_uid)
  pure (serialize_document row)

unfoldable pub public_key_delete_document :
    Env → String → String → Caller → String → Handler (Unit {0})
public_key_delete_document env key name caller doc_id = do
  enforce_public_rate env write
  validate_collection_name name
  validate_doc_id doc_id
  coll ← get_collection_by_public_key_or_404 env key name
  require_collection_access coll caller write none
  old ← get_document_or_404 coll.id doc_id
  require_collection_access coll caller write (some old)
  modify_db (put_row env.now (deleted env.now old) "delete" end old.owner_uid)
  pure tt
