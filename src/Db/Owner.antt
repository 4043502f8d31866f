-- ===== src/Db/Owner.antt =====
-- The handlers of lcloud/api/json_db.py for the owner of the database, on one document.
pub mod Batch
pub mod Collections
pub mod Projects
use lcloud.Base.{ℕ, String, Option, none, some, not, is_some}
use lcloud.Cache.Keys.{k_json_document}
use lcloud.Json.{Fields, end}
use lcloud.Db.Errors.{ok, raise, document_exists}
use lcloud.Db.Rows.{JsonDocument}
use lcloud.Db.Store.{find_document, if_live}
use lcloud.Db.Writes.{chosen_id, data_payload, upserted, set_op, patched, deleted, put_row}
use lcloud.Cache.Invalidators.{invalidate_json_document}
use lcloud.Db.Session.{
  Body, document, DocumentBody, World, Env, Handler, pure, guard, gets, modify_db, modify_cache,
  ◌>>=◌, ◌>>◌, cache_get, cache_set, serialize_document, validate_collection_name, validate_doc_id,
  get_collection_or_404, get_document_or_404,
}

-- The collection that a request of the owner names: `user.id`, `database_id`, `database_key` and the
-- name in the path.
pub record Target : Type 0 where
  pub user_id : ℕ
  pub database_id : Option ℕ
  pub database_key : Option String
  pub collection : String

unfoldable pub create_document : Env → Target → Option String → Fields → Handler DocumentBody
create_document env t id contents = do
  validate_collection_name t.collection
  let doc_id = chosen_id id (env.new_doc_id 0)
  validate_doc_id doc_id
  coll ← get_collection_or_404 t.user_id t.database_id t.database_key t.collection
  existing ← gets (λ w. find_document coll.id doc_id w.db.documents)
  guard (not (is_some (if_live existing))) document_exists
  row ← gets (λ w. upserted env.now coll.id doc_id none contents existing w.db)
  modify_db (put_row env.now row "create" (data_payload contents) none)
  modify_cache (invalidate_json_document coll.id doc_id)
  pure (serialize_document row)

-- `get_document`: the reply is the cached dict, if there is one.
unfoldable pub get_document : Env → Target → String → Handler Body
get_document env t doc_id = do
  validate_collection_name t.collection
  validate_doc_id doc_id
  coll ← get_collection_or_404 t.user_id t.database_id t.database_key t.collection
  cached ← cache_get env (k_json_document coll.id doc_id)
  elim cached [
    | some body ↦ pure body
    | none ↦ do
      row ← get_document_or_404 coll.id doc_id
      let body = document (serialize_document row)
      cache_set env (k_json_document coll.id doc_id) body env.document_ttl "json_doc"
      pure body
  ]

unfoldable pub set_document : Env → Target → String → Fields → Handler DocumentBody
set_document env t doc_id contents = do
  validate_collection_name t.collection
  validate_doc_id doc_id
  coll ← get_collection_or_404 t.user_id t.database_id t.database_key t.collection
  existing ← gets (λ w. find_document coll.id doc_id w.db.documents)
  row ← gets (λ w. upserted env.now coll.id doc_id none contents existing w.db)
  modify_db (put_row env.now row (set_op existing) (data_payload contents) none)
  modify_cache (invalidate_json_document coll.id doc_id)
  pure (serialize_document row)

unfoldable pub patch_document : Env → Target → String → Fields → Handler DocumentBody
patch_document env t doc_id contents = do
  validate_collection_name t.collection
  validate_doc_id doc_id
  coll ← get_collection_or_404 t.user_id t.database_id t.database_key t.collection
  old ← get_document_or_404 coll.id doc_id
  let row = patched env.now contents old
  modify_db (put_row env.now row "patch" (data_payload contents) none)
  modify_cache (invalidate_json_document coll.id doc_id)
  pure (serialize_document row)

unfoldable pub delete_document : Env → Target → String → Handler (Unit {0})
delete_document env t doc_id = do
  validate_collection_name t.collection
  validate_doc_id doc_id
  coll ← get_collection_or_404 t.user_id t.database_id t.database_key t.collection
  old ← get_document_or_404 coll.id doc_id
  modify_db (put_row env.now (deleted env.now old) "delete" end none)
  modify_cache (invalidate_json_document coll.id doc_id)
