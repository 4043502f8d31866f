-- ===== src/Db/Public.antt =====
-- The handlers of lcloud/api/json_db.py on one document of a collection that the request names by id.
-- `user` is an optional user of the API: no such request has an app user.
use lcloud.Base.{ℕ, String, Option, none, some, not, is_some}
use lcloud.Cache.Keys.{k_json_document}
use lcloud.Json.{Fields, end}
use lcloud.Db.Access.{user}
use lcloud.Db.Errors.{document_exists, read, write}
use lcloud.Db.Store.{find_document, if_live}
use lcloud.Db.Writes.{chosen_id, data_payload, upserted, set_op, merged, patched, deleted, put_row}
use lcloud.Cache.Invalidators.{invalidate_json_document}
use lcloud.Db.Session.{
  Body, document, DocumentBody, Env, Handler, pure, guard, gets, modify_db, modify_cache, ◌>>=◌,
  ◌>>◌, cache_get, cache_set, serialize_document, validate_doc_id, get_collection_by_id_or_404,
  get_document_or_404, enforce_public_rate, require_collection_access, require_valid_write,
}

unfoldable pub public_create_document :
    Env → ℕ → Option ℕ → Option String → Fields → Handler DocumentBody
public_create_document env collection_id user_id id contents = do
  enforce_public_rate env write
  let doc_id = chosen_id id (env.new_doc_id 0)
  validate_doc_id doc_id
  coll ← get_collection_by_id_or_404 collection_id
  require_collection_access coll (user user_id) write none
  require_valid_write coll contents
  existing ← gets (λ w. find_document coll.id doc_id w.db.documents)
  guard (not (is_some (if_live existing))) document_exists
  row ← gets (λ w. upserted env.now coll.id doc_id none contents existing w.db)
  modify_db (put_row env.now row "create" (data_payload contents) none)
  modify_cache (invalidate_json_document coll.id doc_id)
  pure (serialize_document row)

unfoldable pub public_get_document : Env → ℕ → Option ℕ → String → Handler Body
public_get_document env collection_id user_id doc_id = do
  enforce_public_rate env read
  validate_doc_id doc_id
  coll ← get_collection_by_id_or_404 collection_id
  require_collection_access coll (user user_id) read none
  cached ← cache_get env (k_json_document coll.id doc_id)
  elim cached [
    | some body ↦ pure body
    | none ↦ do
      row ← get_document_or_404 coll.id doc_id
      let body = document (serialize_document row)
      cache_set env (k_json_document coll.id doc_id) body env.document_ttl "json_doc"
      pure body
  ]

unfoldable pub public_set_document : Env → ℕ → Option ℕ → String → Fields → Handler DocumentBody
public_set_document env collection_id user_id doc_id contents = do
  enforce_public_rate env write
  validate_doc_id doc_id
  coll ← get_collection_by_id_or_404 collection_id
  require_collection_access coll (user user_id) write none
  require_valid_write coll contents
  existing ← gets (λ w. find_document coll.id doc_id w.db.documents)
  row ← gets (λ w. upserted env.now coll.id doc_id none contents existing w.db)
  modify_db (put_row env.now row (set_op existing) (data_payload contents) none)
  modify_cache (invalidate_json_document coll.id doc_id)
  pure (serialize_document row)

unfoldable pub public_patch_document : Env → ℕ → Option ℕ → String → Fields → Handler DocumentBody
public_patch_document env collection_id user_id doc_id contents = do
  enforce_public_rate env write
  validate_doc_id doc_id
  coll ← get_collection_by_id_or_404 collection_id
  require_collection_access coll (user user_id) write none
  old ← get_document_or_404 coll.id doc_id
  require_valid_write coll (merged contents old)
  let row = patched env.now contents old
  modify_db (put_row env.now row "patch" (data_payload contents) none)
  modify_cache (invalidate_json_document coll.id doc_id)
  pure (serialize_document row)

unfoldable pub public_delete_document : Env → ℕ → Option ℕ → String → Handler (Unit {0})
public_delete_document env collection_id user_id doc_id = do
  enforce_public_rate env write
  validate_doc_id doc_id
  coll ← get_collection_by_id_or_404 collection_id
  require_collection_access coll (user user_id) write none
  old ← get_document_or_404 coll.id doc_id
  modify_db (put_row env.now (deleted env.now old) "delete" end none)
  modify_cache (invalidate_json_document coll.id doc_id)
