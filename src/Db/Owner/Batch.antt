-- ===== src/Db/Owner/Batch.antt =====
-- `batch_documents` of lcloud/api/json_db.py.
use mathlib.Core.Option
use lcloud.Base.{
  ℕ, suc, String, Bool, true, false, ◌&&◌, Option, none, List, [], ◌∷◌, not, is_some, str_eq,
  any_of, map, if◌then◌else◌, length,
}
use lcloud.Json.{Fields, end}
use lcloud.Db.Errors.{write_exists}
use lcloud.Db.Rows.{JsonCollection, Db}
use lcloud.Db.Store.{find_document, if_live, touch_collection}
use lcloud.Db.Writes.{chosen_id, data_payload, upserted, set_op, patched, deleted, log_row}
use lcloud.Cache.Invalidators.{invalidate_json_collection}
use lcloud.Db.Session.{
  DocumentBody, Env, Handler, pure, guard, gets, modify_db, modify_cache, ◌>>=◌, ◌>>◌, transaction,
  serialize_document, validate_collection_name, validate_doc_id, get_collection_or_404,
  get_document_or_404,
}
use lcloud.Db.Owner.{Target}

-- `BatchWriteIn`, as `validate_write` lets it through: what each operation needs is there.
pub data BatchWrite : Type 0 where
  create : Option String → Fields → BatchWrite
  set : String → Fields → BatchWrite
  update : String → Fields → BatchWrite
  delete : String → BatchWrite

-- An item of `results`, and whether the row is in `changed_rows`.
pub record WriteResult : Type 0 where
  pub index : ℕ
  pub op : String
  pub id : String
  pub changed : Bool

-- One round of the loop.
unfoldable pub write_one : Env → ℕ → ℕ → BatchWrite → Handler WriteResult
write_one env collection_id index (create id contents) = do
  let doc_id = chosen_id id (env.new_doc_id index)
  validate_doc_id doc_id
  existing ← gets (λ w. find_document collection_id doc_id w.db.documents)
  guard (not (is_some (if_live existing))) (write_exists index doc_id)
  row ← gets (λ w. upserted env.now collection_id doc_id none contents existing w.db)
  modify_db (log_row env.now row "create" (data_payload contents) none)
  pure (record { index = index; op = "create"; id = doc_id; changed = true })
write_one env collection_id index (set doc_id contents) = do
  validate_doc_id doc_id
  existing ← gets (λ w. find_document collection_id doc_id w.db.documents)
  row ← gets (λ w. upserted env.now collection_id doc_id none contents existing w.db)
  modify_db (log_row env.now row (set_op existing) (data_payload contents) none)
  pure (record { index = index; op = "set"; id = doc_id; changed = true })
write_one env collection_id index (update doc_id contents) = do
  validate_doc_id doc_id
  old ← get_document_or_404 collection_id doc_id
  modify_db (log_row env.now (patched env.now contents old) "patch" (data_payload contents) none)
  pure (record { index = index; op = "update"; id = doc_id; changed = true })
write_one env collection_id index (delete doc_id) = do
  validate_doc_id doc_id
  old ← get_document_or_404 collection_id doc_id
  modify_db (log_row env.now (deleted env.now old) "delete" end none)
  pure (record { index = index; op = "delete"; id = doc_id; changed = false })

-- `for index, write in enumerate(body.writes)`, from the given index on
unfoldable pub write_all : Env → ℕ → ℕ → List BatchWrite → Handler (List WriteResult)
write_all env collection_id index [] = pure []
write_all env collection_id index (write ∷ writes) = do
  result ← write_one env collection_id index write
  results ← write_all env collection_id (suc index) writes
  pure (result ∷ results)

pub record BatchItem : Type 0 where
  pub result : WriteResult
  pub document : Option DocumentBody

-- `serialized.get(result["id"])`: a changed row is refreshed, so it is serialised as the batch left it.
unfoldable pub batch_item : ℕ → List WriteResult → Db → WriteResult → BatchItem
batch_item collection_id results db result = record {
  result = result;
  document =
      if any_of (λ r. r.changed && str_eq r.id result.id) results
      then Option.map serialize_document (find_document collection_id result.id db.documents)
      else none;
}

-- The session of the request, up to its commit: the collection and the results.
unfoldable pub batch_session :
    Env → Target → List BatchWrite → Handler (JsonCollection × List WriteResult)
batch_session env t writes = do
  coll ← get_collection_or_404 t.user_id t.database_id t.database_key t.collection
  results ← write_all env coll.id 0 writes
  modify_db (touch_collection coll.id env.now)
  pure (coll, results)

unfoldable pub batch_documents : Env → Target → List BatchWrite → Handler (List BatchItem × ℕ)
batch_documents env t writes = do
  validate_collection_name t.collection
  done ← transaction (batch_session env t writes)
  modify_cache (invalidate_json_collection done.0.id)
  db ← gets (λ w. w.db)
  pure (map (batch_item done.0.id done.1 db) done.1, length done.1)
