-- ===== src/Db/Writes.antt =====
-- The changes of a document's row in lcloud/api/json_db.py, which its handlers repeat, each with the
-- operation that it adds to the log.
use lcloud.Base.{ℕ, ◌+◌, String, Option, none, some, str_eq, if◌then◌else◌}
use lcloud.Json.{Fields, end, field, obj, update, json_dumps, json_loads}
use lcloud.Db.Rows.{JsonDocument, Db}
use lcloud.Db.Store.{save_document, next_document_id, add_operation, touch_collection}

-- `body.id or _new_doc_id()`
unfoldable pub chosen_id : Option String → String → String
chosen_id none fresh = fresh
chosen_id (some id) fresh = if str_eq id "" then fresh else id

-- `{"data": data}`
abbrev pub data_payload : Fields → Fields
data_payload contents = field "data" (obj contents) end

-- `JsonDocument(…, version=1)`, with the id and the creation time of its insert
unfoldable pub new_row : ℕ → ℕ → String → Option String → Fields → Db → JsonDocument
new_row now collection_id doc_id owner_uid contents db = record {
  id = next_document_id db.documents;
  collection_id = collection_id;
  doc_id = doc_id;
  owner_uid = owner_uid;
  data_json = json_dumps contents;
  version = 1;
  created_at = now;
  updated_at = now;
  deleted_at = none;
}

-- A `create` or a `set` on a row that is there, deleted or not.
unfoldable pub rewritten : ℕ → Fields → JsonDocument → JsonDocument
rewritten now contents row = record row {
  data_json = json_dumps contents;
  version = row.version + 1;
  updated_at = now;
  deleted_at = none;
}

-- `data.update(body.data)`: the merge of a patch.
unfoldable pub merged : Fields → JsonDocument → Fields
merged contents row = update (json_loads row.data_json) contents

unfoldable pub patched : ℕ → Fields → JsonDocument → JsonDocument
unfolding merged
patched now contents row = record row {
  data_json = json_dumps (merged contents row);
  version = row.version + 1;
  updated_at = now;
}

unfoldable pub deleted : ℕ → JsonDocument → JsonDocument
deleted now row = record row { deleted_at = some now; version = row.version + 1; updated_at = now }

-- The row that a `create` or a `set` leaves.
unfoldable pub upserted :
    ℕ → ℕ → String → Option String → Fields → Option JsonDocument → Db → JsonDocument
unfolding new_row rewritten
upserted now collection_id doc_id owner_uid contents none db =
    new_row now collection_id doc_id owner_uid contents db
upserted now collection_id doc_id owner_uid contents (some row) db = rewritten now contents row

-- `op = "create"` for a row that was not there, and "set" for one that was
abbrev pub set_op : Option JsonDocument → String
set_op none = "create"
set_op (some row) = "set"

-- A row's flush and its operation.
unfoldable pub log_row : ℕ → JsonDocument → String → Fields → Option String → Db → Db
log_row now row op payload owner_uid db =
    add_operation row.collection_id (some row.doc_id) op payload owner_uid now
      (record db { documents = save_document row db.documents })

-- The same with `coll.updated_at = now`, as every handler of one document does it.
unfoldable pub put_row : ℕ → JsonDocument → String → Fields → Option String → Db → Db
put_row now row op payload owner_uid db =
    touch_collection row.collection_id now (log_row now row op payload owner_uid db)
