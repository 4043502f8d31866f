-- ===== src/Restore.antt =====
-- lcloud/userbot/db_restore.py: the replay of the operations that the Telegram backup segments hold.
--
-- An operation of a segment is a `JsonOperation`: the ids are numbers, the payload is a dict, and
-- `created_at` is the time that `_parse_dt` makes of its text. An error ends the session with no commit.
pub mod Replay
pub mod Recorded
pub mod Effects
pub mod Faithful
pub mod Logged
pub mod Segments
pub mod Requests
use lcloud.Base.{
  ℕ, String, Bool, true, false, ◌&&◌, ◌||◌, Option, none, some, List, [], ◌∷◌, ◌++◌, ◌==◌,
  if◌then◌else◌, str_eq, option_str_eq,
}
use lcloud.Json.{Json, str, obj, Fields, lookup, json_dumps, json_loads}
use lcloud.Db.Rows.{JsonDocument, JsonOperation, JsonCollection, Db}
use lcloud.Db.Store.{find_document, save_document, update_collection, touch_collection}
use lcloud.Db.Writes.{rewritten, patched, deleted, new_row}

-- The messages of `RestoreError`.
pub data RestoreError : Type 0 where
  missing_doc_id missing_data missing_document unsupported_operation : RestoreError
  id_conflict : RestoreError

pub data Outcome {ℓ} (A : Type ℓ) : Type ℓ where
  ok : A → Outcome A
  error : RestoreError → Outcome A

infixl 5 ◌>>=◌
abbrev pub ◌>>=◌ {ℓ κ} : {A : Type ℓ} {B : Type κ} → Outcome A → (A → Outcome B) → Outcome B
ok a >>= f = f a
error e >>= f = error e

-- The value if it is a dict.
abbrev pub as_dict : Option Json → Option Fields
as_dict (some (obj d)) = some d
as_dict _ = none

abbrev pub or_error : {A : Type 0} → Option A → RestoreError → Outcome A
or_error none e = error e
or_error (some a) e = ok a

-- `if row.owner_uid is None and isinstance(owner_uid, str): row.owner_uid = owner_uid`
unfoldable pub adopt : Option String → JsonDocument → JsonDocument
adopt none row = row
adopt (some uid) row = record row {
  owner_uid = elim row.owner_uid [ none ↦ some uid | some old ↦ some old ];
}

-- The row that `_replay_document_operation` leaves, for the row that it found.
unfoldable pub replay_write :
    ℕ → ℕ → String → Option String → Fields → Option JsonDocument → Db → JsonDocument
unfolding new_row rewritten adopt
replay_write now collection_id doc_id owner_uid contents none db =
    new_row now collection_id doc_id owner_uid contents db
replay_write now collection_id doc_id owner_uid contents (some row) db =
    rewritten now contents (adopt owner_uid row)

unfoldable pub replay_row :
    ℕ
    → ℕ
    → String
    → String
    → Fields
    → Option String
    → Option JsonDocument
    → Db
    → Outcome JsonDocument
unfolding replay_write patched deleted
replay_row now collection_id doc_id op payload owner_uid row db =
    if str_eq op "create" || str_eq op "set"
    then (do
      contents ← or_error (as_dict (lookup "data" payload)) missing_data
      ok (replay_write now collection_id doc_id owner_uid contents row db))
    else if str_eq op "patch"
    then (do
      contents ← or_error (as_dict (lookup "data" payload)) missing_data
      old ← or_error row missing_document
      ok (patched now contents old))
    else (do old ← or_error row missing_document; ok (deleted now old))

-- `_replay_document_operation`
unfoldable pub replay_document_operation :
    ℕ → ℕ → String → String → Fields → Option String → Db → Outcome Db
unfolding replay_row touch_collection
replay_document_operation now collection_id doc_id op payload owner_uid db = do
  row ←
      replay_row now collection_id doc_id op payload owner_uid
        (find_document collection_id doc_id db.documents) db
  ok (touch_collection collection_id now (record db { documents = save_document row db.documents }))

-- `op in {"create", "set", "patch", "delete"}`
abbrev pub is_document_op : String → Bool
is_document_op op = str_eq op "create" || str_eq op "set" || str_eq op "patch" || str_eq op "delete"

-- `str(payload.get(key, old))`, where `shown` is Python's `str` of a JSON value
unfoldable pub text_or : (Json → String) → String → Fields → String → String
text_or shown key payload old = elim (lookup key payload) [ none ↦ old | some v ↦ shown v ]

-- The branches on a collection's own operations.
unfoldable pub replay_rules : (Json → String) → Fields → JsonCollection → JsonCollection
unfolding text_or
replay_rules shown payload c = record c {
  read_rule = text_or shown "read" payload c.read_rule;
  write_rule = text_or shown "write" payload c.write_rule;
}

-- A validator that is no dict is kept as none: `_load_write_validator` reads both alike.
unfoldable pub replay_validator : Fields → JsonCollection → JsonCollection
replay_validator payload c = record c {
  write_validator_json = elim (as_dict (lookup "validator" payload)) [
    | none ↦ none
    | some v ↦ some (json_dumps v)
  ];
}

-- `payload.get("action") == "create"`
abbrev pub is_create : Option Json → Bool
is_create (some (str s)) = str_eq s "create"
is_create _ = false

-- The first part of `_replay_operation`, by the operation's name.
unfoldable pub replay_effect : (Json → String) → ℕ → JsonOperation → Db → Outcome Db
unfolding replay_rules replay_validator
replay_effect shown target o db =
    let payload = json_loads o.payload_json in
    if str_eq o.op "collection"
    then ok (
        if is_create (lookup "action" payload) then touch_collection target o.created_at db else db)
    else if str_eq o.op "rules"
    then ok (record db {
      collections = update_collection target (replay_rules shown payload) db.collections;
    })
    else if str_eq o.op "validator"
    then ok (record db {
      collections = update_collection target (replay_validator payload) db.collections;
    })
    else if is_document_op o.op
    then elim o.doc_id [
      | none ↦ error missing_doc_id
      | some doc_id ↦
          replay_document_operation o.created_at target doc_id o.op payload o.owner_uid db
    ]
    else error unsupported_operation

unfoldable pub find_operation : ℕ → List JsonOperation → Option JsonOperation
find_operation id [] = none
find_operation id (o ∷ ops) = if o.id == id then some o else find_operation id ops

-- Its second part: the operation itself is added to the log, if no operation has its id.
unfoldable pub record_operation : ℕ → JsonOperation → Db → Outcome Db
record_operation target o db = elim (find_operation o.id db.operations) [
  | none ↦ ok (record db { operations = db.operations ++ record o { collection_id = target } ∷ [] })
  | some old ↦
      if str_eq old.op o.op && option_str_eq old.doc_id o.doc_id then ok db else error id_conflict
]

-- `_replay_operation`
unfoldable pub replay_operation : (Json → String) → ℕ → JsonOperation → Db → Outcome Db
replay_operation shown target o db = replay_effect shown target o db >>= record_operation target o
