-- ===== src/Db/Store.antt =====
-- Queries and updates of the tables.
pub mod Laws
use lcloud.Base.{
  ℕ, suc, ◌+◌, String, Bool, true, false, ◌&&◌, ◌||◌, not, Option, none, some, List, [], ◌∷◌, ◌++◌,
  ltb, ◌==◌, if◌then◌else◌, is_some, str_eq, find_if, keep_if, any_of, max_of,
}
use lcloud.Json.{JsonText, Fields, json_dumps}
use lcloud.Db.Rows.{JsonDatabase, JsonCollection, JsonDocument, JsonOperation, Db}

abbrev pub is_at : ℕ → String → JsonDocument → Bool
is_at collection_id doc_id row = row.collection_id == collection_id && str_eq row.doc_id doc_id

-- `_find_document`: the row of the unique key (collection_id, doc_id), deleted or not
unfoldable pub find_document : ℕ → String → List JsonDocument → Option JsonDocument
find_document collection_id doc_id [] = none
find_document collection_id doc_id (row ∷ rows) =
    if is_at collection_id doc_id row then some row else find_document collection_id doc_id rows

abbrev pub if_live : Option JsonDocument → Option JsonDocument
if_live none = none
if_live (some row) = if is_some row.deleted_at then none else some row

-- The flush of a row: it takes the place of the row of its unique key, or is added to the table.
unfoldable pub save_document : JsonDocument → List JsonDocument → List JsonDocument
save_document row [] = row ∷ []
save_document row (r ∷ rows) =
    if is_at row.collection_id row.doc_id r then row ∷ rows else r ∷ save_document row rows

unfoldable pub next_document_id : List JsonDocument → ℕ
next_document_id rows = suc (max_of (λ row. row.id) rows)

unfoldable pub next_operation_id : List JsonOperation → ℕ
next_operation_id ops = suc (max_of (λ op. op.id) ops)

-- `_operation`, as the flush adds it with its id and the time of the insert
unfoldable pub add_operation : ℕ → Option String → String → Fields → Option String → ℕ → Db → Db
add_operation collection_id doc_id op payload owner_uid now db = record db {
  operations =
      db.operations
      ++ record {
        id = next_operation_id db.operations;
        collection_id = collection_id;
        doc_id = doc_id;
        owner_uid = owner_uid;
        op = op;
        payload_json = json_dumps payload;
        created_at = now;
      }
        ∷ [];
}

-- A change of one collection's row.
unfoldable pub update_collection :
    ℕ → (JsonCollection → JsonCollection) → List JsonCollection → List JsonCollection
update_collection id f [] = []
update_collection id f (c ∷ cs) =
    let rest = update_collection id f cs in if c.id == id then f c ∷ rest else c ∷ rest

-- `coll.updated_at = now`
unfoldable pub touch_collection : ℕ → ℕ → Db → Db
unfolding update_collection
touch_collection id now db = record db {
  collections = update_collection id (λ c. record c { updated_at = now }) db.collections;
}

-- `order_by(is_default.desc(), id.asc())`
unfoldable pub comes_before : JsonDatabase → JsonDatabase → Bool
comes_before a b =
    (a.is_default && not b.is_default) || (not (not a.is_default && b.is_default) && ltb a.id b.id)

unfoldable pub first_database : ℕ → List JsonDatabase → Option JsonDatabase
unfolding comes_before
first_database user_id [] = none
first_database user_id (d ∷ ds) =
    let rest = first_database user_id ds in
    if d.owner_user_id == user_id
    then elim rest [ none ↦ some d | some e ↦ some (if comes_before e d then e else d) ]
    else rest

-- The condition that `_get_collection_or_404` puts on a collection's database.
unfoldable pub in_scope : ℕ → Option ℕ → Option String → Db → JsonCollection → Bool
unfolding first_database
in_scope user_id none none db c = elim (first_database user_id db.databases) [
  | none ↦ false
  | some d ↦ c.database_id == d.id
]
in_scope user_id (some database_id) none db c = c.database_id == database_id
in_scope user_id none (some key) db c =
    any_of (λ d. d.id == c.database_id && str_eq d.database_key key) db.databases
in_scope user_id (some database_id) (some key) db c =
    any_of (λ d. d.id == c.database_id && str_eq d.database_key key) db.databases
    && c.database_id == database_id

-- The query of `_get_collection_or_404`.
unfoldable pub find_collection : ℕ → Option ℕ → Option String → String → Db → Option JsonCollection
unfolding in_scope
find_collection user_id database_id database_key name db =
    find_if
      (λ c.
        c.owner_user_id == user_id
        && str_eq c.name name
        && in_scope user_id database_id database_key db c)
      db.collections

unfoldable pub find_collection_by_id : ℕ → Db → Option JsonCollection
find_collection_by_id id db = find_if (λ c. c.id == id) db.collections
