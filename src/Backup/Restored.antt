-- ===== src/Backup/Restored.antt =====
-- lcloud/api/json_db.py, lcloud/userbot/db_backup.py and lcloud/userbot/db_restore.py together.
use mathlib.Core.Path.{subst}
use mathlib.Core.List.{append-nil}
use lcloud.Base.{
  ℕ, ◌<◌, String, ◌≡◌, refl, sym, ap, ◌∙◌, true, none, some, List, [], ◌∷◌, ◌++◌, arith, ◌==◌,
  find_if, map, not, inl, inr, Option-cases, Bool-cases,
}
use lcloud.Json.{Json}
use lcloud.Base.Ascending.{Above, last_key, Above-append, Above-keep_if, last_key-le-max_of}
use lcloud.Db.Rows.{JsonOperation, JsonCollection, Db}
use lcloud.Db.Store.{find_document, add_operation, next_operation_id}
use lcloud.Db.Writes.{log_row}
use lcloud.Db.Session.{World, Env}
use lcloud.Db.Changes.{Change, done, log, note, touch}
use lcloud.Db.Owner.Collections.{drop_collection}
use lcloud.Db.Requests.{Request, serve_all}
use lcloud.Db.Requests.Preserved.{serve_all-preserves}
use lcloud.Restore.Replay.{of_collection, replay_all, Returns, SameRow}
use lcloud.Restore.Requests.{replay_all-serve_all}
use lcloud.Backup.Invariant.{sent_rows}
use lcloud.Backup.{Row, join_rows, pending_rows, last_uploaded, Cloud}
use lcloud.Backup.Cursor.{IsAscending, rows_of}
use lcloud.Backup.Runs.{Call, backup_rounds, empty_vault, backup_rounds-whole}

next_above :
    (ops : List JsonOperation)
    → last_key (λ (o : JsonOperation). o.id) 0 ops < next_operation_id ops
unfolding next_operation_id
next_above ops = omega (arith, last_key-le-max_of (λ (o : JsonOperation). o.id) 0 ops)

pub Change-IsAscending : {s t : Db} → Change s t → IsAscending s → IsAscending t
unfolding log_row add_operation
Change-IsAscending done h = h
Change-IsAscending (log {t} p st at) h =
    Above-append (λ o. o.id) 0 t.operations _ (Change-IsAscending p h) (next_above t.operations)
Change-IsAscending (note {t} k op payload uid now n p) h =
    Above-append (λ o. o.id) 0 t.operations _ (Change-IsAscending p h) (next_above t.operations)
Change-IsAscending (touch cs p) h = Change-IsAscending p h

drop_collection-IsAscending :
    (id : ℕ) (db : Db) → IsAscending db → IsAscending (drop_collection id db)
unfolding drop_collection
drop_collection-IsAscending id db h =
    Above-keep_if (λ o. o.id) (λ o. not (o.collection_id == id)) 0 db.operations h

serve_all-IsAscending :
    (rs : List (Env × Request)) (w : World) → w.db.operations ≡ [] → IsAscending (serve_all rs w).db
serve_all-IsAscending rs w e =
    serve_all-preserves IsAscending (λ s t. Change-IsAscending) drop_collection-IsAscending rs w
      (subst (Above (λ (o : JsonOperation). o.id) 0) (sym e) tt)

abbrev pub operation_of : Row → JsonOperation
operation_of r = r.operation

-- The rows of a database have all operations of each of its collections.
of_collection-join_rows :
    (d c : ℕ) (k : JsonCollection) (cs : List JsonCollection) (ops : List JsonOperation)
    → find_if (λ x. x.id == c) cs ≡ some k
    → (k.database_id == d) ≡ true
    → of_collection c (map operation_of (join_rows d cs ops)) ≡ of_collection c ops
unfolding join_rows
of_collection-join_rows d c k cs [] f e = refl
of_collection-join_rows d c k cs (o ∷ ops) f e = elim (Bool-cases (o.collection_id == c)) [
  | inl own ↦
      let found : find_if (λ x. x.id == o.collection_id) cs ≡ some k =
        subst (λ n. find_if (λ x. x.id == n) cs ≡ some k) (sym (same_id own)) f in
      rw (found, join_rows, e, own) (ap (◌∷◌ o) (of_collection-join_rows d c k cs ops f e))
  | inr other ↦ elim (Option-cases (find_if (λ x. x.id == o.collection_id) cs)) [
    | inl missing ↦ rw (missing, join_rows, other) (of_collection-join_rows d c k cs ops f e)
    | inr (x, found) ↦ elim (Bool-cases (x.database_id == d)) [
      | inl same ↦ rw (found, join_rows, same, other) (of_collection-join_rows d c k cs ops f e)
      | inr foreign ↦
          rw (found, join_rows, foreign, other) (of_collection-join_rows d c k cs ops f e)
    ]
  ]
]
  where
    same_id : {a b : ℕ} → (a == b) ≡ true → a ≡ b
    same_id h = ground arith

-- Serve any sequence of requests from tables that hold no document and no operation, then call `backup_once`
-- any number of times, at any times, with any limits, whatever uploads fail, until nothing is pending
-- for a database. Then for each collection of the database, the operations of the collection in the
-- segments that Telegram has, in the order of the messages, replayed into a collection that has no
-- documents, in tables that hold no operation, are all accepted, and leave for every document id a row
-- exactly when the source has one, equal in owner, data, version and whether it is deleted.
pub replay_all-sent_rows :
    (shown : Json → String) (rs : List (Env × Request)) (w : World) (calls : List Call)
    (clouds : List Cloud) (start : Db) (target c d : ℕ) (k : JsonCollection)
    → w.db.operations ≡ []
    → w.db.documents ≡ []
    → ((id : String) → find_document target id start.documents ≡ none)
    → start.operations ≡ []
    → let db = (serve_all rs w).db in
      let v = backup_rounds calls db (empty_vault clouds) in
      find_if (λ x. x.id == c) db.collections ≡ some k
      → (k.database_id == d) ≡ true
      → pending_rows d (last_uploaded d v.states) db ≡ []
      → Returns
          (replay_all shown target (of_collection c (map operation_of (sent_rows d v.sent))) start)
          (λ r.
            (id : String)
            → SameRow (find_document target id r.documents) (find_document c id db.documents))
replay_all-sent_rows shown rs w calls clouds start target c d k ops rows e f found own drained =
    let db = (serve_all rs w).db in
    let v = backup_rounds calls db (empty_vault clouds) in
    let whole : sent_rows d v.sent ≡ rows_of d db =
      sym (append-nil (sent_rows d v.sent))
      ∙ ap (λ p. sent_rows d v.sent ++ p) (sym drained)
      ∙ backup_rounds-whole calls clouds db d (serve_all-IsAscending rs w ops) in
    let log : of_collection c (map operation_of (sent_rows d v.sent))
        ≡ of_collection c db.operations =
      ap (λ r. of_collection c (map operation_of r)) whole
      ∙ of_collection-join_rows d c k db.collections db.operations found own in
    subst
      (λ l. Returns (replay_all shown target l start) (λ r.
        (id : String)
        → SameRow (find_document target id r.documents) (find_document c id db.documents)))
      (sym log) (replay_all-serve_all shown rs w start target c ops rows e f)
