-- ===== src/Backup/Cursor.antt =====
-- The rows that lcloud/userbot/db_backup.py still has to upload, as its cursor moves.

use lcloud.Base.{
  ℕ, ◌≤◌, ◌≡◌, refl, sym, ap, ◌∙◌, ◌&&◌, ◌||◌, List, [], ◌∷◌, ◌++◌, arith, ltb, ◌==◌, if◌then◌else◌,
  keep_if, take, drop, max,
}
use lcloud.Base.Ascending.{
  Above, last_key, sort_by-Above, Above-le, Above-keep_if, keep_if-last_key, keep_if-Above,
  last_key-le, Above-take,
}
use lcloud.Db.Rows.{JsonCollection, JsonOperation, Db}
use lcloud.Backup.{
  JsonBackupState, JsonBackupSegment, Row, row_id, Segment, last_uploaded, join_rows, pending_rows,
  last_row_id, move_cursor, is_recorded,
}

-- The operations have ascending ids above 0, as the flushes number them.
abbrev pub IsAscending : Db → Type 0
IsAscending db = Above (λ (o : JsonOperation). o.id) 0 db.operations

-- All rows of a database, uploaded or not.
abbrev pub rows_of : ℕ → Db → List Row
rows_of d db = join_rows d db.collections db.operations

Above-join_rows :
    (d m : ℕ) (cs : List JsonCollection) (ops : List JsonOperation)
    → Above (λ (o : JsonOperation). o.id) m ops
    → Above row_id m (join_rows d cs ops)
unfolding join_rows
Above-join_rows d m cs [] h = tt
Above-join_rows d m cs (o ∷ ops) h = ground (
  arith,
  Above-join_rows d o.id cs ops h.1,
  Above-le row_id m o.id (join_rows d cs ops) (omega (arith, h.0))
      (Above-join_rows d o.id cs ops h.1),
)

-- The query's order is that of the log.
pub pending_rows-keep_if :
    (d last : ℕ) (db : Db)
    → IsAscending db
    → pending_rows d last db ≡ keep_if (λ r. ltb last (row_id r)) (rows_of d db)
unfolding pending_rows
pending_rows-keep_if d last db h =
    rw (sort_by-Above row_id 0 (rows_of d db) (Above-join_rows d 0 db.collections db.operations h))
      refl

keep_later-twice :
    (k l : ℕ) (rows : List Row)
    → k ≤ l
    → keep_if (λ r. ltb l (row_id r)) (keep_if (λ r. ltb k (row_id r)) rows)
      ≡ keep_if (λ r. ltb l (row_id r)) rows
keep_later-twice k l [] h = refl
keep_later-twice k l (r ∷ rows) h = ground (arith, keep_later-twice k l rows h)

keep_later-Above :
    (k m : ℕ) (rows : List Row)
    → Above row_id m rows
    → Above row_id k (keep_if (λ r. ltb k (row_id r)) rows)
keep_later-Above k m [] h = tt
keep_later-Above k m (r ∷ rows) h = ground (
  arith,
  keep_later-Above k (row_id r) rows h.1,
  Above-keep_if row_id (λ s. ltb k (row_id s)) (row_id r) rows h.1,
)

pub pending_rows-Above :
    (d last : ℕ) (db : Db) → IsAscending db → Above row_id last (pending_rows d last db)
pending_rows-Above d last db h =
    rw (pending_rows-keep_if d last db h)
      (keep_later-Above last 0 (rows_of d db) (Above-join_rows d 0 db.collections db.operations h))

-- When the cursor moves to the last of the first `n` rows, those after them are left.
pub pending_rows-drop :
    (d last n : ℕ) (db : Db)
    → IsAscending db
    → pending_rows d (last_key row_id last (take n (pending_rows d last db))) db
      ≡ drop n (pending_rows d last db)
pending_rows-drop d last n db h =
    let p = pending_rows d last db in
    let k = last_key row_id last (take n p) in
    let le : last ≤ k =
      last_key-le row_id last (take n p)
        (Above-take row_id n last p (pending_rows-Above d last db h)) in
    pending_rows-keep_if d k db h
    ∙ sym (keep_later-twice last k (rows_of d db) le)
    ∙ ap (λ (l : List Row). keep_if (λ r. ltb k (row_id r)) l)
        (sym (pending_rows-keep_if d last db h))
    ∙ keep_if-last_key row_id n last p (pending_rows-Above d last db h)

pub last_uploaded-move_cursor :
    (d : ℕ) (s : Segment) (now : ℕ) (states : List JsonBackupState)
    → last_uploaded d (move_cursor s now states) ≡ (
        if s.database_id == d
        then max (last_uploaded d states) s.last_operation_id
        else last_uploaded d states)
unfolding last_uploaded move_cursor
last_uploaded-move_cursor d s now [] = ground arith
last_uploaded-move_cursor d s now (state ∷ states) =
    ground (arith, last_uploaded-move_cursor d s now states)

pub is_recorded-append :
    (d f l : ℕ) (segments : List JsonBackupSegment) (row : JsonBackupSegment)
    → is_recorded d f l (segments ++ row ∷ []) ≡ (
        is_recorded d f l segments
        || (row.database_id == d && (row.first_operation_id == f && row.last_operation_id == l)))
unfolding is_recorded
is_recorded-append d f l [] row = ground arith
is_recorded-append d f l (s ∷ segments) row = ground (arith, is_recorded-append d f l segments row)

pub last_row_id-last_key :
    (last : ℕ) (r : Row) (rows : List Row) → last_row_id r rows ≡ last_key row_id last (r ∷ rows)
last_row_id-last_key last r [] = refl
last_row_id-last_key last r (s ∷ rows) = last_row_id-last_key (row_id r) s rows

-- From a cursor at 0, all rows are pending.
pub keep_all :
    (d : ℕ) (db : Db)
    → IsAscending db
    → keep_if (λ r. ltb 0 (row_id r)) (rows_of d db) ≡ rows_of d db
keep_all d db h =
    keep_if-Above row_id 0 0 (rows_of d db) (omega arith)
      (Above-join_rows d 0 db.collections db.operations h)
