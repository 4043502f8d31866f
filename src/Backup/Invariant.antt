-- ===== src/Backup/Invariant.antt =====
-- What Telegram has, what lcloud/userbot/db_backup.py still has to upload, and the log, together.
use mathlib.Core.Path.{subst}
use mathlib.Core.List.{append_assoc, append-nil}
use lcloud.Base.{
  ℕ, ◌<◌, ◌≡◌, ◌⊎◌, refl, sym, ap, ◌∙◌, true, false, none, List, [], ◌∷◌, ◌++◌, arith, ◌==◌,
  if◌then◌else◌, take, drop, max, Bool-cases, Option-cases, inl, inr,
}
use lcloud.Base.Ascending.{last_key, take-drop}
use lcloud.Db.Rows.{Db}
use lcloud.Backup.{
  Row, row_id, Segment, Sent, Vault, Send, returned, failed, vault_of, last_uploaded, pending_rows,
  move_cursor, is_recorded, marked, JsonBackupSegment, mark_uploaded, upload_segment,
}
use lcloud.Backup.Cursor.{
  IsAscending, rows_of, pending_rows-drop, last_uploaded-move_cursor, is_recorded-append,
}

-- The rows that were sent for a database, in the order of the messages.
abbrev pub sent_rows : ℕ → List Sent → List Row
sent_rows d [] = []
sent_rows d (m ∷ ms) =
    let rest = sent_rows d ms in
    if m.segment.database_id == d then m.segment.operations ++ rest else rest

-- What was sent for a database, followed by what is pending, is the log of the database; and no
-- segment is recorded that ends above its cursor.
pub record IsBacked (db : Db) (v : Vault) : Type 0 where
  pub whole :
      (d : ℕ) → sent_rows d v.sent ++ pending_rows d (last_uploaded d v.states) db ≡ rows_of d db
  pub fresh : (d f l : ℕ) → last_uploaded d v.states < l → is_recorded d f l v.segments ≡ false

sent_rows-append :
    (d : ℕ) (ms : List Sent) (m : Sent)
    → sent_rows d (ms ++ m ∷ []) ≡ (
        if m.segment.database_id == d
        then sent_rows d ms ++ m.segment.operations
        else sent_rows d ms)
sent_rows-append d [] m = rw (append-nil m.segment.operations) refl
sent_rows-append d (n ∷ ms) m = ground (
  arith,
  sent_rows-append d ms m,
  append_assoc n.segment.operations (sent_rows d ms) m.segment.operations,
)

-- The segment is made of the next rows of its database.
pub record IsNext (n : ℕ) (db : Db) (v : Vault) (s : Segment) : Type 0 where
  pub operations :
      s.operations ≡ take n (pending_rows s.database_id (last_uploaded s.database_id v.states) db)
  pub last :
      s.last_operation_id ≡ last_key row_id (last_uploaded s.database_id v.states) s.operations
  pub above : last_uploaded s.database_id v.states < s.last_operation_id

same_id : (a b : ℕ) → (a == b) ≡ true → a ≡ b
same_id a b h = ground arith

-- The cursor moves past what was sent.
moved_whole :
    (n : ℕ) (db : Db) (v : Vault) (s : Segment)
    → IsAscending db
    → IsBacked db v
    → IsNext n db v s
    → (sent_rows s.database_id v.sent ++ s.operations)
        ++ pending_rows s.database_id
            (max (last_uploaded s.database_id v.states) s.last_operation_id)
            db
      ≡ rows_of s.database_id db
moved_whole n db v s asc h next =
    let d = s.database_id in
    let last = last_uploaded d v.states in
    let p = pending_rows d last db in
    let e : max last s.last_operation_id ≡ last_key row_id last (take n p) =
      max_above last s.last_operation_id next.above
      ∙ next.last
      ∙ ap (last_key row_id last) next.operations in
    ap (λ k. (sent_rows d v.sent ++ s.operations) ++ pending_rows d k db) e
    ∙ ap (λ (q : List Row). (sent_rows d v.sent ++ s.operations) ++ q)
        (pending_rows-drop d last n db asc)
    ∙ ap (λ (q : List Row). (sent_rows d v.sent ++ q) ++ drop n p) next.operations
    ∙ append_assoc (sent_rows d v.sent) (take n p) (drop n p)
    ∙ ap (λ (q : List Row). sent_rows d v.sent ++ q) (take-drop n p)
    ∙ h.whole d
  where
    max_above : (a b : ℕ) → a < b → max a b ≡ b
    max_above a b h = omega arith

marked_whole :
    (n now id : ℕ) (db : Db) (v : Vault) (s : Segment) (d : ℕ)
    → IsAscending db
    → IsBacked db v
    → IsNext n db v s
    → sent_rows d (v.sent ++ record { message_id = id; segment = s } ∷ [])
        ++ pending_rows d (last_uploaded d (move_cursor s now v.states)) db
      ≡ rows_of d db
marked_whole n now id db v s d asc h next = elim (Bool-cases (s.database_id == d)) [
  | inl own ↦
      subst
        (λ k.
          sent_rows k (v.sent ++ record { message_id = id; segment = s } ∷ [])
            ++ pending_rows k (last_uploaded k (move_cursor s now v.states)) db
          ≡ rows_of k db)
        (same_id s.database_id d own)
        (rw (sent_rows-append, last_uploaded-move_cursor, equal s.database_id)
          (moved_whole n db v s asc h next))
  | inr other ↦ rw (sent_rows-append, last_uploaded-move_cursor, other) (h.whole d)
]
  where
    equal : (k : ℕ) → (k == k) ≡ true
    equal k = ground arith

marked_fresh :
    (n now : ℕ) (db : Db) (v : Vault) (s : Segment) (row : JsonBackupSegment) (d f l : ℕ)
    → IsBacked db v
    → row.database_id ≡ s.database_id
    → row.last_operation_id ≡ s.last_operation_id
    → last_uploaded d (move_cursor s now v.states) < l
    → is_recorded d f l (v.segments ++ row ∷ []) ≡ false
marked_fresh n now db v s row d f l h e g lt =
    rw is_recorded-append
      (ground (arith, last_uploaded-move_cursor d s now v.states, h.fresh d f l))

unfoldable pub after_upload : Segment → ℕ → ℕ → Vault → Vault
unfolding marked
after_upload s id now v =
    marked s id now (record v { sent = v.sent ++ record { message_id = id; segment = s } ∷ [] })

after_upload-IsBacked :
    (n now id : ℕ) (db : Db) (v : Vault) (s : Segment)
    → IsAscending db
    → IsBacked db v
    → IsNext n db v s
    → IsBacked db (after_upload s id now v)
unfolding after_upload
after_upload-IsBacked n now id db v s asc h next = record {
  whole = λ d. marked_whole n now id db v s d asc h next;
  fresh = λ d f l lt. marked_fresh n now db v s _ d f l h refl refl lt;
}

-- A segment of next rows is uploaded and marked, or it is not sent.
pub upload_segment-cases :
    (send : Send) (n now : ℕ) (db : Db) (v : Vault) (s : Segment)
    → IsBacked db v
    → IsNext n db v s
    → ((send s v.sent ≡ none) × (upload_segment send now s v ≡ failed v))
      ⊎ ((id : ℕ) × (upload_segment send now s v ≡ returned 1 (after_upload s id now v)))
unfolding after_upload mark_uploaded upload_segment
upload_segment-cases send n now db v s h next = elim (Option-cases (send s v.sent)) [
  | inl e ↦ inl (e, rw (e, upload_segment) refl)
  | inr (id, e) ↦ inr (
    id,
    rw
        (
          e,
          upload_segment,
          h.fresh s.database_id s.first_operation_id s.last_operation_id next.above,
        )
        refl,
  )
]

pub upload_segment-IsBacked :
    (send : Send) (n now : ℕ) (db : Db) (v : Vault) (s : Segment)
    → IsAscending db
    → IsBacked db v
    → IsNext n db v s
    → IsBacked db (vault_of (upload_segment send now s v))
upload_segment-IsBacked send n now db v s asc h next =
    elim (upload_segment-cases send n now db v s h next) [
      | inl (lost, e) ↦ subst (λ r. IsBacked db (vault_of r)) (sym e) h
      | inr (id, e) ↦
          subst (λ r. IsBacked db (vault_of r)) (sym e)
            (after_upload-IsBacked n now id db v s asc h next)
    ]
