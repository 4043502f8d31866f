-- ===== src/Backup/Drained.antt =====
-- What the turns of lcloud/userbot/db_backup.py for one database leave to upload.
use mathlib.Core.Path.{subst}
use lcloud.Base.{
  ℕ, zero, suc, ◌-◌, ◌*◌, ◌≤◌, ◌≡◌, refl, ap, ◌∙◌, Option, none, some, List, [], ◌∷◌, arith, ◌==◌,
  find_if, take, drop, length, inl, inr,
}
use lcloud.Db.Rows.{JsonDatabase, Db}
use lcloud.Backup.{
  Row, row_id, Segment, Sent, Vault, Chat, Built, raised, nothing, built, Send, Round, returned,
  failed, vault_of, last_uploaded, pending_rows, segment_of, telegram_chat, build_segment,
  upload_segment, backup_database, move_cursor, marked,
}
use lcloud.Base.Ascending.{last_key}
use lcloud.Backup.Cursor.{IsAscending, pending_rows-drop, last_uploaded-move_cursor}
use lcloud.Backup.Invariant.{IsBacked, IsNext, after_upload, upload_segment-cases}
use lcloud.Backup.Rounds.{Made, of_none, of_rows, build_segment-Made, backup_database-IsBacked}

-- The Telegram client takes every file.
abbrev pub Sends : Send → Type 0
Sends send = (s : Segment) (ms : List Sent) → send s ms ≡ none → ⊥

after_upload-pending :
    (n now id : ℕ) (db : Db) (v : Vault) (s : Segment)
    → IsAscending db
    → IsNext n db v s
    → let d = s.database_id in
      pending_rows d (last_uploaded d (after_upload s id now v).states) db
      ≡ drop n (pending_rows d (last_uploaded d v.states) db)
unfolding after_upload marked
after_upload-pending n now id db v s asc next =
    let d = s.database_id in
    let last = last_uploaded d v.states in
    ap (λ k. pending_rows d k db) (moved ∙ ap (last_key row_id last) next.operations)
    ∙ pending_rows-drop d last n db asc
  where
    moved :
        last_uploaded s.database_id (move_cursor s now v.states)
        ≡ last_key row_id (last_uploaded s.database_id v.states) s.operations
    moved =
        ground
          (arith, last_uploaded-move_cursor s.database_id s now v.states, next.last, next.above)

segment_of-raised :
    {A : Type 0} (x : JsonDatabase) (to : Chat) (rows : List Row)
    → segment_of x to rows ≡ raised
    → A
unfolding segment_of
segment_of-raised x to [] h = cc
segment_of-raised x to (r ∷ rows) h = cc

build_segment-raised :
    {A : Type 0} (n : ℕ) (db : Db) (v : Vault) (d : ℕ) (x : JsonDatabase)
    → find_if (λ e. e.id == d) db.databases ≡ some x
    → build_segment d n db v ≡ raised
    → A
unfolding build_segment
build_segment-raised n db v d x e h =
    segment_of-raised x (telegram_chat x v.clouds) _ (subst (λ o. step o ≡ raised) e h)
  where
    step : Option JsonDatabase → Built
    step o = elim o [
      | none ↦ raised
      | some database ↦
          segment_of database (telegram_chat database v.clouds)
            (take n (pending_rows d (last_uploaded d v.states) db))
    ]

take-nil : {A : Type 0} (n : ℕ) (l : List A) → take n l ≡ [] → l ≡ drop n l
take-nil zero l h = refl
take-nil (suc n) [] h = refl
take-nil (suc n) (x ∷ l) h = cc

-- A turn uploads the next rows, up to the limit, and leaves the others.
pub pending_rows-backup_database :
    (send : Send) (now n : ℕ) (db : Db) (d : ℕ) (v : Vault) (x : JsonDatabase)
    → IsAscending db
    → IsBacked db v
    → Sends send
    → find_if (λ e. e.id == d) db.databases ≡ some x
    → pending_rows d (last_uploaded d (vault_of (backup_database send now n db d v)).states) db
      ≡ drop n (pending_rows d (last_uploaded d v.states) db)
unfolding backup_database
pending_rows-backup_database send now n db d v x asc h sends found =
    after (build_segment d n db v) (build_segment-Made n db v d asc)
      (build_segment-raised n db v d x found)
  where
    uploaded :
        (s : Segment)
        → IsNext n db v s
        → pending_rows s.database_id
            (last_uploaded s.database_id (vault_of (upload_segment send now s v)).states)
            db
          ≡ drop n (pending_rows s.database_id (last_uploaded s.database_id v.states) db)
    uploaded s next = elim (upload_segment-cases send n now db v s h next) [
      | inl (lost, e) ↦ elim (sends s v.sent lost) [ ]
      | inr (id, e) ↦ rw e (after_upload-pending n now id db v s asc next)
    ]

    after :
        (b : Built)
        → Made n db v d b
        → (b ≡ raised → ⊥)
        → pending_rows d
            (last_uploaded d
              (vault_of (elim b as (λ _. Round) [
                | raised ↦ failed v
                | nothing ↦ returned 0 v
                | built s ↦ upload_segment send now s v
              ])).states)
            db
          ≡ drop n (pending_rows d (last_uploaded d v.states) db)
    after raised m no_raise = elim (no_raise refl) [ ]
    after nothing (of_none e) no_raise = take-nil n _ e
    after (built s) (of_rows s' next e) no_raise =
        subst
          (λ k.
            pending_rows k (last_uploaded k (vault_of (upload_segment send now s v)).states) db
            ≡ drop n (pending_rows k (last_uploaded k v.states) db))
          e (uploaded s next)

-- Turns for one database, one after the other, at the times given.
unfoldable pub backup_turns : Send → ℕ → Db → ℕ → List ℕ → Vault → Vault
backup_turns send n db d [] v = v
backup_turns send n db d (now ∷ times) v =
    backup_turns send n db d times (vault_of (backup_database send now n db d v))

length-drop : {A : Type 0} (n : ℕ) (l : List A) → length (drop n l) ≡ length l - n
length-drop zero l = omega arith
length-drop (suc n) [] = omega arith
length-drop (suc n) (x ∷ l) = omega (arith, length-drop n l)

none_left : {A : Type 0} (l : List A) → length l ≤ 0 → l ≡ []
none_left [] h = refl
none_left (x ∷ l) h = ground arith

-- On tables whose operations have ascending ids and that have the database's row, with a Telegram client that
-- takes every file, and from any state that earlier rounds left (nothing skipped, sent twice or out of
-- order, and no segment recorded above its cursor), as many turns for the database as its pending
-- operations need at a given limit leave nothing pending, at whatever times they come.
pub backup_turns-drained :
    (send : Send) (n : ℕ) (db : Db) (d : ℕ) (times : List ℕ) (v : Vault) (x : JsonDatabase)
    → IsAscending db
    → IsBacked db v
    → Sends send
    → find_if (λ e. e.id == d) db.databases ≡ some x
    → length (pending_rows d (last_uploaded d v.states) db) ≤ length times * n
    → pending_rows d (last_uploaded d (backup_turns send n db d times v).states) db ≡ []
unfolding backup_turns
backup_turns-drained send n db d [] v x asc h sends found le = none_left _ (omega (arith, le))
backup_turns-drained send n db d (now ∷ times) v x asc h sends found le =
    let v' = vault_of (backup_database send now n db d v) in
    let moved = pending_rows-backup_database send now n db d v x asc h sends found in
    backup_turns-drained send n db d times v' x asc
      (backup_database-IsBacked send now n db d v asc h) sends found
      (fits (length times) n
        (ap length moved ∙ length-drop n (pending_rows d (last_uploaded d v.states) db)) le)
  where
    fits : {a b : ℕ} (k m : ℕ) → a ≡ b - m → b ≤ suc k * m → a ≤ k * m
    fits k m e le = omega arith
