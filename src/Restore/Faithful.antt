-- ===== src/Restore/Faithful.antt =====
-- One more operation in the log of a collection, for the replay of lcloud/userbot/db_restore.py.
use mathlib.Core.Path.{subst, subst₂}
use lcloud.Base.{
  ℕ, ◌≤◌, ◌∙◌, String, ◌≡◌, refl, sym, Bool, true, false, Option, List, [], ◌∷◌, ◌++◌, arith, ◌==◌,
  if◌then◌else◌, keep_if, Bool-cases, inl, inr,
}
use lcloud.Json.{Json, Fields}
use lcloud.Db.Rows.{JsonDocument, JsonOperation, Db}
use lcloud.Db.Store.{find_document, add_operation, next_operation_id}
use lcloud.Db.Store.Laws.{find-save}
use lcloud.Db.Writes.{log_row}
use lcloud.Db.Changes.{RowStep, IsAt}
use lcloud.Restore.{Outcome, ok, error, ◌>>=◌, replay_effect, record_operation, replay_operation}
use lcloud.Restore.Replay.{Returns, replay_all, replay_all-append, of_collection}
use lcloud.Restore.Recorded.{Matches, record_operation-Matches, next_operation_id-of_collection}
use lcloud.Restore.Effects.{effect-Matches}

-- Replaying the operations of the collection `c` into a collection `target` that has no documents in
-- `start` succeeds, and gives it rows that agree with the rows of `c`.
abbrev pub ReplaysTo :
    (Json → String) → Db → ℕ → ℕ → List JsonOperation → List JsonDocument → Type 0
ReplaysTo shown start target c ops rows =
    Returns (replay_all shown target (of_collection c ops) start)
      (Matches target c (of_collection c ops) rows)

pub keep_if-append {ℓ} :
    {A : Type ℓ} (p : A → Bool) (xs : List A) (x : A)
    → keep_if p (xs ++ x ∷ []) ≡ (if p x then keep_if p xs ++ x ∷ [] else keep_if p xs)
keep_if-append p [] x = refl
keep_if-append p (y ∷ xs) x = ground (arith, keep_if-append p xs x)

pub Returns-map :
    {A : Type 0} {P Q : A → Type 0} (m : Outcome A)
    → Returns m P
    → ((a : A) → P a → Q a)
    → Returns m Q
Returns-map (ok a) h f = f a h
Returns-map (error e) h f = h

same_key : (a b : ℕ) → (a == b) ≡ true → a ≡ b
same_key a b h = ground arith

replay_operation_bind :
    (shown : Json → String) (target : ℕ) (o : JsonOperation) (m : Outcome Db)
    → (m >>= λ r. replay_operation shown target o r)
      ≡ ((m >>= replay_effect shown target o) >>= record_operation target o)
unfolding replay_operation
replay_operation_bind shown target o (ok r) = refl
replay_operation_bind shown target o (error e) = refl

-- One more operation of the collection itself, whose effect is known.
pub next-Matches :
    (shown : Json → String) (start : Db) (target c : ℕ) (ops : List JsonOperation)
    (rows : List JsonDocument) (o : JsonOperation)
    → next_operation_id ops ≤ o.id
    → (o.collection_id == c) ≡ true
    → Returns
        (replay_all shown target (of_collection c ops) start >>= replay_effect shown target o)
        (Matches target c (of_collection c ops) rows)
    → ReplaysTo shown start target c (ops ++ o ∷ []) rows
next-Matches shown start target c ops rows o le own h =
    subst (λ l. Returns (replay_all shown target l start) (Matches target c l rows))
      (sym (keep_if-own c ops o own))
      (subst (λ m. Returns m (Matches target c (of_collection c ops ++ o ∷ []) rows))
        (sym (
          replay_all-append shown target (of_collection c ops) o start
          ∙ replay_operation_bind shown target o
              (replay_all shown target (of_collection c ops) start)))
        (record_operation-Matches target c (of_collection c ops) rows o _
          (omega (arith, le, next_operation_id-of_collection c ops)) h))
  where
    keep_if-own :
        (c : ℕ) (ops : List JsonOperation) (o : JsonOperation)
        → (o.collection_id == c) ≡ true
        → of_collection c (ops ++ o ∷ []) ≡ of_collection c ops ++ o ∷ []
    keep_if-own c ops o own = rw (keep_if-append, own) refl

-- One more operation of another collection.
pub other-Matches :
    (shown : Json → String) (start : Db) (target c : ℕ) (ops : List JsonOperation)
    (rows rows' : List JsonDocument) (o : JsonOperation)
    → (o.collection_id == c) ≡ false
    → ((d : String) → find_document c d rows' ≡ find_document c d rows)
    → ReplaysTo shown start target c ops rows
    → ReplaysTo shown start target c (ops ++ o ∷ []) rows'
other-Matches shown start target c ops rows rows' o other e h =
    subst (λ l. Returns (replay_all shown target l start) (Matches target c l rows'))
      (sym (keep_if-other c ops o other))
      (Returns-map (replay_all shown target (of_collection c ops) start) h
        (λ r m. record { same = λ d. rw (e d) (m.same d); fresh = m.fresh }))
  where
    keep_if-other :
        (c : ℕ) (ops : List JsonOperation) (o : JsonOperation)
        → (o.collection_id == c) ≡ false
        → of_collection c (ops ++ o ∷ []) ≡ of_collection c ops
    keep_if-other c ops o other = rw (keep_if-append, other) refl

-- The change of a row in its own collection, or in another.
log_row-ReplaysTo_at :
    (now : ℕ) (row : JsonDocument) (op : String) (payload : Fields) (uid : Option String)
    (shown : Json → String) (start : Db) (target c : ℕ) (db : Db)
    → RowStep now row.collection_id row.doc_id
        (find_document row.collection_id row.doc_id db.documents)
        row
        op
        payload
        uid
    → ReplaysTo shown start target c db.operations db.documents
    → let db' = log_row now row op payload uid db in
      ReplaysTo shown start target c db'.operations db'.documents
unfolding log_row add_operation
log_row-ReplaysTo_at now row op payload uid shown start target c db st h =
    elim (Bool-cases (row.collection_id == c)) [
      | inl own ↦
          (let e : row.collection_id ≡ c = same_key row.collection_id c own in
            next-Matches shown start target c db.operations _ _ (omega arith) own (
              effect-Matches shown target now c row.collection_id (next_operation_id db.operations)
                row.doc_id row op payload uid (of_collection c db.operations) db.documents
                (replay_all shown target (of_collection c db.operations) start)
                (subst
                  (λ k.
                    RowStep now k row.doc_id (find_document k row.doc_id db.documents) row op
                      payload uid)
                  e st)
                (e, refl) h))
      | inr other ↦
          other-Matches shown start target c db.operations db.documents _ _ other
            (λ d. rw (find-save, other) refl) h
    ]

-- A change of a document of any collection, with its operation, keeps the log of `c` faithful.
pub log_row-ReplaysTo :
    {now k : ℕ} {d : String} {row : JsonDocument} {op : String} {payload : Fields}
    {uid : Option String} (shown : Json → String) (start : Db) (target c : ℕ) (db : Db)
    → RowStep now k d (find_document k d db.documents) row op payload uid
    → IsAt k d row
    → ReplaysTo shown start target c db.operations db.documents
    → let db' = log_row now row op payload uid db in
      ReplaysTo shown start target c db'.operations db'.documents
log_row-ReplaysTo {now} {k} {d} {row} {op} {payload} {uid} shown start target c db st at h =
    log_row-ReplaysTo_at now row op payload uid shown start target c db
      (subst₂ (λ k d. RowStep now k d (find_document k d db.documents) row op payload uid)
        (sym at.0) (sym at.1) st)
      h
