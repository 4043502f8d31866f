-- ===== src/Restore/Recorded.antt =====
-- What a replay has done so far: the rows that it has made, and the ids that it has recorded.
use mathlib.Core.Path.{subst, sym}
use lcloud.Base.{ℕ, ◌≤◌, ◌<◌, String, ◌≡◌, refl, none, List, [], ◌∷◌, ◌++◌, arith, max_of, max}
use lcloud.Db.Rows.{JsonDocument, JsonOperation, Db}
use lcloud.Db.Store.{find_document, next_operation_id}
use lcloud.Restore.{Outcome, ok, error, ◌>>=◌, find_operation, record_operation}
use lcloud.Restore.Replay.{SameRow, Returns, of_collection}

-- The rows of `target` agree with those of the collection `c`.
abbrev pub SameRows : ℕ → ℕ → List JsonDocument → Db → Type 0
SameRows target c rows r =
    (d : String) → SameRow (find_document target d r.documents) (find_document c d rows)

-- No id above those of the operations is taken.
abbrev pub Fresh : List JsonOperation → Db → Type 0
Fresh ops r = (n : ℕ) → next_operation_id ops ≤ n → find_operation n r.operations ≡ none

pub record Matches (target c : ℕ) (ops : List JsonOperation) (rows : List JsonDocument) (r : Db)
    : Type 0 where
  pub same : SameRows target c rows r
  pub fresh : Fresh ops r

find_operation-append :
    (n : ℕ) (ops : List JsonOperation) (o : JsonOperation)
    → find_operation n ops ≡ none
    → o.id < n
    → find_operation n (ops ++ o ∷ []) ≡ none
unfolding find_operation
find_operation-append n [] o h lt = ground arith
find_operation-append n (p ∷ ops) o h lt = ground (arith, find_operation-append n ops o)

max_of-append :
    (ops : List JsonOperation) (o : JsonOperation)
    → max_of (λ op. op.id) (ops ++ o ∷ []) ≡ max (max_of (λ op. op.id) ops) o.id
max_of-append [] o = ground arith
max_of-append (p ∷ ops) o = ground (arith, max_of-append ops o)

max_of-keep_if :
    (c : ℕ) (ops : List JsonOperation)
    → max_of (λ op. op.id) (of_collection c ops) ≤ max_of (λ op. op.id) ops
max_of-keep_if c [] = omega arith
max_of-keep_if c (p ∷ ops) = ground (arith, max_of-keep_if c ops)

pub next_operation_id-of_collection :
    (c : ℕ) (ops : List JsonOperation)
    → next_operation_id (of_collection c ops) ≤ next_operation_id ops
unfolding next_operation_id
next_operation_id-of_collection c ops = omega (arith, max_of-keep_if c ops)

above :
    (ops : List JsonOperation) (o : JsonOperation) (n : ℕ)
    → next_operation_id (ops ++ o ∷ []) ≤ n
    → (next_operation_id ops ≤ n) × (o.id < n)
unfolding next_operation_id
above ops o n h = ground (arith, max_of-append ops o)

recorded :
    (target : ℕ) (o : JsonOperation) (r : Db)
    → find_operation o.id r.operations ≡ none
    → record_operation target o r
      ≡ ok (record r { operations = r.operations ++ record o { collection_id = target } ∷ [] })
unfolding record_operation
recorded target o r h = rw (h, record_operation) refl

-- Recording an operation whose id is above those before it.
pub record_operation-Matches :
    (target c : ℕ) (ops : List JsonOperation) (rows : List JsonDocument) (o : JsonOperation)
    (m : Outcome Db)
    → next_operation_id ops ≤ o.id
    → Returns m (Matches target c ops rows)
    → Returns (m >>= record_operation target o) (Matches target c (ops ++ o ∷ []) rows)
record_operation-Matches target c ops rows o (error x) le h = absurd h
record_operation-Matches target c ops rows o (ok r) le h =
    subst (λ m. Returns m (Matches target c (ops ++ o ∷ []) rows))
      (sym (recorded target o r (h.fresh o.id le)))
      (record {
        same = h.same;
        fresh = λ n p.
            (let (q, lt) = above ops o n p in
              find_operation-append n r.operations (record o { collection_id = target })
                (h.fresh n q) lt);
      })
