-- ===== src/Db/Changes/History.antt =====
-- What the changes of the handlers of lcloud/api/json_db.py leave of the past.
use mathlib.Core.Path.{subst}
use mathlib.Core.List.{append_assoc, append-nil}
use lcloud.Base.{
  ℕ, ◌≤◌, String, ◌≡◌, refl, sym, Bool, true, false, Option, none, some, List, [], ◌∷◌, ◌++◌, arith,
  ◌==◌, ◌&&◌, str_eq, eq_iff, if◌then◌else◌,
}
use lcloud.Json.{Fields}
use lcloud.Db.Rows.{JsonDocument, JsonOperation, Db}
use lcloud.Db.Store.{find_document, add_operation}
use lcloud.Db.Store.Laws.{find-save}
use lcloud.Db.Writes.{rewritten, patched, deleted, log_row}
use lcloud.Db.Changes.{
  RowStep, write_new, rewrite, patch, delete, IsAt, Change, done, log, note, touch,
}

-- A row that was there is there, with the same owner and time of creation, and a version not lower.
abbrev pub Continues : Option JsonDocument → Option JsonDocument → Type 0
Continues none _ = Unit {0}
Continues (some old) none = ⊥
Continues (some old) (some row) =
    (row.owner_uid ≡ old.owner_uid)
    × (row.created_at ≡ old.created_at)
    × (old.version ≤ row.version)

Continues-refl : (o : Option JsonDocument) → Continues o o
Continues-refl none = tt
Continues-refl (some row) = (refl, refl, omega arith)

Continues-trans : (x y z : Option JsonDocument) → Continues x y → Continues y z → Continues x z
Continues-trans none y z p q = tt
Continues-trans (some a) none z p q = absurd p
Continues-trans (some a) (some b) none p q = absurd q
Continues-trans (some a) (some b) (some c) p q = ground arith

RowStep-Continues :
    {now c : ℕ} {d : String} {o : Option JsonDocument} {row : JsonDocument} {op : String}
    {payload : Fields} {uid : Option String}
    → RowStep now c d o row op payload uid
    → Continues o (some row)
unfolding rewritten patched deleted
RowStep-Continues (write_new uid contents db) = tt
RowStep-Continues (rewrite row op contents uid h e) = (refl, refl, omega arith)
RowStep-Continues (patch row contents uid) = (refl, refl, omega arith)
RowStep-Continues (delete row uid) = (refl, refl, omega arith)

Continues-if :
    (b : Bool) (x y z : Option JsonDocument)
    → (b ≡ true → Continues x y)
    → Continues x z
    → Continues x (if b then y else z)
Continues-if true x y z p q = p refl
Continues-if false x y z p q = q

same_key :
    (c k : ℕ) (d e : String) (row : JsonDocument)
    → (row.collection_id == c && str_eq row.doc_id d) ≡ true
    → IsAt k e row
    → ◌≡◌ {A = ℕ × String} (k, e) (c, d)
same_key c k d e row h at = ground (arith, eq_iff row.doc_id d)

saved-Continues :
    (c k : ℕ) (d e : String) (row : JsonDocument) (rows : List JsonDocument)
    → Continues (find_document k e rows) (some row)
    → IsAt k e row
    → Continues
        (find_document c d rows)
        (if row.collection_id == c && str_eq row.doc_id d then some row else find_document c d rows)
saved-Continues c k d e row rows p at =
    Continues-if _ (find_document c d rows) (some row) _
      (λ same.
        subst (λ (key : ℕ × String). Continues (find_document key.0 key.1 rows) (some row))
          (same_key c k d e row same at) p)
      (Continues-refl _)

pub Change-Continues :
    {s t : Db} (c : ℕ) (d : String)
    → Change s t
    → Continues (find_document c d s.documents) (find_document c d t.documents)
unfolding log_row add_operation
Change-Continues c d done = Continues-refl _
Change-Continues c d (log {t} {row = row} p st at) =
    Continues-trans _ _ _ (Change-Continues c d p)
      (rw find-save (saved-Continues c _ d _ row t.documents (RowStep-Continues st) at))
Change-Continues c d (note k op payload uid now n p) = Change-Continues c d p
Change-Continues c d (touch cs p) = Change-Continues c d p

grown :
    (xs ys zs : List JsonOperation) (o : JsonOperation)
    → ys ≡ xs ++ zs
    → ys ++ o ∷ [] ≡ xs ++ (zs ++ o ∷ [])
grown xs ys zs o e = rw e (append_assoc xs zs (o ∷ []))

pub Change-operations :
    {s t : Db} → Change s t → (ops : List JsonOperation) × (t.operations ≡ s.operations ++ ops)
unfolding log_row add_operation
Change-operations done = ([], sym (append-nil _))
Change-operations {s} (log {t} p st at) =
    let (ops, e) = Change-operations p in (ops ++ _ ∷ [], grown s.operations t.operations ops _ e)
Change-operations {s} (note {t} k op payload uid now n p) =
    let (ops, e) = Change-operations p in (ops ++ _ ∷ [], grown s.operations t.operations ops _ e)
Change-operations (touch cs p) = Change-operations p
