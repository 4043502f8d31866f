-- ===== src/Restore/Replay.antt =====
-- The replay of one collection's log, and when its rows are those of the database that wrote the log.
use lcloud.Base.{
  ℕ, String, ◌≡◌, ◌⊎◌, refl, inl, inr, Option, none, some, List, [], ◌∷◌, ◌++◌, arith, ◌==◌,
  is_some, keep_if,
}
use lcloud.Json.{Json, Fields, lookup}
use lcloud.Db.Rows.{JsonDocument, JsonOperation, Db}
use lcloud.Db.Writes.{new_row, rewritten, patched, deleted}
use lcloud.Db.Changes.{RowStep, write_new, rewrite, patch, delete, IsAt, IsAtIfFound}
use lcloud.Restore.{Outcome, ok, error, ◌>>=◌, replay_row, adopt, replay_operation}

-- The state of a document that its readers see: the row without its ids and times.
abbrev pub SameRow : Option JsonDocument → Option JsonDocument → Type 0
SameRow none none = Unit {0}
SameRow (some a) (some b) =
    (a.owner_uid ≡ b.owner_uid)
    × (a.data_json ≡ b.data_json)
    × (a.version ≡ b.version)
    × (is_some a.deleted_at ≡ is_some b.deleted_at)
SameRow _ _ = ⊥

-- A result was returned, and it satisfies `P`.
abbrev pub Returns : {A : Type 0} → Outcome A → (A → Type 0) → Type 0
Returns (ok a) P = P a
Returns (error e) P = ⊥

-- Operations, replayed in order into the collection `target`.
unfoldable pub replay_all : (Json → String) → ℕ → List JsonOperation → Db → Outcome Db
replay_all shown target [] db = ok db
replay_all shown target (o ∷ ops) db =
    replay_operation shown target o db >>= λ db'. replay_all shown target ops db'

bind_ok : (m : Outcome Db) → (m >>= λ db'. ok db') ≡ m
bind_ok (ok a) = refl
bind_ok (error e) = refl

bind_assoc :
    (m : Outcome Db) (f g h : Db → Outcome Db)
    → ((a : Db) → f a ≡ (g a >>= h))
    → (m >>= f) ≡ ((m >>= g) >>= h)
bind_assoc (ok a) f g h e = e a
bind_assoc (error x) f g h e = refl

pub replay_all-append :
    (shown : Json → String) (target : ℕ) (ops : List JsonOperation) (o : JsonOperation) (db : Db)
    → replay_all shown target (ops ++ o ∷ []) db
      ≡ (replay_all shown target ops db >>= λ db'. replay_operation shown target o db')
unfolding replay_all
replay_all-append shown target [] o db = bind_ok (replay_operation shown target o db)
replay_all-append shown target (p ∷ ops) o db =
    bind_assoc (replay_operation shown target p db) _ _ _ (replay_all-append shown target ops o)

abbrev pub of_collection : ℕ → List JsonOperation → List JsonOperation
of_collection c = keep_if (λ o. o.collection_id == c)

adopt_same :
    {c : ℕ} {d : String} (now : ℕ) (contents : Fields) (uid : Option String) (row x : JsonDocument)
    → (uid ≡ none) ⊎ (uid ≡ row.owner_uid)
    → SameRow (some x) (some row)
    → IsAt c d x
    → SameRow (some (rewritten now contents (adopt uid x))) (some (rewritten now contents row))
      × IsAt c d (rewritten now contents (adopt uid x))
unfolding adopt rewritten
adopt_same now contents none row x e same at = ground arith
adopt_same now contents (some u) row x e same at = ground arith

-- Replaying what a change has logged, on a row that agrees with the old one, gives a row that agrees
-- with the new one.
pub replay_row-SameRow :
    {now c : ℕ} {d : String} {old : Option JsonDocument} {row : JsonDocument} {op : String}
    {payload : Fields} {uid : Option String} (target : ℕ) (found : Option JsonDocument) (db : Db)
    → RowStep now c d old row op payload uid
    → SameRow found old
    → IsAtIfFound target d found
    → Returns
        (replay_row now target d op payload uid found db)
        (λ row'. SameRow (some row') (some row) × IsAt target d row')
unfolding replay_row lookup new_row rewritten patched deleted
replay_row-SameRow target none db (write_new uid contents db') same at = ground arith
replay_row-SameRow target (some x) db (write_new uid contents db') same at = absurd same
replay_row-SameRow target none db (rewrite row op contents uid h e) same at = absurd same
replay_row-SameRow {now} target (some x) db (rewrite row op contents uid h e) same at = elim h [
  | inl create ↦ rw create (adopt_same now contents uid row x e same at)
  | inr set ↦ rw set (adopt_same now contents uid row x e same at)
]
replay_row-SameRow target none db (patch row contents uid) same at = absurd same
replay_row-SameRow target (some x) db (patch row contents uid) same at = ground arith
replay_row-SameRow target none db (delete row uid) same at = absurd same
replay_row-SameRow target (some x) db (delete row uid) same at = ground arith
