-- ===== src/Db/Changes.antt =====
-- What the handlers of documents may do to the tables, one change of a row at a time, and the rules by
-- which a handler is shown to do no more.
pub mod Rules
pub mod RowRules
pub mod Tails
pub mod Owner
pub mod Public
pub mod PublicKey
pub mod Collections
pub mod Batch
pub mod History
use mathlib.Core.Path.{subst}
use lcloud.Base.{
  ℕ, String, ◌≡◌, ◌⊎◌, inl, inr, refl, Bool, true, false, ◌||◌, Option, none, some, List, [], ◌∷◌,
  arith, is_some, str_eq, eq_iff, if◌then◌else◌,
}
use lcloud.Json.{Fields, end}
use lcloud.Db.Rows.{JsonDocument, JsonCollection, Db}
use lcloud.Db.Store.{find_document, if_live, add_operation, touch_collection}
use lcloud.Db.Writes.{
  new_row, rewritten, patched, deleted, data_payload, upserted, set_op, log_row, put_row,
}
use lcloud.Db.Errors.{Reply, ok, raise, HttpError}
use lcloud.Db.Session.{World, Handler, pure, guard, gets, or_fail, ◌>>=◌}

-- The changes that the handlers make to a document's row, with what they log: the operation's name, its
-- payload and its owner.
pub data RowStep (now c : ℕ) (d : String)
    : Option JsonDocument → JsonDocument → String → Fields → Option String → Type 0 where
  write_new :
      (uid : Option String) (contents : Fields) (db : Db)
      → RowStep now c d none (new_row now c d uid contents db) "create" (data_payload contents) uid
  rewrite :
      (row : JsonDocument) (op : String) (contents : Fields) (uid : Option String)
      → (op ≡ "create") ⊎ (op ≡ "set")
      → (uid ≡ none) ⊎ (uid ≡ row.owner_uid)
      → RowStep now c d (some row) (rewritten now contents row) op (data_payload contents) uid
  patch :
      (row : JsonDocument) (contents : Fields) (uid : Option String)
      → RowStep now c d (some row) (patched now contents row) "patch" (data_payload contents) uid
  delete :
      (row : JsonDocument) (uid : Option String)
      → RowStep now c d (some row) (deleted now row) "delete" end uid

-- The row is that of the key (c, d).
abbrev pub IsAt : ℕ → String → JsonDocument → Type 0
IsAt c d row = (row.collection_id ≡ c) × (row.doc_id ≡ d)

abbrev pub IsAtIfFound : ℕ → String → Option JsonDocument → Type 0
IsAtIfFound c d none = Unit {0}
IsAtIfFound c d (some row) = IsAt c d row

pub find_document-IsAt :
    (c : ℕ) (d : String) (rows : List JsonDocument) → IsAtIfFound c d (find_document c d rows)
unfolding find_document
find_document-IsAt c d [] = tt
find_document-IsAt c d (row ∷ rows) =
    ground (arith, find_document-IsAt c d rows, eq_iff row.doc_id d)

-- The operations on a collection itself.
abbrev pub IsCollectionOp : String → Type 0
IsCollectionOp op = (op ≡ "rules") ⊎ (op ≡ "validator")

-- Any number of changes of documents, each with its operation, with the collections' own operations and
-- changes of the collections' rows between them.
pub data Change (s : Db) : Db → Type 0 where
  done : Change s s
  log :
      {t : Db} {now c : ℕ} {d : String} {row : JsonDocument} {op : String} {payload : Fields}
      {uid : Option String}
      → Change s t
      → RowStep now c d (find_document c d t.documents) row op payload uid
      → IsAt c d row
      → Change s (log_row now row op payload uid t)
  note :
      {t : Db} (c : ℕ) (op : String) (payload : Fields) (uid : Option String) (now : ℕ)
      → IsCollectionOp op
      → Change s t
      → Change s (add_operation c none op payload uid now t)
  touch :
      {t : Db} (cs : List JsonCollection) → Change s t → Change s (record t { collections = cs })

pub Change-trans : {s t u : Db} → Change s t → Change t u → Change s u
Change-trans p done = p
Change-trans p (log q st at) = log (Change-trans p q) st at
Change-trans p (note c op payload uid now n q) = note c op payload uid now n (Change-trans p q)
Change-trans p (touch cs q) = touch cs (Change-trans p q)

-- From tables that satisfy `P`, a handler makes changes only, whether it returns or raises.
pub record Changes {A : Type 0} (P : Db → Type 0) (m : Handler A) : Type 0 where
  pub at : (w : World) → P w.db → Change w.db (m w).1.db

-- A step leaves the tables alone.
pub record Frame {A : Type 0} (m : Handler A) : Type 0 where
  pub at : (w : World) → (m w).1.db ≡ w.db

abbrev pub Always : Db → Type 0
Always db = Unit {0}
