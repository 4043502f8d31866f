-- ===== src/Db/Store/Laws.antt =====
-- What is found after a row is saved.
use lcloud.Base.{
  ℕ, String, ◌≡◌, refl, ◌&&◌, some, List, [], ◌∷◌, arith, ◌==◌, if◌then◌else◌, str_eq, eq_iff,
}
use lcloud.Db.Rows.{JsonDocument}
use lcloud.Db.Store.{find_document, save_document}

pub find-save :
    (c : ℕ) (d : String) (row : JsonDocument) (rows : List JsonDocument)
    → find_document c d (save_document row rows)
      ≡ (if row.collection_id == c && str_eq row.doc_id d then some row else find_document c d rows)
unfolding find_document save_document
find-save c d row [] = refl
find-save c d row (r ∷ rows) = ground (
  arith,
  find-save c d row rows,
  eq_iff r.doc_id d,
  eq_iff row.doc_id d,
  eq_iff r.doc_id row.doc_id,
)
