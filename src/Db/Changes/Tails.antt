-- ===== src/Db/Changes/Tails.antt =====
-- How the handlers of one document end: with the change of a row that was found.
use mathlib.Core.Path.{subst, sym, ◌∙◌}
use lcloud.Base.{ℕ, String, ◌≡◌, refl, Option, some}
use lcloud.Json.{Fields, end}
use lcloud.Db.Rows.{JsonDocument, Db}
use lcloud.Db.Store.{find_document}
use lcloud.Db.Writes.{data_payload, patched, deleted, put_row}
use lcloud.Db.Session.{Handler, modify_db, ◌>>◌}
use lcloud.Db.Changes.{RowStep, patch, delete, find_document-IsAt, IsAtIfFound, Changes, Frame}
use lcloud.Db.Changes.Rules.{
  Frame-pure, Frame-guard, Frame-collection, Frame-collection_by_id, Frame-cache_get,
  Frame-cache_set, Frame-bind, Frame-modify_cache, Frame-rate, Frame-valid, Frame-access,
  Frame-validate_name, Frame-validate_doc_id, Frame-gets, Frame-or_fail,
}
use lcloud.Db.Changes.RowRules.{Changes-put_row}

pub ruleset frames = (
  Frame-pure, Frame-guard, Frame-collection, Frame-collection_by_id, Frame-cache_get,
  Frame-cache_set, Frame-bind, Frame-modify_cache, Frame-rate, Frame-valid, Frame-access,
  Frame-validate_name, Frame-validate_doc_id, Frame-gets, Frame-or_fail,
)

-- A patch and a delete of the row that was found.
Changes-found :
    {A : Type 0} {P : Db → Type 0} (now c : ℕ) (d : String) (old row : JsonDocument) (op : String)
    (payload : Fields) (uid : Option String) (k : Handler A)
    → RowStep now c d (some old) row op payload uid
    → row.collection_id ≡ old.collection_id
    → row.doc_id ≡ old.doc_id
    → Frame k
    → Changes
        (λ db. P db × (find_document c d db.documents ≡ some old))
        (modify_db (put_row now row op payload uid) >> k)
Changes-found now c d old row op payload uid k st p q fr =
    Changes-put_row now c d row op payload uid k
      (λ db h. (
        subst (λ o. RowStep now c d o row op payload uid) (sym h.1) st,
        (let at = subst (IsAtIfFound c d) h.1 (find_document-IsAt c d db.documents) in
            (p ∙ at.0, q ∙ at.1)),
      ))
      fr

pub patched-Changes :
    {A : Type 0} {P : Db → Type 0} (now c : ℕ) (d : String) (old : JsonDocument) (contents : Fields)
    (uid : Option String) (k : Handler A)
    → Frame k
    → Changes
        (λ db. P db × (find_document c d db.documents ≡ some old))
        (modify_db (put_row now (patched now contents old) "patch" (data_payload contents) uid)
          >> k)
unfolding patched
patched-Changes now c d old contents uid k =
    Changes-found now c d old _ "patch" (data_payload contents) uid k (patch old contents uid) refl
      refl

pub deleted-Changes :
    {A : Type 0} {P : Db → Type 0} (now c : ℕ) (d : String) (old : JsonDocument)
    (uid : Option String) (k : Handler A)
    → Frame k
    → Changes
        (λ db. P db × (find_document c d db.documents ≡ some old))
        (modify_db (put_row now (deleted now old) "delete" end uid) >> k)
unfolding deleted
deleted-Changes now c d old uid k =
    Changes-found now c d old _ "delete" end uid k (delete old uid) refl refl
