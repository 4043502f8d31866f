-- ===== src/Db/Changes/Owner.antt =====
-- The changes of the owner's handlers of lcloud/api/json_db.py on one document.
use lcloud.Base.{String, refl, Option, none}
use lcloud.Json.{Fields}
use lcloud.Db.Store.{find_document}
use lcloud.Db.Writes.{set_op}
use lcloud.Db.Session.{Env}
use lcloud.Db.Owner.{Target, create_document, set_document, patch_document, delete_document}
use lcloud.Db.Changes.{Changes, Always}
use lcloud.Db.Changes.Tails.{frames, patched-Changes, deleted-Changes}
use lcloud.Db.Changes.Rules.{
  Frame-guard, Frame-collection, Frame-validate_name, Frame-validate_doc_id, Changes-bind,
  Changes-gets,
}
use lcloud.Db.Changes.RowRules.{Changes-document, Changes-upsert, create-RowStep, set-RowStep}

pub create_document-Changes :
    (env : Env) (t : Target) (id : Option String) (contents : Fields)
    → Changes Always (create_document env t id contents)
unfolding create_document
create_document-Changes env t id contents = Changes-bind _ _ (Frame-validate_name _) λ _.
    Changes-bind _ _ (Frame-validate_doc_id _) λ _.
      Changes-bind _ _ (Frame-collection _ _ _ _) λ coll.
        Changes-gets _ (λ db. find_document coll.id _ db.documents) _ (λ w. refl)
          λ o. Changes-bind _ _ (Frame-guard _ _) λ _.
            Changes-upsert env.now coll.id _ none contents o "create" (λ row. none) _ (λ db p. p.1)
              (create-RowStep env.now coll.id _ contents o) (λ row. search frames)

pub set_document-Changes :
    (env : Env) (t : Target) (doc_id : String) (contents : Fields)
    → Changes Always (set_document env t doc_id contents)
unfolding set_document
set_document-Changes env t doc_id contents = Changes-bind _ _ (Frame-validate_name _) λ _.
    Changes-bind _ _ (Frame-validate_doc_id _) λ _.
      Changes-bind _ _ (Frame-collection _ _ _ _) λ coll.
        Changes-gets _ (λ db. find_document coll.id doc_id db.documents) _ (λ w. refl)
          λ o.
            Changes-upsert env.now coll.id doc_id none contents o (set_op o) (λ row. none) _
              (λ db p. p.1) (set-RowStep env.now coll.id doc_id contents o) (λ row. search frames)

pub patch_document-Changes :
    (env : Env) (t : Target) (doc_id : String) (contents : Fields)
    → Changes Always (patch_document env t doc_id contents)
unfolding patch_document
patch_document-Changes env t doc_id contents = Changes-bind _ _ (Frame-validate_name _) λ _.
    Changes-bind _ _ (Frame-validate_doc_id _) λ _.
      Changes-bind _ _ (Frame-collection _ _ _ _) λ coll.
        Changes-document coll.id doc_id _
          λ old. patched-Changes env.now coll.id doc_id old contents none _ (search frames)

pub delete_document-Changes :
    (env : Env) (t : Target) (doc_id : String) → Changes Always (delete_document env t doc_id)
unfolding delete_document
delete_document-Changes env t doc_id = Changes-bind _ _ (Frame-validate_name _) λ _.
    Changes-bind _ _ (Frame-validate_doc_id _) λ _.
      Changes-bind _ _ (Frame-collection _ _ _ _) λ coll.
        Changes-document coll.id doc_id _
          λ old. deleted-Changes env.now coll.id doc_id old none _ (search frames)
