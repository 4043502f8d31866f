-- ===== src/Db/Changes/Public.antt =====
-- The changes of the public handlers of lcloud/api/json_db.py, by the collection's id.
use lcloud.Base.{ℕ, String, refl, Option, none}
use lcloud.Json.{Fields}
use lcloud.Db.Store.{find_document}
use lcloud.Db.Writes.{set_op}
use lcloud.Db.Session.{Env}
use lcloud.Db.Public.{
  public_create_document, public_set_document, public_patch_document, public_delete_document,
}
use lcloud.Db.Changes.{Changes, Always}
use lcloud.Db.Changes.Tails.{frames, patched-Changes, deleted-Changes}
use lcloud.Db.Changes.Rules.{
  Frame-guard, Frame-collection_by_id, Frame-rate, Frame-access, Frame-valid, Frame-validate_doc_id,
  Changes-bind, Changes-gets,
}
use lcloud.Db.Changes.RowRules.{Changes-document, Changes-upsert, create-RowStep, set-RowStep}

pub public_create-Changes :
    (env : Env) (id : ℕ) (user : Option ℕ) (doc_id : Option String) (contents : Fields)
    → Changes Always (public_create_document env id user doc_id contents)
unfolding public_create_document
public_create-Changes env id user doc_id contents = Changes-bind _ _ (Frame-rate _ _) λ _.
    Changes-bind _ _ (Frame-validate_doc_id _) λ _.
      Changes-bind _ _ (Frame-collection_by_id _) λ coll.
        Changes-bind _ _ (Frame-access _ _ _ _) λ _. Changes-bind _ _ (Frame-valid _ _) λ _.
          Changes-gets _ (λ db. find_document coll.id _ db.documents) _ (λ w. refl)
            λ o. Changes-bind _ _ (Frame-guard _ _) λ _.
              Changes-upsert env.now coll.id _ none contents o "create" (λ row. none) _
                (λ db p. p.1) (create-RowStep env.now coll.id _ contents o) (λ row. search frames)

pub public_set-Changes :
    (env : Env) (id : ℕ) (user : Option ℕ) (doc_id : String) (contents : Fields)
    → Changes Always (public_set_document env id user doc_id contents)
unfolding public_set_document
public_set-Changes env id user doc_id contents = Changes-bind _ _ (Frame-rate _ _) λ _.
    Changes-bind _ _ (Frame-validate_doc_id _) λ _.
      Changes-bind _ _ (Frame-collection_by_id _) λ coll.
        Changes-bind _ _ (Frame-access _ _ _ _) λ _. Changes-bind _ _ (Frame-valid _ _) λ _.
          Changes-gets _ (λ db. find_document coll.id doc_id db.documents) _ (λ w. refl)
            λ o.
              Changes-upsert env.now coll.id doc_id none contents o (set_op o) (λ row. none) _
                (λ db p. p.1) (set-RowStep env.now coll.id doc_id contents o) (λ row. search frames)

pub public_patch-Changes :
    (env : Env) (id : ℕ) (user : Option ℕ) (doc_id : String) (contents : Fields)
    → Changes Always (public_patch_document env id user doc_id contents)
unfolding public_patch_document
public_patch-Changes env id user doc_id contents = Changes-bind _ _ (Frame-rate _ _) λ _.
    Changes-bind _ _ (Frame-validate_doc_id _) λ _.
      Changes-bind _ _ (Frame-collection_by_id _) λ coll.
        Changes-bind _ _ (Frame-access _ _ _ _) λ _. Changes-document coll.id doc_id _ λ old.
          Changes-bind _ _ (Frame-valid _ _)
            λ _. patched-Changes env.now coll.id doc_id old contents none _ (search frames)

pub public_delete-Changes :
    (env : Env) (id : ℕ) (user : Option ℕ) (doc_id : String)
    → Changes Always (public_delete_document env id user doc_id)
unfolding public_delete_document
public_delete-Changes env id user doc_id = Changes-bind _ _ (Frame-rate _ _) λ _.
    Changes-bind _ _ (Frame-validate_doc_id _) λ _.
      Changes-bind _ _ (Frame-collection_by_id _) λ coll.
        Changes-bind _ _ (Frame-access _ _ _ _) λ _.
          Changes-document coll.id doc_id _
            λ old. deleted-Changes env.now coll.id doc_id old none _ (search frames)
