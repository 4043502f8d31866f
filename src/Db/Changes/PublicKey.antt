-- ===== src/Db/Changes/PublicKey.antt =====
-- The changes of the handlers of lcloud/api/json_db.py by a publishable key.
use lcloud.Base.{String, refl, Option, none, some}
use lcloud.Json.{Fields}
use lcloud.Db.Access.{Caller, app_uid}
use lcloud.Db.Store.{find_document}
use lcloud.Db.Writes.{set_op}
use lcloud.Db.Session.{Env, Body, document, page, key_database}
use lcloud.Db.PublicKey.{
  resolve_key, get_collection_by_public_key_or_404, public_key_create_document,
  public_key_set_document, public_key_patch_document, public_key_delete_document,
}
use lcloud.Db.Changes.{Changes, Always, Frame}
use lcloud.Db.Changes.Tails.{frames, patched-Changes, deleted-Changes}
use lcloud.Db.Changes.Rules.{
  Frame-guard, Frame-rate, Frame-access, Frame-valid, Frame-validate_name, Frame-validate_doc_id,
  Changes-bind, Changes-gets,
}
use lcloud.Db.Changes.RowRules.{
  Changes-document, Changes-upsert, create-RowStep_owner, set-RowStep_owner,
}

Frame-resolve_key : (env : Env) (key : String) (o : Option Body) → Frame (resolve_key env key o)
unfolding resolve_key
Frame-resolve_key env key (some (key_database id)) = search frames
Frame-resolve_key env key none = search frames
Frame-resolve_key env key (some (document body)) = search frames
Frame-resolve_key env key (some (page items total limit offset)) = search frames

pub Frame-by_public_key :
    (env : Env) (key name : String) → Frame (get_collection_by_public_key_or_404 env key name)
unfolding get_collection_by_public_key_or_404
Frame-by_public_key env key name = search (frames, Frame-resolve_key)

pub public_key_create-Changes :
    (env : Env) (key name : String) (caller : Caller) (doc_id : Option String) (contents : Fields)
    → Changes Always (public_key_create_document env key name caller doc_id contents)
unfolding public_key_create_document
public_key_create-Changes env key name caller doc_id contents =
    Changes-bind _ _ (Frame-rate _ _) λ _. Changes-bind _ _ (Frame-validate_name _) λ _.
      Changes-bind _ _ (Frame-validate_doc_id _) λ _.
        Changes-bind _ _ (Frame-by_public_key _ _ _) λ coll.
          Changes-bind _ _ (Frame-access _ _ _ _) λ _. Changes-bind _ _ (Frame-valid _ _) λ _.
            Changes-gets _ (λ db. find_document coll.id _ db.documents) _ (λ w. refl)
              λ o. Changes-bind _ _ (Frame-guard _ _) λ _.
                Changes-bind _ _ (Frame-access _ _ _ _) λ _.
                  Changes-upsert env.now coll.id _ (app_uid caller) contents o "create"
                    (λ row. row.owner_uid) _ (λ db p. p.1)
                    (create-RowStep_owner env.now coll.id _ (app_uid caller) contents o)
                    (λ row. search frames)

pub public_key_set-Changes :
    (env : Env) (key name : String) (caller : Caller) (doc_id : String) (contents : Fields)
    → Changes Always (public_key_set_document env key name caller doc_id contents)
unfolding public_key_set_document
public_key_set-Changes env key name caller doc_id contents = Changes-bind _ _ (Frame-rate _ _) λ _.
    Changes-bind _ _ (Frame-validate_name _) λ _. Changes-bind _ _ (Frame-validate_doc_id _) λ _.
      Changes-bind _ _ (Frame-by_public_key _ _ _) λ coll.
        Changes-bind _ _ (Frame-access _ _ _ _) λ _. Changes-bind _ _ (Frame-valid _ _) λ _.
          Changes-gets _ (λ db. find_document coll.id doc_id db.documents) _ (λ w. refl)
            λ o. Changes-bind _ _ (Frame-access _ _ _ _) λ _.
              Changes-upsert env.now coll.id doc_id (app_uid caller) contents o (set_op o)
                (λ row. row.owner_uid) _ (λ db p. p.1)
                (set-RowStep_owner env.now coll.id doc_id (app_uid caller) contents o)
                (λ row. search frames)

pub public_key_patch-Changes :
    (env : Env) (key name : String) (caller : Caller) (doc_id : String) (contents : Fields)
    → Changes Always (public_key_patch_document env key name caller doc_id contents)
unfolding public_key_patch_document
public_key_patch-Changes env key name caller doc_id contents =
    Changes-bind _ _ (Frame-rate _ _) λ _. Changes-bind _ _ (Frame-validate_name _) λ _.
      Changes-bind _ _ (Frame-validate_doc_id _) λ _.
        Changes-bind _ _ (Frame-by_public_key _ _ _) λ coll.
          Changes-bind _ _ (Frame-access _ _ _ _) λ _. Changes-document coll.id doc_id _ λ old.
            Changes-bind _ _ (Frame-access _ _ _ _) λ _.
              Changes-bind _ _ (Frame-valid _ _)
                λ _. patched-Changes env.now coll.id doc_id old contents _ _ (search frames)

pub public_key_delete-Changes :
    (env : Env) (key name : String) (caller : Caller) (doc_id : String)
    → Changes Always (public_key_delete_document env key name caller doc_id)
unfolding public_key_delete_document
public_key_delete-Changes env key name caller doc_id = Changes-bind _ _ (Frame-rate _ _) λ _.
    Changes-bind _ _ (Frame-validate_name _) λ _. Changes-bind _ _ (Frame-validate_doc_id _) λ _.
      Changes-bind _ _ (Frame-by_public_key _ _ _) λ coll.
        Changes-bind _ _ (Frame-access _ _ _ _) λ _. Changes-document coll.id doc_id _ λ old.
          Changes-bind _ _ (Frame-access _ _ _ _)
            λ _. deleted-Changes env.now coll.id doc_id old _ _ (search frames)
