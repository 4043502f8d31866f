-- ===== src/Db/Changes/Collections.antt =====
-- The changes of the owner's handlers of lcloud/api/json_db.py on a collection, and its read of a document.
use mathlib.Core.Path.{subst, sym}
use lcloud.Base.{ℕ, String, inl, inr, refl, Option, none, some}
use lcloud.Json.{Fields}
use lcloud.Db.Rows.{JsonCollection}
use lcloud.Db.Session.{Env, Body, Handler, modify_db, pure, ◌>>=◌, ◌>>◌}
use lcloud.Db.Owner.{Target, get_document}
use lcloud.Db.Owner.Collections.{put_collection, set_collection_rules, set_collection_validator}
use lcloud.Db.Changes.{IsCollectionOp, Change, done, note, touch, Changes, Always, Frame}
use lcloud.Db.Changes.Tails.{frames}
use lcloud.Db.Changes.Rules.{
  Frame-pure, Frame-validate_name, Frame-validate_doc_id, Frame-collection, Frame-cache_get,
  Frame-bind, Frame-document, Changes-bind,
}

Changes-put_collection :
    {A : Type 0} (now id : ℕ) (f : JsonCollection → JsonCollection) (op : String) (payload : Fields)
    (k : Handler A)
    → IsCollectionOp op
    → Frame k
    → Changes Always (modify_db (put_collection now id f op payload) >> k)
unfolding ◌>>=◌ modify_db put_collection
Changes-put_collection now id f op payload k n fr = record {
  at = λ w p.
      subst (λ db. Change w.db db) (sym (fr.at _)) (note id op payload none now n (touch _ done));
}

pub set_collection_rules-Changes :
    (env : Env) (t : Target) (r w : String) → Changes Always (set_collection_rules env t r w)
unfolding set_collection_rules
set_collection_rules-Changes env t r w = Changes-bind _ _ (Frame-validate_name _) λ _.
    Changes-bind _ _ (Frame-collection _ _ _ _)
      λ row. Changes-put_collection env.now row.id _ "rules" _ _ (inl refl) (search frames)

pub set_collection_validator-Changes :
    (env : Env) (t : Target) (v : Option Fields) → Changes Always (set_collection_validator env t v)
unfolding set_collection_validator
set_collection_validator-Changes env t v = Changes-bind _ _ (Frame-validate_name _) λ _.
    Changes-bind _ _ (Frame-collection _ _ _ _)
      λ row. Changes-put_collection env.now row.id _ "validator" _ _ (inr refl) (search frames)

-- What follows a look in the cache: the body that was found, or the work that finds it.
Frame-either :
    (o : Option Body) (m : Handler Body)
    → Frame m
    → Frame (elim o as (λ x. Handler Body) [ none ↦ m | some body ↦ pure body ])
Frame-either none m fr = fr
Frame-either (some body) m fr = Frame-pure body

pub Frame-get_document :
    (env : Env) (t : Target) (doc_id : String) → Frame (get_document env t doc_id)
unfolding get_document
Frame-get_document env t doc_id = Frame-bind _ _ (Frame-validate_name _) λ _.
    Frame-bind _ _ (Frame-validate_doc_id _) λ _. Frame-bind _ _ (Frame-collection _ _ _ _) λ coll.
      Frame-bind _ _ (Frame-cache_get _ _)
        λ cached. Frame-either cached _ (search (frames, Frame-document))
