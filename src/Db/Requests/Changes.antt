-- ===== src/Db/Requests/Changes.antt =====
-- What a request does to the tables: changes of documents and of collections' rows, or the deletion of
-- a collection.
use mathlib.Core.Path.{subst, sym}
use lcloud.Base.{◌≡◌, ◌⊎◌, inl, inr, refl}
use lcloud.Db.Session.{World, Env, Handler}
use lcloud.Db.Owner.{Target}
use lcloud.Db.Changes.{Change, done, Changes, Always}
use lcloud.Db.Changes.Owner.{
  create_document-Changes, set_document-Changes, patch_document-Changes, delete_document-Changes,
}
use lcloud.Db.Changes.Batch.{batch_documents-Changes}
use lcloud.Db.Changes.Public.{
  public_create-Changes, public_set-Changes, public_patch-Changes, public_delete-Changes,
}
use lcloud.Db.Changes.PublicKey.{
  public_key_create-Changes, public_key_set-Changes, public_key_patch-Changes,
  public_key_delete-Changes,
}
use lcloud.Db.Changes.Collections.{
  set_collection_rules-Changes, set_collection_validator-Changes, Frame-get_document,
}
use lcloud.Db.Requests.{
  batch, Request, owner, by_id, by_key, create, set, patch, delete, get, set_rules, set_validator,
  drop_collection, serve, after,
}

-- The request deletes a collection.
abbrev pub Drops : Request → Type 0
Drops r = (t : Target) × (r ≡ drop_collection t)

changed :
    {A : Type 0} {m : Handler A} {r : Request} (w : World)
    → Changes Always m
    → Change w.db (after m w).db ⊎ Drops r
changed w p = inl (p.at w tt)

pub serve-Change : (env : Env) (r : Request) (w : World) → Change w.db (serve env r w).db ⊎ Drops r
unfolding serve
serve-Change env (create (owner t) id d) w = changed w (create_document-Changes env t id d)
serve-Change env (create (by_id c u) id d) w = changed w (public_create-Changes env c u id d)
serve-Change env (create (by_key k c u) id d) w =
    changed w (public_key_create-Changes env k c u id d)
serve-Change env (set (owner t) id d) w = changed w (set_document-Changes env t id d)
serve-Change env (set (by_id c u) id d) w = changed w (public_set-Changes env c u id d)
serve-Change env (set (by_key k c u) id d) w = changed w (public_key_set-Changes env k c u id d)
serve-Change env (patch (owner t) id d) w = changed w (patch_document-Changes env t id d)
serve-Change env (patch (by_id c u) id d) w = changed w (public_patch-Changes env c u id d)
serve-Change env (patch (by_key k c u) id d) w = changed w (public_key_patch-Changes env k c u id d)
serve-Change env (delete (owner t) id) w = changed w (delete_document-Changes env t id)
serve-Change env (delete (by_id c u) id) w = changed w (public_delete-Changes env c u id)
serve-Change env (delete (by_key k c u) id) w = changed w (public_key_delete-Changes env k c u id)
serve-Change env (batch t writes) w = changed w (batch_documents-Changes env t writes)
serve-Change env (get t id) w =
    inl (subst (λ db. Change w.db db) (sym ((Frame-get_document env t id).at w)) done)
serve-Change env (set_rules t r v) w = changed w (set_collection_rules-Changes env t r v)
serve-Change env (set_validator t v) w = changed w (set_collection_validator-Changes env t v)
serve-Change env (drop_collection t) w = inr (t, refl)
