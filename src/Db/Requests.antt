-- ===== src/Db/Requests.antt =====
-- The requests of lcloud/api/json_db.py on one document or one collection, and a run of them.
pub mod Changes
pub mod Preserved
pub mod History
use lcloud.Base.{ℕ, String, Option, none, some, List, [], ◌∷◌}
use lcloud.Json.{Fields}
use lcloud.Db.Access.{Caller}
use lcloud.Db.Session.{World, Env, Handler, Body}
use lcloud.Db.Owner.{
  Target, create_document, get_document, set_document, patch_document, delete_document,
}
use lcloud.Db.Owner.Batch.{BatchWrite, batch_documents}
use lcloud.Db.Owner.Collections.{set_collection_rules, set_collection_validator, delete_collection}
use lcloud.Db.Public.{
  public_create_document, public_set_document, public_patch_document, public_delete_document,
}
use lcloud.Db.PublicKey.{
  public_key_create_document, public_key_set_document, public_key_patch_document,
  public_key_delete_document,
}

-- Whom a request is for: the owner's collection, the public one of an id, or that of a publishable key.
pub data Way : Type 0 where
  owner : Target → Way
  by_id : ℕ → Option ℕ → Way
  by_key : String → String → Caller → Way

pub data Request : Type 0 where
  create : Way → Option String → Fields → Request
  set : Way → String → Fields → Request
  patch : Way → String → Fields → Request
  delete : Way → String → Request
  batch : Target → List BatchWrite → Request
  get : Target → String → Request
  set_rules : Target → String → String → Request
  set_validator : Target → Option Fields → Request
  drop_collection : Target → Request

-- The world that a handler leaves.
abbrev pub after : {A : Type 0} → Handler A → World → World
after m w = (m w).1

unfoldable pub serve : Env → Request → World → World
serve env (create (owner t) id d) = after (create_document env t id d)
serve env (create (by_id c user) id d) = after (public_create_document env c user id d)
serve env (create (by_key k c caller) id d) = after (public_key_create_document env k c caller id d)
serve env (set (owner t) id d) = after (set_document env t id d)
serve env (set (by_id c user) id d) = after (public_set_document env c user id d)
serve env (set (by_key k c caller) id d) = after (public_key_set_document env k c caller id d)
serve env (patch (owner t) id d) = after (patch_document env t id d)
serve env (patch (by_id c user) id d) = after (public_patch_document env c user id d)
serve env (patch (by_key k c caller) id d) = after (public_key_patch_document env k c caller id d)
serve env (delete (owner t) id) = after (delete_document env t id)
serve env (delete (by_id c user) id) = after (public_delete_document env c user id)
serve env (delete (by_key k c caller) id) = after (public_key_delete_document env k c caller id)
serve env (batch t writes) = after (batch_documents env t writes)
serve env (get t id) = after (get_document env t id)
serve env (set_rules t r w) = after (set_collection_rules env t r w)
serve env (set_validator t v) = after (set_collection_validator env t v)
serve env (drop_collection t) = after (delete_collection env t)

unfoldable pub serve_all : List (Env × Request) → World → World
serve_all [] w = w
serve_all (r ∷ rs) w = serve_all rs (serve r.0 r.1 w)
