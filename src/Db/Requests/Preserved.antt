-- ===== src/Db/Requests/Preserved.antt =====
-- What the requests of lcloud/api/json_db.py keep true of the tables.
use mathlib.Core.Path.{subst, sym}
use lcloud.Base.{ℕ, List, [], ◌∷◌, inl, inr}
use lcloud.Db.Rows.{Db}
use lcloud.Db.Errors.{Reply, ok, raise}
use lcloud.Db.Session.{World, Env, Handler, modify_db, ◌>>=◌, ◌>>◌}
use lcloud.Db.Owner.{Target}
use lcloud.Db.Owner.Collections.{drop_collection, delete_collection}
use lcloud.Db.Changes.{Frame, Change}
use lcloud.Db.Changes.Tails.{frames}
use lcloud.Db.Changes.Rules.{Frame-validate_name, Frame-collection}
use lcloud.Db.Requests.{Request, serve, serve_all, after}
use lcloud.Db.Requests.Changes.{serve-Change}

-- A handler whose work on the tables keeps a predicate of them.
record Keeps {A : Type 0} (P : Db → Type 0) (m : Handler A) : Type 0 where
  at : (w : World) → P w.db → P (after m w).db

module _ (P : Db → Type 0) (change : (s t : Db) → Change s t → P s → P t)
    (drop : (id : ℕ) (db : Db) → P db → P (drop_collection id db)) where
  continue-Keeps :
      {A B : Type 0} (f : A → Handler B) (r : Reply A) (w : World)
      → ((a : A) → Keeps P (f a))
      → P w.db
      → P (elim r as (λ _. Reply B × World) [ ok a ↦ f a w | raise e ↦ (raise e, w) ]).1.db
  continue-Keeps f (ok a) w k h = (k a).at w h
  continue-Keeps f (raise e) w k h = h

  Keeps-bind :
      {A B : Type 0} (m : Handler A) (f : A → Handler B)
      → Frame m
      → ((a : A) → Keeps P (f a))
      → Keeps P (m >>= f)
  unfolding ◌>>=◌
  Keeps-bind m f fr k = record {
    at = λ w h. continue-Keeps f (m w).0 (m w).1 k (subst P (sym (fr.at w)) h);
  }

  dropped-Keeps :
      {A : Type 0} (id : ℕ) (k : Handler A)
      → Frame k
      → Keeps P (modify_db (drop_collection id) >> k)
  unfolding ◌>>=◌ modify_db
  dropped-Keeps id k fr = record { at = λ w h. subst P (sym (fr.at _)) (drop id w.db h) }

  delete_collection-Keeps : (env : Env) (t : Target) → Keeps P (delete_collection env t)
  unfolding delete_collection
  delete_collection-Keeps env t =
      Keeps-bind _ _ (Frame-validate_name _)
        λ _. Keeps-bind _ _ (Frame-collection _ _ _ _) λ row. dropped-Keeps row.id _ (search frames)

  serve-preserves : (env : Env) (r : Request) (w : World) → P w.db → P (serve env r w).db
  unfolding serve
  serve-preserves env r w h = elim (serve-Change env r w) [
    | inl made ↦ change w.db (serve env r w).db made h
    | inr (t, e) ↦
        subst (λ q. P (serve env q w).db) (sym e) ((delete_collection-Keeps env t).at w h)
  ]

  -- Whatever each request replies, what changes and deletions of collections keep is kept.
  pub serve_all-preserves : (rs : List (Env × Request)) (w : World) → P w.db → P (serve_all rs w).db
  unfolding serve_all
  serve_all-preserves [] w h = h
  serve_all-preserves (r ∷ rs) w h = serve_all-preserves rs _ (serve-preserves r.0 r.1 w h)
