-- ===== src/Db/Changes/Rules.antt =====
-- The rules for the steps of a handler that leave the tables alone, and for what follows them.
use mathlib.Core.Path.{subst, sym}
use lcloud.Base.{ℕ, String, ◌≡◌, refl, Bool, true, false, Option, none, some, ◌∙◌}
use lcloud.Json.{Fields}
use lcloud.Cache.{TtlCache}
use lcloud.Db.Access.{Caller}
use lcloud.Db.Rows.{JsonDocument, JsonCollection, Db}
use lcloud.Db.Errors.{
  Action, read, write, Reply, ok, raise, HttpError, Check, public_validator_failed,
}
use lcloud.Db.Validator.{validate_public_write}
use lcloud.Db.Session.{
  Body, World, Env, Handler, pure, guard, gets, or_fail, modify_cache, ◌>>=◌, cache_get, cache_set,
  enforce_public_rate, validate_collection_name, validate_doc_id, get_collection_or_404,
  get_collection_by_id_or_404, get_document_or_404, require_collection_access, require_valid_write,
}
use lcloud.Db.Changes.{Change, done, Changes, Frame}

module _ {A : Type 0} where
  pub Frame-pure : (a : A) → Frame (pure a)
  unfolding pure
  Frame-pure a = record { at = λ w. refl }

  pub Frame-or_fail : (o : Option A) (e : HttpError) → Frame (or_fail o e)
  unfolding or_fail
  Frame-or_fail none e = record { at = λ w. refl }
  Frame-or_fail (some a) e = record { at = λ w. refl }

  pub Frame-gets : (f : World → A) → Frame (gets f)
  unfolding gets
  Frame-gets f = record { at = λ w. refl }

  pub Changes-Frame : {P : Db → Type 0} (m : Handler A) → Frame m → Changes P m
  Changes-Frame m fr = record { at = λ w p. subst (λ db. Change w.db db) (sym (fr.at w)) done }

module _ {A B : Type 0} where
  continue-Frame :
      (f : A → Handler B) (db : Db) (r : Reply A) (w : World)
      → ((a : A) → Frame (f a))
      → w.db ≡ db
      → (elim r as (λ _. Reply B × World) [ ok a ↦ f a w | raise e ↦ (raise e, w) ]).1.db ≡ db
  continue-Frame f db (ok a) w k e = (k a).at w ∙ e
  continue-Frame f db (raise x) w k e = e

  pub Frame-bind :
      (m : Handler A) (f : A → Handler B) → Frame m → ((a : A) → Frame (f a)) → Frame (m >>= f)
  unfolding ◌>>=◌
  Frame-bind m f fr k = record { at = λ w. continue-Frame f w.db (m w).0 (m w).1 k (fr.at w) }

  continue-Changes :
      (P : Db → Type 0) (f : A → Handler B) (db : Db) (r : Reply A) (w : World)
      → ((a : A) → Changes P (f a))
      → w.db ≡ db
      → P db
      → Change db (elim r as (λ _. Reply B × World) [ ok a ↦ f a w | raise e ↦ (raise e, w) ]).1.db
  continue-Changes P f db (ok a) w k e p =
      subst (λ s. Change s (f a w).1.db) e ((k a).at w (subst P (sym e) p))
  continue-Changes P f db (raise x) w k e p = subst (λ s. Change s w.db) e done

  -- What follows a step that leaves the tables alone.
  pub Changes-bind :
      {P : Db → Type 0} (m : Handler A) (f : A → Handler B)
      → Frame m
      → ((a : A) → Changes P (f a))
      → Changes P (m >>= f)
  unfolding ◌>>=◌
  Changes-bind {P} m f fr k = record {
    at = λ w p. continue-Changes P f w.db (m w).0 (m w).1 k (fr.at w) p;
  }

  -- What follows a look at the tables knows what was seen.
  pub Changes-gets :
      {P : Db → Type 0} (g : World → A) (g' : Db → A) (f : A → Handler B)
      → ((w : World) → g w ≡ g' w.db)
      → ((a : A) → Changes (λ db. P db × (g' db ≡ a)) (f a))
      → Changes P (gets g >>= f)
  unfolding ◌>>=◌
  Changes-gets g g' f e k = record { at = λ w p. (k (g w)).at w (p, sym (e w)) }

pub Frame-modify_cache : (f : TtlCache Body → TtlCache Body) → Frame (modify_cache f)
unfolding modify_cache
Frame-modify_cache f = record { at = λ w. refl }

pub Frame-guard : (b : Bool) (e : HttpError) → Frame (guard b e)
unfolding guard
Frame-guard true e = record { at = λ w. refl }
Frame-guard false e = record { at = λ w. refl }

pub Frame-cache_get : (env : Env) (key : String) → Frame (cache_get env key)
unfolding cache_get
Frame-cache_get env key = record { at = λ w. refl }

pub Frame-cache_set :
    (env : Env) (key : String) (value : Body) (ttl : ℕ) (namespace : String)
    → Frame (cache_set env key value ttl namespace)
unfolding cache_set modify_cache
Frame-cache_set env key value ttl namespace = record { at = λ w. refl }

pub Frame-rate : (env : Env) (action : Action) → Frame (enforce_public_rate env action)
unfolding enforce_public_rate
Frame-rate env read = record { at = λ w. refl }
Frame-rate env write = record { at = λ w. refl }

pub Frame-validate_name : (name : String) → Frame (validate_collection_name name)
unfolding validate_collection_name
Frame-validate_name name = Frame-guard _ _

pub Frame-validate_doc_id : (doc_id : String) → Frame (validate_doc_id doc_id)
unfolding validate_doc_id
Frame-validate_doc_id doc_id = Frame-guard _ _

pub Frame-access :
    (c : JsonCollection) (caller : Caller) (action : Action) (row : Option JsonDocument)
    → Frame (require_collection_access c caller action row)
unfolding require_collection_access
Frame-access c caller action row = Frame-guard _ _

pub Frame-collection :
    (user_id : ℕ) (database_id : Option ℕ) (database_key : Option String) (name : String)
    → Frame (get_collection_or_404 user_id database_id database_key name)
unfolding get_collection_or_404
Frame-collection user_id database_id database_key name = record {
  at = λ w. (Frame-or_fail _ _).at w;
}

pub Frame-collection_by_id : (id : ℕ) → Frame (get_collection_by_id_or_404 id)
unfolding get_collection_by_id_or_404
Frame-collection_by_id id = record { at = λ w. (Frame-or_fail _ _).at w }

pub Frame-valid : (c : JsonCollection) (contents : Fields) → Frame (require_valid_write c contents)
unfolding require_valid_write
Frame-valid c contents = record {
  at = λ w. go w (validate_public_write c.write_validator_json contents);
}
  where
    go :
        (w : World) (o : Option Check)
        → (elim o as (λ _. Reply (Unit {0}) × World) [
          | none ↦ (ok tt, w)
          | some check ↦ (raise (public_validator_failed check), w)
        ]).1.db
          ≡ w.db
    go w none = refl
    go w (some check) = refl

pub Frame-document : (c : ℕ) (d : String) → Frame (get_document_or_404 c d)
unfolding get_document_or_404
Frame-document c d = record { at = λ w. (Frame-or_fail _ _).at w }
