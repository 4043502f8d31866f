-- ===== src/Storage/Rules.antt =====
-- Rules by which the handlers of the storage are followed: what one leaves alone, and what holds before
-- and after it.
pub mod Unchanged
pub mod Silent
pub mod Steps
use lcloud.Base.{◌≡◌, refl, ◌∙◌, sym, ap, Bool, true, false, Option, none, some, List}
use mathlib.Core.Path.{subst}
use lcloud.Storage.Rows.{UserRow, File, FileShare}
use lcloud.Storage.Session.{
  World, Handler, Answer, ok, raise, StorageError, pure, fail, or_fail, gets, guard, modify, ◌>>=◌,
}

-- The tables that the theorems follow.
pub record Core : Type 0 where
  pub users : List UserRow
  pub files : List File
  pub shares : List FileShare

abbrev pub core : World → Core
core w = record { users = w.users; files = w.files; shares = w.shares }

-- The handler leaves these tables as they are.
pub record Quiet {A : Type 0} (m : Handler A) : Type 0 where
  pub same : (w : World) → core (m w).1 ≡ core w

-- What holds after an answer and after an error.
abbrev pub Holds : {A : Type 0} → (Core → Type 0) → (A → Core → Type 0) → Answer A × World → Type 0
Holds I Q (ok a, w) = Q a (core w)
Holds I Q (raise e, w) = I (core w)

module _ (I : Core → Type 0) where
  -- From where P holds, the handler answers where Q holds, or raises where I does.
  pub record Meets {A : Type 0} (P : Core → Type 0) (Q : A → Core → Type 0) (m : Handler A)
      : Type 0 where
    pub at : (w : World) → P (core w) → Holds I Q (m w)

  pub Meets-bind :
      {A B : Type 0} {P : Core → Type 0} {Q : A → Core → Type 0} {R : B → Core → Type 0}
      {m : Handler A} {f : A → Handler B}
      → Meets P Q m
      → ((a : A) → Meets (Q a) R (f a))
      → Meets P R (m >>= f)
  unfolding ◌>>=◌
  Meets-bind {A} {B} {P} {Q} {R} {m} {f} hm hf = record { at = λ w p. after (m w) (hm.at w p) }
    where
      after :
          (r : Answer A × World)
          → Holds I Q r
          → Holds I R
              (elim r.0 as (λ _. Answer B × World) [ ok a ↦ f a r.1 | raise e ↦ (raise e, r.1) ])
      after (ok a, w) h = (hf a).at w h
      after (raise e, w) h = h

  pub Meets-Quiet :
      {A : Type 0} {P : Core → Type 0} {m : Handler A}
      → Quiet m
      → ((c : Core) → P c → I c)
      → Meets P (λ _. P) m
  Meets-Quiet {A} {P} {m} q i = record { at = λ w p. after (m w) (subst P (sym (q.same w)) p) }
    where
      after : (r : Answer A × World) → P (core r.1) → Holds I (λ (_ : A). P) r
      after (ok a, w) p = p
      after (raise e, w) p = i (core w) p

  pub Meets-weaken :
      {A : Type 0} {P : Core → Type 0} {Q R : A → Core → Type 0} {m : Handler A}
      → Meets P Q m
      → ((a : A) (c : Core) → Q a c → R a c)
      → Meets P R m
  Meets-weaken {A} {P} {Q} {R} {m} hm h = record { at = λ w p. after (m w) (hm.at w p) }
    where
      after : (r : Answer A × World) → Holds I Q r → Holds I R r
      after (ok a, w) q = h a (core w) q
      after (raise e, w) q = q

  pub Meets-assume :
      {A : Type 0} {P P' : Core → Type 0} {Q : A → Core → Type 0} {m : Handler A}
      → Meets P Q m
      → ((c : Core) → P' c → P c)
      → Meets P' Q m
  Meets-assume hm h = record { at = λ w p. hm.at w (h (core w) p) }

  pub Meets-pure :
      {A : Type 0} {P : Core → Type 0} {Q : A → Core → Type 0} (a : A)
      → ((c : Core) → P c → Q a c)
      → Meets P Q (pure a)
  unfolding pure
  Meets-pure a h = record { at = λ w p. h (core w) p }

  -- The test holds after it.
  pub Meets-guard :
      {P : Core → Type 0} (b : Bool) (e : StorageError)
      → ((c : Core) → P c → I c)
      → Meets P (λ _ c. P c × (b ≡ true)) (guard b e)
  unfolding guard
  Meets-guard true e i = record { at = λ w p. (p, refl) }
  Meets-guard false e i = record { at = λ w p. i (core w) p }

  pub Meets-or_fail :
      {A : Type 0} {P : Core → Type 0} (o : Option A) (e : StorageError)
      → ((c : Core) → P c → I c)
      → Meets P (λ a c. P c × (o ≡ some a)) (or_fail o e)
  unfolding or_fail
  Meets-or_fail none e i = record { at = λ w p. i (core w) p }
  Meets-or_fail (some a) e i = record { at = λ w p. (p, refl) }

  -- The tables are read: the value is that of the tables then.
  pub Meets-gets :
      {A : Type 0} {P : Core → Type 0} (g : Core → A)
      → Meets P (λ a c. P c × (g c ≡ a)) (gets (λ w. g (core w)))
  unfolding gets
  Meets-gets g = record { at = λ w p. (p, refl) }

  pub Meets-modify :
      {P Q : Core → Type 0} (f : World → World)
      → ((w : World) → P (core w) → Q (core (f w)))
      → Meets P (λ _. Q) (modify f)
  unfolding modify
  Meets-modify f h = record { at = λ w p. h w p }

  -- A handler that keeps I keeps it, whatever it answers.
  pub Meets-kept :
      {A : Type 0} {m : Handler A}
      → Meets I (λ _. I) m
      → (w : World) → I (core w)
      → I (core (m w).1)
  Meets-kept {A} {m} hm w i = after (m w) (hm.at w i)
    where
      after : (r : Answer A × World) → Holds I (λ (_ : A). I) r → I (core r.1)
      after (ok a, w) h = h
      after (raise e, w) h = h
