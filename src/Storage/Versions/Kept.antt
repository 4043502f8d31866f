-- ===== src/Storage/Versions/Kept.antt =====
-- The requests of the storage keep the order that the chain of lcloud/api/versions.py runs back on.
use mathlib.Core.Path.{subst}
use lcloud.Base.{
  ℕ, ◌<◌, ◌≡◌, Bool, true, false, Option, none, some, List, [], ◌∷◌, ◌++◌, arith, if◌then◌else◌,
}
use lcloud.Accounts.{Found, absent, several, found, scalar_one_or_none, next_id}
use lcloud.Storage.Rows.{File, mark_deleted}
use lcloud.Storage.Session.{
  World, Handler, Env, CurrentUser, Context, fail, pure, modify, multiple_results_found, ◌>>=◌,
}
use lcloud.Storage.Upload.{NewFile, find_previous, supersede, file_row, insert_file, replaced_by}
use lcloud.Storage.Rules.{
  Core, Quiet, Meets, Meets-bind, Meets-Quiet, Meets-gets, Meets-modify, Meets-pure,
}
use lcloud.Storage.Rules.Unchanged.{Quiet-gets, Quiet-guard, Quiet-pure}
use lcloud.Storage.Versions.Chain.{Below, ReplaceEarlier}

abbrev pub InOrder : Core → Type 0
InOrder c = ReplaceEarlier c.files

abbrev pub KeepsOrder : {A : Type 0} → Handler A → Type 0
KeepsOrder m = Meets InOrder InOrder (λ _. InOrder) m

pub KeepsOrder-Quiet : {A : Type 0} {m : Handler A} → Quiet m → KeepsOrder m
KeepsOrder-Quiet q = Meets-Quiet InOrder q λ c p. p

abbrev pub file_id : File → ℕ
file_id f = f.id

pub ReplaceEarlier-mark_deleted :
    (now id : ℕ) (fs : List File) → ReplaceEarlier fs → ReplaceEarlier (mark_deleted now id fs)
unfolding mark_deleted
ReplaceEarlier-mark_deleted now id [] h = tt
ReplaceEarlier-mark_deleted now id (f ∷ fs) h =
    ground (arith, ReplaceEarlier-mark_deleted now id fs h.1, h.0)

ReplaceEarlier-supersede :
    (now : ℕ) (replaces : Option ℕ) (fs : List File)
    → ReplaceEarlier fs
    → ReplaceEarlier (supersede now replaces fs)
unfolding supersede
ReplaceEarlier-supersede now none fs h = h
ReplaceEarlier-supersede now (some id) fs h = ReplaceEarlier-mark_deleted now id fs h

ReplaceEarlier-append :
    (fs : List File) (f : File)
    → ReplaceEarlier fs
    → Below f.replaces_file_id f.id
    → ReplaceEarlier (fs ++ f ∷ [])
ReplaceEarlier-append [] f h b = (b, tt)
ReplaceEarlier-append (x ∷ fs) f h b = (h.0, ReplaceEarlier-append fs f h.1 b)

-- The one row that a query finds is in the table, so that the next row's id is above its.
scalar_one_or_none-next_id :
    (p : File → Bool) (fs : List File) (f : File)
    → scalar_one_or_none p fs ≡ found f
    → f.id < next_id file_id fs
scalar_one_or_none-next_id p [] f e = ground arith
scalar_one_or_none-next_id p (x ∷ fs) f e =
    after (p x) (scalar_one_or_none p fs) (scalar_one_or_none-next_id p fs f) e
  where
    after :
        (b : Bool) (o : Found File)
        → (o ≡ found f → f.id < next_id file_id fs)
        → (if b then lcloud.Accounts.or_several x o else o) ≡ found f
        → f.id < next_id file_id (x ∷ fs)
    after false o h e = omega (arith, h e)
    after true absent h e = ground arith
    after true several h e = ground arith
    after true (found g) h e = ground arith

-- The row that may be replaced has an id below the next row's.
abbrev pub IsOlder : Option File → Core → Type 0
IsOlder none c = Unit {0}
IsOlder (some f) c = f.id < next_id file_id c.files

abbrev pub Replaces : Option File → Core → Type 0
Replaces prev c = InOrder c × IsOlder prev c

pub find_previous-InOrder : (p : File → Bool) → Meets InOrder InOrder Replaces (find_previous p)
unfolding find_previous fail
find_previous-InOrder p =
    Meets-bind InOrder (Meets-gets InOrder λ c. scalar_one_or_none p c.files) λ o. after o
  where
    after :
        (row : Found File)
        → Meets InOrder
            (λ c. InOrder c × (scalar_one_or_none p c.files ≡ row))
            Replaces
            (elim row as (λ _. Handler (Option File)) [
              | several ↦ fail multiple_results_found
              | absent ↦ pure none
              | found prev ↦ pure (some prev)
            ])
    after several = record { at = λ w h. h.0 }
    after absent = Meets-pure InOrder none λ c h. (h.0, tt)
    after (found prev) =
        Meets-pure InOrder (some prev) λ c h. (h.0, scalar_one_or_none-next_id p c.files prev h.1)

pub insert_file-InOrder :
    (env : Env) (replaces : Option ℕ) (n : NewFile)
    → Meets InOrder
        (λ c. InOrder c × Below replaces (next_id file_id c.files))
        (λ _. InOrder)
        (insert_file env replaces n)
unfolding insert_file file_row
insert_file-InOrder env replaces n =
    Meets-bind InOrder (Meets-gets InOrder λ c. file_row env.now replaces n c.files) λ row.
      Meets-bind InOrder (Meets-Quiet InOrder (Quiet-gets _) λ c h. h.0.0) λ taken.
        Meets-bind InOrder (Meets-Quiet InOrder (Quiet-guard _ _) λ c h. h.0.0) λ _.
          Meets-bind InOrder
            (Meets-modify InOrder {Q = InOrder} _ λ w h.
              ReplaceEarlier-append (supersede env.now replaces w.files) row
                (ReplaceEarlier-supersede env.now replaces w.files h.0.0)
                (subst (λ (f : File). Below f.replaces_file_id f.id) h.1 h.0.1))
            λ _. KeepsOrder-Quiet (Quiet-pure row)

pub replaced_by-Below :
    (user : CurrentUser) (prev : Option File) (c : Core)
    → IsOlder prev c
    → Below (replaced_by user prev) (next_id file_id c.files)
replaced_by-Below user none c h = tt
replaced_by-Below user (some f) c h = after (lcloud.Storage.Session.may_access user f.owner_user_id)
  where
    after : (b : Bool) → Below (if b then some f.id else none) (next_id file_id c.files)
    after true = h
    after false = tt
