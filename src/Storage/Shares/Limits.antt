-- ===== src/Storage/Shares/Limits.antt =====
-- The counts of downloads of the links of lcloud/api/shares.py stay within their limits.
use mathlib.Core.Path.{subst}
use lcloud.Base.{
  ℕ, ◌+◌, ◌≤◌, ◌<◌, String, ◌≡◌, refl, sym, Bool, true, false, Option, none, some, List, [], ◌∷◌,
  ◌++◌, arith, str_eq, find_if, ◌∙◌, Bool-cases, inl, inr,
}
use lcloud.Base.Ascending.{Above, Above-append, last_key-le-max_of}
use lcloud.Storage.Rows.{FileShare}
use lcloud.Storage.Session.{World, Handler, Env, CurrentUser, not_found}
use lcloud.Storage.Shares.{
  CreateShareIn, is_active_share, is_used_up, new_share, update_share, revoked_share, downloaded,
  create_share, revoke_share, public_download,
}
use lcloud.Storage.Rules.{
  Core, core, Quiet, Meets, Meets-bind, Meets-Quiet, Meets-weaken, Meets-guard, Meets-or_fail,
  Meets-gets, Meets-modify,
}
use lcloud.Storage.Rules.Unchanged.{
  Quiet-gets, Quiet-or_fail, Quiet-guard, Quiet-pure, cloud_of-Quiet,
}
use lcloud.Storage.Rules.Silent.{get_file_for_user-Quiet}

abbrev share_id : FileShare → ℕ
share_id s = s.id

-- The count of a link with a limit is not above it.
abbrev pub Within : Option ℕ → ℕ → Type 0
Within none count = Unit {0}
Within (some limit) count = count ≤ limit

abbrev pub AreWithin : List FileShare → Type 0
AreWithin [] = Unit {0}
AreWithin (s ∷ ss) = Within s.max_downloads s.download_count × AreWithin ss

-- The links' ids ascend, and none has a count above its limit.
abbrev pub AreLimited : List FileShare → Type 0
AreLimited ss = Above share_id 0 ss × AreWithin ss

AreWithin-append :
    (ss : List FileShare) (s : FileShare)
    → AreWithin ss
    → Within s.max_downloads s.download_count
    → AreWithin (ss ++ s ∷ [])
AreWithin-append [] s h p = (p, tt)
AreWithin-append (x ∷ ss) s h p = (h.0, AreWithin-append ss s h.1 p)

Above-update_share :
    (f : FileShare → FileShare) (id m : ℕ) (ss : List FileShare)
    → ((s : FileShare) → (f s).id ≡ s.id)
    → Above share_id m ss
    → Above share_id m (update_share f id ss)
unfolding update_share
Above-update_share f id m [] same h = tt
Above-update_share f id m (s ∷ ss) same h =
    ground (arith, same s, Above-update_share f id s.id ss same h.1)

-- Ids above a row's are not its id.
update_share-Above :
    (f : FileShare → FileShare) (id m : ℕ) (ss : List FileShare)
    → id ≤ m
    → Above share_id m ss
    → AreWithin ss
    → AreWithin (update_share f id ss)
unfolding update_share
update_share-Above f id m [] le h w = tt
update_share-Above f id m (s ∷ ss) le h w =
    ground (arith, update_share-Above f id s.id ss (omega (arith, le, h.0)) h.1 w.1)

revoked-AreWithin :
    (now id : ℕ) (ss : List FileShare)
    → AreWithin ss
    → AreWithin (update_share (revoked_share now) id ss)
unfolding update_share revoked_share
revoked-AreWithin now id [] w = tt
revoked-AreWithin now id (s ∷ ss) w = ground (arith, revoked-AreWithin now id ss w.1)

one_more : (limit : Option ℕ) (n : ℕ) → is_used_up limit n ≡ false → Within limit (n + 1)
one_more none n h = tt
one_more (some limit) n h = ground arith

-- A row that is found further on has a greater id.
found-Above :
    (p : FileShare → Bool) (m : ℕ) (row : FileShare) (ss : List FileShare)
    → Above share_id m ss
    → find_if p ss ≡ some row
    → m < row.id
found-Above p m row [] h e = ground arith
found-Above p m row (s ∷ ss) h e = ground (arith, found-Above p s.id row ss h.1)

downloaded-AreWithin :
    (p : FileShare → Bool) (m : ℕ) (row : FileShare) (ss : List FileShare)
    → Above share_id m ss
    → AreWithin ss
    → find_if p ss ≡ some row
    → is_used_up row.max_downloads row.download_count ≡ false
    → AreWithin (update_share downloaded row.id ss)
unfolding update_share downloaded
downloaded-AreWithin p m row [] h w e active = tt
downloaded-AreWithin p m row (s ∷ ss) h w e active = elim (Bool-cases (p s)) [
  | inl here ↦
      let same : s ≡ row = ground arith in
      subst (λ row. AreWithin (update_share downloaded row.id (s ∷ ss))) same
        (
          ground (
            arith,
            one_more s.max_downloads s.download_count (
                subst (λ (r : FileShare). is_used_up r.max_downloads r.download_count ≡ false)
                  (sym same) active),
          ),
          update_share-Above downloaded s.id s.id ss (omega arith) h.1 w.1,
        )
  | inr further ↦
      let e : find_if p ss ≡ some row = ground arith in
      (
        ground (arith, found-Above p s.id row ss h.1 e, w.0),
        downloaded-AreWithin p s.id row ss h.1 w.1 e active,
      )
]

abbrev pub Limited : Core → Type 0
Limited c = AreLimited c.shares

abbrev pub KeepsLimits : {A : Type 0} → Handler A → Type 0
KeepsLimits m = Meets Limited Limited (λ _. Limited) m

still : {A : Type 0} {m : Handler A} → Quiet m → KeepsLimits m
still q = Meets-Quiet Limited q λ c p. p

pub create_share-KeepsLimits :
    (env : Env) (base : String) (user : CurrentUser) (id : ℕ) (body : CreateShareIn)
    → KeepsLimits (create_share env base user id body)
unfolding create_share new_share
create_share-KeepsLimits env base user id body =
    Meets-bind Limited (still (get_file_for_user-Quiet user id)) λ f.
      Meets-bind Limited (Meets-gets Limited λ c. new_share env user f.id body c.shares) λ s.
        Meets-bind Limited
          (Meets-modify Limited {Q = Limited} _ λ w p. added f.id w.shares s p.0 p.1)
          λ _. still (Quiet-pure _)
  where
    none_yet : (limit : Option ℕ) → Within limit 0
    none_yet none = tt
    none_yet (some limit) = omega arith

    added :
        (file_id : ℕ) (ss : List FileShare) (s : FileShare)
        → AreLimited ss
        → new_share env user file_id body ss ≡ s
        → AreLimited (ss ++ s ∷ [])
    added file_id ss s h made =
        subst (λ s. AreLimited (ss ++ s ∷ [])) made
          (
            Above-append share_id 0 ss _ h.0 (omega (arith, last_key-le-max_of share_id 0 ss)),
            AreWithin-append ss _ h.1 (none_yet body.max_downloads),
          )

pub revoke_share-KeepsLimits :
    (env : Env) (user : CurrentUser) (id : ℕ) → KeepsLimits (revoke_share env user id)
unfolding revoke_share revoked_share
revoke_share-KeepsLimits env user id = Meets-bind Limited (still (Quiet-gets _)) λ o.
    Meets-bind Limited (still (Quiet-or_fail o _)) λ s.
      Meets-bind Limited (still (Quiet-guard _ _)) λ _. Meets-modify Limited _ λ w p. (
        Above-update_share (revoked_share env.now) s.id 0 w.shares same p.0,
        revoked-AreWithin env.now s.id w.shares p.1,
      )
  where
    same : (s : FileShare) → (revoked_share env.now s).id ≡ s.id
    same s = ground arith

pub public_download-KeepsLimits :
    (env : Env) (token : String) → KeepsLimits (public_download env token)
unfolding public_download is_active_share downloaded
public_download-KeepsLimits env token =
    Meets-bind Limited (Meets-gets Limited λ c. find_if has_token c.shares) λ o.
      Meets-bind Limited
        (Meets-weaken Limited (Meets-or_fail Limited o not_found (λ c p. p.0))
          λ s c p. (p.0.0, linked s c p.0.1 p.1))
        λ s. Meets-bind Limited (Meets-guard Limited _ not_found (λ c p. p.0)) λ _.
          Meets-bind Limited (unmoved s (Quiet-gets _)) λ o.
            Meets-bind Limited (unmoved s (Quiet-or_fail o _)) λ f.
              Meets-bind Limited (unmoved s (cloud_of-Quiet f)) λ cloud.
                Meets-bind Limited (Meets-modify Limited {Q = Limited} _ λ w p. counted s w p)
                  λ _. Meets-bind Limited (still (Quiet-guard _ _)) λ _. still (Quiet-pure _)
  where
    has_token : FileShare → Bool
    has_token s = str_eq s.token token

    IsLinked : FileShare → Core → Type 0
    IsLinked s c = find_if has_token c.shares ≡ some s

    linked :
        {o : Option FileShare} (s : FileShare) (c : Core)
        → find_if has_token c.shares ≡ o
        → o ≡ some s
        → IsLinked s c
    linked s c e e' = e ∙ e'

    unmoved :
        {A : Type 0} (s : FileShare) {m : Handler A}
        → Quiet m
        → Meets Limited
            (λ c. (Limited c × IsLinked s c) × (is_active_share env.now s ≡ true))
            (λ _ c. (Limited c × IsLinked s c) × (is_active_share env.now s ≡ true))
            m
    unmoved s q = Meets-Quiet Limited q λ c p. p.0.0

    counted :
        (s : FileShare) (w : World)
        → (Limited (core w) × IsLinked s (core w)) × (is_active_share env.now s ≡ true)
        → AreLimited (update_share downloaded s.id w.shares)
    counted s w p = (
      Above-update_share downloaded s.id 0 w.shares (λ s. refl) p.0.0.0,
      downloaded-AreWithin has_token 0 s w.shares p.0.0.0 p.0.0.1 p.0.1 (ground (arith, p.1)),
    )
