-- ===== src/Storage/Shares/Counted.antt =====
-- What the requests of lcloud/api/shares.py do to the count of a link.

use lcloud.Base.{
  ℕ, suc, ◌≤◌, String, ◌≡◌, refl, ◌∙◌, Bool, some, List, [], ◌∷◌, ◌++◌, arith, str_eq, find_if,
}
use lcloud.Storage.Rows.{FileShare}
use lcloud.Storage.Session.{Handler, Env, CurrentUser, not_found}
use lcloud.Storage.Shares.{
  CreateShareIn, with_share, update_share, revoked_share, downloaded, create_share, revoke_share,
  public_download,
}
use lcloud.Storage.Shares.Spared.{}
use lcloud.Storage.Rules.{
  Core, Quiet, Meets, Meets-bind, Meets-Quiet, Meets-weaken, Meets-or_fail, Meets-gets,
  Meets-modify,
}
use lcloud.Storage.Rules.Unchanged.{
  Quiet-gets, Quiet-or_fail, Quiet-guard, Quiet-pure, cloud_of-Quiet,
}
use lcloud.Storage.Rules.Silent.{get_file_for_user-Quiet}
use lcloud.Storage.Requests.{}

abbrev pub has_token : String → FileShare → Bool
has_token token s = str_eq s.token token

find-append :
    (p : FileShare → Bool) (s x : FileShare) (ss : List FileShare)
    → find_if p ss ≡ some s
    → find_if p (ss ++ x ∷ []) ≡ some s
find-append p s x [] e = ground arith
find-append p s x (y ∷ ss) e = ground (arith, find-append p s x ss)

find-update_share :
    (token : String) (f : FileShare → FileShare) (id : ℕ) (s : FileShare) (ss : List FileShare)
    → ((x : FileShare) → (f x).token ≡ x.token)
    → find_if (has_token token) ss ≡ some s
    → find_if (has_token token) (update_share f id ss) ≡ some (with_share f id s)
unfolding update_share
find-update_share token f id s [] same e = ground arith
find-update_share token f id s (x ∷ ss) same e =
    ground (arith, same x, find-update_share token f id s ss same)

module _ (token : String) (limit : ℕ) where
  -- The link's row has the limit, and counts as many downloads or more.
  pub record IsCounted (n : ℕ) (ss : List FileShare) : Type 0 where
    pub row : FileShare
    pub found : find_if (has_token token) ss ≡ some row
    pub limited : row.max_downloads ≡ some limit
    pub counts : n ≤ row.download_count

  IsCounted-update_share :
      (n n' : ℕ) (f : FileShare → FileShare) (id : ℕ) (ss : List FileShare)
      → ((x : FileShare) → (f x).token ≡ x.token)
      → ((x : FileShare) → (f x).max_downloads ≡ x.max_downloads)
      → (h : IsCounted n ss) → n' ≤ (with_share f id h.row).download_count
      → IsCounted n' (update_share f id ss)
  IsCounted-update_share n n' f id ss token_same limit_same h le = record {
    row = with_share f id h.row;
    found = find-update_share token f id h.row ss token_same h.found;
    limited = ground (arith, limit_same h.row, h.limited);
    counts = le;
  }

  abbrev pub Counted : ℕ → Core → Type 0
  Counted n c = IsCounted n c.shares

  still :
      {A : Type 0} {m : Handler A} (n : ℕ)
      → Quiet m
      → Meets (Counted n) (Counted n) (λ _. Counted n) m
  still n q = Meets-Quiet (Counted n) q λ c p. p

  pub create_share-Counted :
      (n : ℕ) (env : Env) (base : String) (user : CurrentUser) (id : ℕ) (body : CreateShareIn)
      → Meets (Counted n) (Counted n) (λ _. Counted n) (create_share env base user id body)
  unfolding create_share
  create_share-Counted n env base user id body =
      Meets-bind (Counted n) (still n (get_file_for_user-Quiet user id)) λ f.
        Meets-bind (Counted n) (still n (Quiet-gets _)) λ s.
          Meets-bind (Counted n)
            (Meets-modify (Counted n) {Q = Counted n} _ λ w p. record {
              row = p.row;
              found = find-append (has_token token) p.row s w.shares p.found;
              limited = p.limited;
              counts = p.counts;
            })
            λ _. still n (Quiet-pure _)

  pub revoke_share-Counted :
      (n : ℕ) (env : Env) (user : CurrentUser) (id : ℕ)
      → Meets (Counted n) (Counted n) (λ _. Counted n) (revoke_share env user id)
  unfolding revoke_share revoked_share
  revoke_share-Counted n env user id = Meets-bind (Counted n) (still n (Quiet-gets _)) λ o.
      Meets-bind (Counted n) (still n (Quiet-or_fail o _)) λ s.
        Meets-bind (Counted n) (still n (Quiet-guard _ _)) λ _. Meets-modify (Counted n) _ λ w p.
          IsCounted-update_share n n (revoked_share env.now) s.id w.shares (λ x. ground arith)
            (λ x. ground arith) p (ground (arith, p.counts))

  pub public_download-Counted :
      (n : ℕ) (env : Env) (t : String)
      → Meets (Counted n) (Counted n) (λ _. Counted n) (public_download env t)
  unfolding public_download downloaded
  public_download-Counted n env t = Meets-bind (Counted n) (still n (Quiet-gets _)) λ o.
      Meets-bind (Counted n) (still n (Quiet-or_fail o _)) λ s.
        Meets-bind (Counted n) (still n (Quiet-guard _ _)) λ _.
          Meets-bind (Counted n) (still n (Quiet-gets _)) λ o.
            Meets-bind (Counted n) (still n (Quiet-or_fail o _)) λ f.
              Meets-bind (Counted n) (still n (cloud_of-Quiet f)) λ cloud.
                Meets-bind (Counted n)
                  (Meets-modify (Counted n) {Q = Counted n} _ λ w p.
                    IsCounted-update_share n n downloaded s.id w.shares (λ x. refl) (λ x. refl) p
                      (ground (arith, p.counts)))
                  λ _.
                    Meets-bind (Counted n) (still n (Quiet-guard _ _)) λ _. still n (Quiet-pure _)

  -- A request that follows the link counts.
  pub follow-Counted :
      (n : ℕ) (env : Env)
      → Meets (Counted n) (Counted n) (λ _. Counted (suc n)) (public_download env token)
  unfolding public_download downloaded
  follow-Counted n env =
      Meets-bind (Counted n) (Meets-gets (Counted n) λ c. find_if (has_token token) c.shares) λ o.
        Meets-bind (Counted n)
          (Meets-weaken (Counted n) (Meets-or_fail (Counted n) o not_found (λ c p. p.0))
            λ s c p. linked s c (p.0.1 ∙ p.1) p.0.0)
          λ s. Meets-bind (Counted n) (unmoved s (Quiet-guard _ _)) λ _.
            Meets-bind (Counted n) (unmoved s (Quiet-gets _)) λ o.
              Meets-bind (Counted n) (unmoved s (Quiet-or_fail o _)) λ f.
                Meets-bind (Counted n) (unmoved s (cloud_of-Quiet f)) λ cloud.
                  Meets-bind (Counted n)
                    (Meets-modify (Counted n) {Q = Counted (suc n)} _ λ w p.
                      IsCounted-update_share n (suc n) downloaded s.id w.shares (λ x. refl)
                        (λ x. refl) p.0 (more s p.0.row p.1 p.0.counts))
                    λ _. Meets-bind (Counted n) (after (Quiet-guard _ _)) λ _. after (Quiet-pure _)
    where
      IsIts : FileShare → Core → Type 0
      IsIts s c = (h : Counted n c) × (h.row ≡ s)

      linked :
          (s : FileShare) (c : Core)
          → find_if (has_token token) c.shares ≡ some s
          → Counted n c
          → IsIts s c
      linked s c e h = (h, ground (arith, e, h.found))

      unmoved :
          {A : Type 0} (s : FileShare) {m : Handler A}
          → Quiet m
          → Meets (Counted n) (IsIts s) (λ _. IsIts s) m
      unmoved s q = Meets-Quiet (Counted n) q λ c p. p.0

      after :
          {A : Type 0} {m : Handler A}
          → Quiet m
          → Meets (Counted n) (Counted (suc n)) (λ _. Counted (suc n)) m
      after q = Meets-Quiet (Counted n) q λ c p. record {
        row = p.row;
        found = p.found;
        limited = p.limited;
        counts = omega (arith, p.counts);
      }

      more :
          (s row : FileShare)
          → row ≡ s
          → n ≤ row.download_count
          → suc n ≤ (with_share downloaded s.id row).download_count
      more s row e le = ground (arith, e, le)
