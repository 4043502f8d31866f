-- ===== src/Storage/Shares/Followed.antt =====
-- How often a run of requests follows a link of lcloud/api/shares.py.
use mathlib.Core.Path.{subst}
use lcloud.Base.{
  ℕ, suc, ◌+◌, ◌≤◌, String, ◌≡◌, sym, Bool, true, false, ◌&&◌, Option, none, some, List, [], ◌∷◌,
  arith, str_eq, eq_iff, find_if, if◌then◌else◌, Bool-cases, inl, inr,
}
use lcloud.Storage.Rows.{FileShare}
use lcloud.Storage.Session.{World, Handler, Answer, ok, raise, Env}
use lcloud.Storage.Upload.{Libs}
use lcloud.Storage.Files.{Download}
use lcloud.Storage.Shares.{public_download}
use lcloud.Storage.Shares.Limits.{AreLimited, AreWithin, Within}
use lcloud.Storage.Shares.Runs.{serve_all-AreLimited}
use lcloud.Storage.Shares.Spared.{
  Spares, Spares-Quiet, upload_file-Spares, public_upload_file-Spares, delete_file-Spares,
  public_delete_file-Spares, recompute_used-Spares,
}
use lcloud.Storage.Rules.{Quiet, Holds, Meets-kept}
use lcloud.Storage.Rules.Unchanged.{}
use lcloud.Storage.Rules.Silent.{
  list_files-Quiet, download_file-Quiet, get_quota-Quiet, list_versions-Quiet, list_shares-Quiet,
  list_clouds-Quiet, create_cloud-Quiet, disconnect_cloud-Quiet, create_storage_public_key-Quiet,
  list_storage_public_keys-Quiet, revoke_storage_public_key-Quiet, public_list_files-Quiet,
  public_download_file-Quiet,
}
use lcloud.Storage.Requests.{
  Request, upload, delete, download, versions, list, quota, my_clouds, public_upload, public_delete,
  public_read, public_list, share, list_shares, unshare, follow, new_key, list_keys, revoke_key,
  connect, disconnect, recompute, serve, serve_all,
}
use lcloud.Storage.Shares.Counted.{
  has_token, IsCounted, Counted, create_share-Counted, revoke_share-Counted,
  public_download-Counted, follow-Counted,
}

is_answered : {A : Type 0} → Answer A → Bool
is_answered (ok a) = true
is_answered (raise e) = false

-- The request follows the link and gets its file.
abbrev is_followed : String → Env → Request → World → Bool
is_followed token env (follow t) w = str_eq t token && is_answered (public_download env t w).0
is_followed token env r w = false

-- How many requests of a run do so.
pub followed : String → Libs → List (Env × Request) → World → ℕ
followed token libs [] w = 0
followed token libs (r ∷ rs) w =
    let rest = followed token libs rs (serve libs r.0 r.1 w) in
    if is_followed token r.0 r.1 w then suc rest else rest

module _ (token : String) (limit : ℕ) where
  spared :
      {A : Type 0} {m : Handler A} {n : ℕ}
      → Spares m
      → (w : World) → IsCounted token limit n w.shares
      → IsCounted token limit n (m w).1.shares
  spared {n} k w h = subst (IsCounted token limit n) (sym (k.same w)) h

  quietly :
      {A : Type 0} {m : Handler A} {n : ℕ}
      → Quiet m
      → (w : World) → IsCounted token limit n w.shares
      → IsCounted token limit n (m w).1.shares
  quietly q w h = spared (Spares-Quiet q) w h

  follow-IsCounted :
      (n : ℕ) (env : Env) (t : String) (w : World)
      → IsCounted token limit n w.shares
      → IsCounted token limit
          (if is_followed token env (follow t) w then suc n else n)
          (public_download env t w).1.shares
  unfolding is_answered
  follow-IsCounted n env t w h = elim (Bool-cases (str_eq t token)) [
    | inl e ↦
        subst
          (λ t.
            IsCounted token limit (if is_followed token env (follow t) w then suc n else n)
              (public_download env t w).1.shares)
          (sym ((eq_iff t token).0 e))
          (after (public_download env token w) (str_eq token token)
            ((follow-Counted token limit n env).at w h))
    | inr e ↦
        simp e
          (Meets-kept (Counted token limit n) (public_download-Counted token limit n env t) w h)
  ]
    where
      after :
          (r : Answer Download × World) (b : Bool)
          → Holds (Counted token limit n) (λ _. Counted token limit (suc n)) r
          → IsCounted token limit (if b && is_answered r.0 then suc n else n) r.1.shares
      after (ok d, w) true h = h
      after (ok d, w) false h = record {
        row = h.row;
        found = h.found;
        limited = h.limited;
        counts = omega (arith, h.counts);
      }
      after (raise e, w) true h = h
      after (raise e, w) false h = h

  serve-IsCounted :
      (libs : Libs) (env : Env) (r : Request) (w : World) (n : ℕ)
      → IsCounted token limit n w.shares
      → IsCounted token limit
          (if is_followed token env r w then suc n else n)
          (serve libs env r w).shares
  unfolding serve
  serve-IsCounted libs env (upload user c form) w n h =
      spared (upload_file-Spares libs env user c form) w h
  serve-IsCounted libs env (delete user id) w n h = spared (delete_file-Spares env user id) w h
  serve-IsCounted libs env (download user id) w n h = quietly (download_file-Quiet env user id) w h
  serve-IsCounted libs env (versions user id) w n h = quietly (list_versions-Quiet user id) w h
  serve-IsCounted libs env (list user c limit offset) w n h =
      quietly (list_files-Quiet env user c limit offset) w h
  serve-IsCounted libs env (quota user) w n h = quietly (get_quota-Quiet env user) w h
  serve-IsCounted libs env (my_clouds user) w n h = quietly (list_clouds-Quiet env user) w h
  serve-IsCounted libs env (public_upload key form) w n h =
      spared (public_upload_file-Spares libs env key form) w h
  serve-IsCounted libs env (public_delete key id) w n h =
      spared (public_delete_file-Spares env key id) w h
  serve-IsCounted libs env (public_read key id) w n h =
      quietly (public_download_file-Quiet env key id) w h
  serve-IsCounted libs env (public_list key limit offset) w n h =
      quietly (public_list_files-Quiet env key limit offset) w h
  serve-IsCounted libs env (share base user id body) w n h =
      Meets-kept (Counted token limit n) (create_share-Counted token limit n env base user id body)
        w h
  serve-IsCounted libs env (list_shares base user id) w n h =
      quietly (list_shares-Quiet base user id) w h
  serve-IsCounted libs env (unshare user id) w n h =
      Meets-kept (Counted token limit n) (revoke_share-Counted token limit n env user id) w h
  serve-IsCounted libs env (follow t) w n h = follow-IsCounted n env t w h
  serve-IsCounted libs env (new_key is_space user body) w n h =
      quietly (create_storage_public_key-Quiet env is_space user body) w h
  serve-IsCounted libs env (list_keys user id key) w n h =
      quietly (list_storage_public_keys-Quiet user id key) w h
  serve-IsCounted libs env (revoke_key user id) w n h =
      quietly (revoke_storage_public_key-Quiet env user id) w h
  serve-IsCounted libs env (connect user name) w n h =
      quietly (create_cloud-Quiet env user name) w h
  serve-IsCounted libs env (disconnect user id) w n h =
      quietly (disconnect_cloud-Quiet env user id) w h
  serve-IsCounted libs env (recompute id) w n h = spared (recompute_used-Spares id) w h

  none_yet : (n : ℕ) → n ≡ 0 + n
  none_yet n = omega arith

  serve_all-IsCounted :
      (libs : Libs) (rs : List (Env × Request)) (w : World) (n : ℕ)
      → IsCounted token limit n w.shares
      → IsCounted token limit (followed token libs rs w + n) (serve_all libs rs w).shares
  unfolding serve_all followed
  serve_all-IsCounted libs [] w n h = subst (λ k. IsCounted token limit k w.shares) (none_yet n) h
  serve_all-IsCounted libs (r ∷ rs) w n h =
      subst (λ k. IsCounted token limit k (serve_all libs rs (serve libs r.0 r.1 w)).shares)
        (count (is_followed token r.0 r.1 w) (followed token libs rs (serve libs r.0 r.1 w)))
        (serve_all-IsCounted libs rs _ _ (serve-IsCounted libs r.0 r.1 w n h))
    where
      count : (b : Bool) (m : ℕ) → m + (if b then suc n else n) ≡ (if b then suc m else m) + n
      count true m = omega arith
      count false m = omega arith

within_limit :
    (p : FileShare → Bool) (limit : ℕ) (s : FileShare) (ss : List FileShare)
    → AreWithin ss
    → find_if p ss ≡ some s
    → s.max_downloads ≡ some limit
    → s.download_count ≤ limit
within_limit p limit s [] h e m = ground arith
within_limit p limit s (x ∷ ss) h e m = elim (Bool-cases (p x)) [
  | inl f ↦
      let same : x ≡ s = ground arith in
      bound s.max_downloads m
        (subst (λ (s : FileShare). Within s.max_downloads s.download_count) same h.0)
  | inr f ↦ within_limit p limit s ss h.1 (ground arith) m
]
  where
    bound : (o : Option ℕ) → o ≡ some limit → Within o s.download_count → s.download_count ≤ limit
    bound none e w = ground arith
    bound (some l) e w = ground arith

-- If at first the ids of the links ascend and no count of downloads is above its limit, then in any run of
-- requests of the storage, those that follow a link and get its file are, with the downloads that its
-- row counts at first, no more than its `max_downloads`, and after the run no link's count is above its
-- limit.
pub serve_all-followed :
    (libs : Libs) (rs : List (Env × Request)) (w : World) (token : String) (s : FileShare)
    (limit : ℕ)
    → AreLimited w.shares
    → find_if (has_token token) w.shares ≡ some s
    → s.max_downloads ≡ some limit
    → (followed token libs rs w + s.download_count ≤ limit)
      × AreLimited (serve_all libs rs w).shares
serve_all-followed libs rs w token s limit h e m =
    let limited = serve_all-AreLimited libs rs w h in
    let counted =
      serve_all-IsCounted token limit libs rs w s.download_count
        (record { row = s; found = e; limited = m; counts = omega arith }) in
    (
      omega (
        arith,
        counted.counts,
        within_limit (has_token token) limit counted.row _ limited.1 counted.found counted.limited,
      ),
      limited,
    )
