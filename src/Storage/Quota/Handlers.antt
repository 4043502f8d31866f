-- ===== src/Storage/Quota/Handlers.antt =====
-- Each request of the storage keeps the totals of its users.
use lcloud.Base.{
  ℕ, String, ◌≡◌, Bool, true, ◌&&◌, Option, none, some, arith, find_if, find_if-holds,
}
use mathlib.Core.Path.{subst}
use lcloud.Base.Int.{pos, neg, eq_ℤ}
use lcloud.Storage.Rows.{File, is_live, mark_deleted, set_used, live_bytes}
use lcloud.Storage.Session.{
  Handler, Env, CurrentUser, Context, or_fail, gets, modify, ◌>>=◌, not_found,
}
use lcloud.Storage.Quota.{recompute_used}
use lcloud.Storage.Quota.Bounds.{
  WithinQuota, Unreleased, Unreleased-zero, Unreleased-none, Unreleased-added, recomputed,
  deleted-Unreleased,
}
use lcloud.Storage.Quota.Kept.{
  assert_can_store-Meets, increment_used-Meets, insert_file-Meets, account_upload-Meets,
}
use lcloud.Storage.Upload.{Libs, Form, upload_file}
use lcloud.Storage.Files.{delete_file, commit_deletion, release, get_file_for_user, is_live_id}
use lcloud.Storage.PublicFiles.{
  upload_in, public_upload_file, delete_in, public_delete_file, get_file_in, in_scope_of,
}
use lcloud.Storage.Rules.{
  Core, core, Quiet, Meets, Meets-bind, Meets-Quiet, Meets-weaken, Meets-assume, Meets-pure,
  Meets-or_fail, Meets-gets, Meets-modify,
}
use lcloud.Storage.Rules.Unchanged.{
  Quiet-bind, Quiet-or_fail, Quiet-guard, modify_cache-Quiet, ensure_userbot_authorized-Quiet,
  get_cloud_for_user-Quiet, cloud_of-Quiet, delete_file_message-Quiet,
  enforce_public_storage_rate-Quiet, stream_to_temp-Quiet,
}
use lcloud.Storage.Rules.Steps.{
  check_fields-Quiet, upload_file_to_cloud-Quiet, send-Quiet, find_previous-Quiet,
  load_public_storage_context-Quiet,
}

-- The handler keeps the totals.
abbrev pub Keeps : {A : Type 0} → Handler A → Type 0
Keeps m = Meets WithinQuota WithinQuota (λ _. WithinQuota) m

pub Keeps-Quiet : {A : Type 0} {m : Handler A} → Quiet m → Keeps m
Keeps-Quiet q = Meets-Quiet WithinQuota q λ c p. p

pub upload_file-Keeps :
    (libs : Libs) (env : Env) (user : CurrentUser) (cloud_id : ℕ) (form : Form)
    → Keeps (upload_file libs env user cloud_id form)
unfolding upload_file
upload_file-Keeps libs env user cloud_id form =
    Meets-bind WithinQuota (Keeps-Quiet (ensure_userbot_authorized-Quiet env)) λ _.
      Meets-bind WithinQuota (Keeps-Quiet (get_cloud_for_user-Quiet cloud_id user)) λ cloud.
        Meets-bind WithinQuota (Keeps-Quiet (stream_to_temp-Quiet _ _)) λ contents.
          Meets-bind WithinQuota (Keeps-Quiet (check_fields-Quiet libs env user _ _ _ _)) λ p.
            Meets-bind WithinQuota (assert_can_store-Meets user.id _) λ _.
              Meets-bind WithinQuota
                (Meets-Quiet WithinQuota (send-Quiet libs env _ _ _ _) λ c p. p.0)
                λ sent.
                  Meets-bind WithinQuota
                    (Meets-Quiet WithinQuota (find_previous-Quiet _) λ c p. p.0)
                    λ prev.
                      Meets-bind WithinQuota (insert_file-Meets env _ _)
                        λ row. account_upload-Meets user.id sent row

upload_in-Keeps :
    (libs : Libs) (env : Env) (c : Context) (form : Form) → Keeps (upload_in libs env c form)
unfolding upload_in
upload_in-Keeps libs env c form = Meets-bind WithinQuota (Keeps-Quiet (Quiet-guard _ _)) λ _.
    Meets-bind WithinQuota (Keeps-Quiet (ensure_userbot_authorized-Quiet env)) λ _.
      Meets-bind WithinQuota (Keeps-Quiet (stream_to_temp-Quiet _ _)) λ contents.
        Meets-bind WithinQuota (Keeps-Quiet (Quiet-guard _ _)) λ _.
          Meets-bind WithinQuota (assert_can_store-Meets c.user.id _) λ _.
            Meets-bind WithinQuota
              (Meets-Quiet WithinQuota (upload_file_to_cloud-Quiet _ env _ _ _) λ c p. p.0)
              λ sent.
                Meets-bind WithinQuota (Meets-Quiet WithinQuota (find_previous-Quiet _) λ c p. p.0)
                  λ prev.
                    Meets-bind WithinQuota (Meets-Quiet WithinQuota (Quiet-or_fail _ _) λ c p. p.0)
                      λ owner.
                        Meets-bind WithinQuota (insert_file-Meets env _ _)
                          λ row. account_upload-Meets c.user.id sent row

pub public_upload_file-Keeps :
    (libs : Libs) (env : Env) (key : String) (form : Form)
    → Keeps (public_upload_file libs env key form)
unfolding public_upload_file
public_upload_file-Keeps libs env key form =
    Meets-bind WithinQuota (Keeps-Quiet (enforce_public_storage_rate-Quiet env _)) λ _.
      Meets-bind WithinQuota (Keeps-Quiet (load_public_storage_context-Quiet env key))
        λ c. upload_in-Keeps libs env c form

-- The deleted file's size leaves its owner's total.
release_owner :
    (owner n : ℕ)
    → eq_ℤ (neg n) (pos 0) ≡ true
    → (c : Core) → Unreleased (some owner) n c
    → WithinQuota c
release_owner owner n e c h =
    Unreleased-zero (some owner) c (subst (λ n. Unreleased (some owner) n c) (ground arith) h)

release-Meets :
    (owner : Option ℕ) (n : ℕ)
    → Meets WithinQuota (Unreleased owner n) (λ _. WithinQuota) (release owner n)
unfolding release
release-Meets none n = Meets-pure WithinQuota tt (Unreleased-none n)
release-Meets (some owner) n =
    Meets-bind WithinQuota
      (increment_used-Meets (Unreleased (some owner) n) owner (neg n) (release_owner owner n)
        (Unreleased-added owner n))
      λ _. Keeps-Quiet (modify_cache-Quiet _)

-- A live row that is found by a test and then deleted is what its owner's total has to lose.
AreFound : (File → Bool) → File → Core → Type 0
AreFound p row c = WithinQuota c × (find_if p c.files ≡ some row)

deleting-Meets :
    (env : Env) (p : File → Bool) (file_id : ℕ) (row : File)
    → ((f : File) → p f ≡ true → (f.id ≡ file_id) × (is_live f ≡ true))
    → Meets WithinQuota
        (AreFound p row)
        (λ _ c. Unreleased row.owner_user_id row.size_bytes c × (p row ≡ true))
        (modify λ w. record w { files = mark_deleted env.now file_id w.files })
unfolding AreFound
deleting-Meets env p file_id row h = Meets-modify WithinQuota _ λ w found. (
  deleted-Unreleased p env.now file_id row (core w) h found.1 found.0,
  find_if-holds p w.files row found.1,
)

or_found-Meets :
    (p : File → Bool) (o : Option File)
    → Meets WithinQuota
        (λ c. WithinQuota c × (find_if p c.files ≡ o))
        (λ row. AreFound p row)
        (or_fail o not_found)
unfolding AreFound
or_found-Meets p o =
    Meets-weaken WithinQuota (Meets-or_fail WithinQuota o not_found (λ c q. q.0))
      λ row c q. (q.0.0, ground (arith, q.0.1, q.1))

finding-Meets :
    (p : File → Bool)
    → Meets WithinQuota WithinQuota
        (λ row. AreFound p row)
        (gets (λ w. find_if p w.files) >>= λ o. or_fail o not_found)
finding-Meets p =
    Meets-bind WithinQuota (Meets-gets WithinQuota (λ c. find_if p c.files)) λ o. or_found-Meets p o

found-Quiet :
    {A : Type 0} (p : File → Bool) (row : File) {m : Handler A}
    → Quiet m
    → Meets WithinQuota (AreFound p row) (λ _. AreFound p row) m
unfolding AreFound
found-Quiet p row q = Meets-Quiet WithinQuota q λ c h. h.0

live_id :
    (file_id : ℕ) (f : File) → is_live_id file_id f ≡ true → (f.id ≡ file_id) × (is_live f ≡ true)
live_id file_id f h = ground arith

pub delete_file-Keeps :
    (env : Env) (user : CurrentUser) (file_id : ℕ) → Keeps (delete_file env user file_id)
unfolding delete_file get_file_for_user commit_deletion AreFound
delete_file-Keeps env user file_id =
    Meets-bind WithinQuota (Keeps-Quiet (ensure_userbot_authorized-Quiet env)) λ _.
      Meets-bind WithinQuota
        (Meets-bind WithinQuota (Meets-gets WithinQuota (λ c. find_if live c.files)) λ o.
          Meets-bind WithinQuota (or_found-Meets live o) λ row.
            Meets-bind WithinQuota (found-Quiet live row (Quiet-guard _ _))
              λ _. Meets-pure WithinQuota {Q = λ row. AreFound live row} row λ c h. h)
        λ row. Meets-bind WithinQuota (found-Quiet live row (cloud_of-Quiet row)) λ cloud.
          Meets-bind WithinQuota (found-Quiet live row (delete_file_message-Quiet env _ _)) λ _.
            Meets-bind WithinQuota (deleting-Meets env live file_id row (live_id file_id)) λ _.
              Meets-bind WithinQuota
                (Meets-assume WithinQuota (release-Meets row.owner_user_id row.size_bytes)
                  λ c h. h.0)
                λ _. Keeps-Quiet (modify_cache-Quiet _)
  where
    live : File → Bool
    live = is_live_id file_id

delete_in-Keeps : (env : Env) (c : Context) (file_id : ℕ) → Keeps (delete_in env c file_id)
unfolding delete_in get_file_in AreFound
delete_in-Keeps env c file_id = Meets-bind WithinQuota (Keeps-Quiet (Quiet-guard _ _)) λ _.
    Meets-bind WithinQuota (Keeps-Quiet (ensure_userbot_authorized-Quiet env)) λ _.
      Meets-bind WithinQuota (finding-Meets reached) λ row.
        Meets-bind WithinQuota (found-Quiet reached row (delete_file_message-Quiet env _ _)) λ _.
          Meets-bind WithinQuota (deleting-Meets env reached file_id row live) λ _.
            Meets-bind WithinQuota
              (Meets-assume WithinQuota
                (increment_used-Meets (Unreleased (some owner) row.size_bytes) owner
                  (neg row.size_bytes) (release_owner owner row.size_bytes)
                  (Unreleased-added owner row.size_bytes))
                λ d h. subst (λ o. Unreleased o row.size_bytes d) (owned row h.1) h.0)
              λ _. Keeps-Quiet (Quiet-bind (modify_cache-Quiet _) λ _. modify_cache-Quiet _)
  where
    reached : File → Bool
    reached f = in_scope_of c f && is_live_id file_id f

    owner : ℕ
    owner = c.key.owner_user_id

    live : (f : File) → reached f ≡ true → (f.id ≡ file_id) × (is_live f ≡ true)
    live f h = ground arith

    owned : (f : File) → reached f ≡ true → f.owner_user_id ≡ some owner
    owned f h = ground arith

pub public_delete_file-Keeps :
    (env : Env) (key : String) (file_id : ℕ) → Keeps (public_delete_file env key file_id)
unfolding public_delete_file
public_delete_file-Keeps env key file_id =
    Meets-bind WithinQuota (Keeps-Quiet (enforce_public_storage_rate-Quiet env _)) λ _.
      Meets-bind WithinQuota (Keeps-Quiet (load_public_storage_context-Quiet env key))
        λ c. delete_in-Keeps env c file_id

pub recompute_used-Keeps : (user : ℕ) → Keeps (recompute_used user)
unfolding recompute_used
recompute_used-Keeps user =
    Meets-bind WithinQuota (Meets-gets WithinQuota (λ c. live_bytes user c.files)) λ total.
      Meets-bind WithinQuota
        (Meets-modify WithinQuota {Q = WithinQuota} _ λ w p. after (core w) total p.0 p.1)
        λ _. Meets-pure WithinQuota total λ c p. p
  where
    after :
        (c : Core) (total : ℕ)
        → WithinQuota c
        → live_bytes user c.files ≡ total
        → WithinQuota (record c { users = set_used user (pos total) c.users })
    after c total within e =
        subst (λ n. WithinQuota (record c { users = set_used user (pos n) c.users })) e
          (recomputed user c within)
