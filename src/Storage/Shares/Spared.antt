-- ===== src/Storage/Shares/Spared.antt =====
-- The requests of the storage that leave its links alone.
use lcloud.Base.{
  ℕ, String, ◌≡◌, refl, ◌∙◌, ap, Bool, true, false, Option, none, some, if◌then◌else◌,
}
use lcloud.Base.Int.{ℤ, pos, eq_ℤ}
use lcloud.Storage.Rows.{File}
use lcloud.Storage.Session.{
  World, Handler, Answer, ok, raise, Env, CurrentUser, Context, modify, ◌>>=◌,
}
use lcloud.Storage.Quota.{increment_used, used_of, add_and_read, recompute_used}
use lcloud.Storage.Upload.{Libs, Form, NewFile, SentFile, insert_file, account_upload, upload_file}
use lcloud.Storage.Files.{delete_file, commit_deletion, release}
use lcloud.Storage.PublicFiles.{
  upload_in, public_upload_file, delete_in, public_delete_file, get_file_in,
}
use lcloud.Storage.Rules.{Core, Quiet}
use lcloud.Storage.Rules.Unchanged.{
  Quiet-bind, Quiet-pure, Quiet-or_fail, Quiet-gets, Quiet-find, Quiet-guard, modify_cache-Quiet,
  ensure_userbot_authorized-Quiet, get_cloud_for_user-Quiet, cloud_of-Quiet,
  delete_file_message-Quiet, enforce_public_storage_rate-Quiet, stream_to_temp-Quiet,
}
use lcloud.Storage.Rules.Steps.{
  check_fields-Quiet, upload_file_to_cloud-Quiet, send-Quiet, find_previous-Quiet,
  load_public_storage_context-Quiet, get_used_and_quota-Quiet, assert_can_store-Quiet,
}
use lcloud.Storage.Rules.Silent.{get_file_for_user-Quiet}

-- The handler leaves the links as they are.
pub record Spares {A : Type 0} (m : Handler A) : Type 0 where
  pub same : (w : World) → (m w).1.shares ≡ w.shares

pub Spares-Quiet : {A : Type 0} {m : Handler A} → Quiet m → Spares m
Spares-Quiet q = record { same = λ w. ap (λ (c : Core). c.shares) (q.same w) }

Spares-bind :
    {A B : Type 0} {m : Handler A} {f : A → Handler B}
    → Spares m
    → ((a : A) → Spares (f a))
    → Spares (m >>= f)
unfolding ◌>>=◌
Spares-bind {A} {B} {m} {f} hm hf = record { same = λ w. after (m w) w (hm.same w) }
  where
    after :
        (r : Answer A × World) (w : World)
        → r.1.shares ≡ w.shares
        → (elim r.0 as (λ _. Answer B × World) [
          | ok a ↦ f a r.1
          | raise e ↦ (raise e, r.1)
        ]).1.shares
          ≡ w.shares
    after (ok a, w') w h = (hf a).same w' ∙ h
    after (raise e, w') w h = h

Spares-modify : (f : World → World) → ((w : World) → (f w).shares ≡ w.shares) → Spares (modify f)
unfolding modify
Spares-modify f h = record { same = h }

increment_used-Spares : (user : ℕ) (d : ℤ) → Spares (increment_used user d)
unfolding increment_used used_of add_and_read
increment_used-Spares user d = after (eq_ℤ d (pos 0))
  where
    after : (b : Bool) → Spares (if b then used_of user else add_and_read user d)
    after true = Spares-Quiet (Quiet-bind (get_used_and_quota-Quiet user) λ _. Quiet-pure _)
    after false = Spares-bind (Spares-modify _ λ w. refl) λ _.
        Spares-Quiet
          (Quiet-bind (Quiet-gets _) λ _. Quiet-bind (Quiet-or_fail _ _) λ _. Quiet-pure _)

insert_file-Spares : (env : Env) (r : Option ℕ) (n : NewFile) → Spares (insert_file env r n)
unfolding insert_file
insert_file-Spares env r n = Spares-bind (Spares-Quiet (Quiet-gets _)) λ row.
    Spares-bind (Spares-Quiet (Quiet-gets _)) λ _.
      Spares-bind (Spares-Quiet (Quiet-guard _ _))
        λ _. Spares-bind (Spares-modify _ λ w. refl) λ _. Spares-Quiet (Quiet-pure row)

account_upload-Spares :
    (user : ℕ) (sent : SentFile) (row : File) → Spares (account_upload user sent row)
unfolding account_upload
account_upload-Spares user sent row = Spares-bind (increment_used-Spares user _) λ _.
    Spares-Quiet
      (Quiet-bind (modify_cache-Quiet _) λ _. Quiet-bind (modify_cache-Quiet _) λ _. Quiet-pure _)

pub upload_file-Spares :
    (libs : Libs) (env : Env) (user : CurrentUser) (cloud_id : ℕ) (form : Form)
    → Spares (upload_file libs env user cloud_id form)
unfolding upload_file
upload_file-Spares libs env user cloud_id form =
    Spares-bind (Spares-Quiet (ensure_userbot_authorized-Quiet env)) λ _.
      Spares-bind (Spares-Quiet (get_cloud_for_user-Quiet cloud_id user)) λ cloud.
        Spares-bind (Spares-Quiet (stream_to_temp-Quiet _ _)) λ contents.
          Spares-bind (Spares-Quiet (check_fields-Quiet libs env user _ _ _ _)) λ p.
            Spares-bind (Spares-Quiet (assert_can_store-Quiet user.id _)) λ _.
              Spares-bind (Spares-Quiet (send-Quiet libs env _ _ _ _)) λ sent.
                Spares-bind (Spares-Quiet (find_previous-Quiet _)) λ prev.
                  Spares-bind (insert_file-Spares env _ _)
                    λ row. account_upload-Spares user.id sent row

upload_in-Spares :
    (libs : Libs) (env : Env) (c : Context) (form : Form) → Spares (upload_in libs env c form)
unfolding upload_in
upload_in-Spares libs env c form = Spares-bind (Spares-Quiet (Quiet-guard _ _)) λ _.
    Spares-bind (Spares-Quiet (ensure_userbot_authorized-Quiet env)) λ _.
      Spares-bind (Spares-Quiet (stream_to_temp-Quiet _ _)) λ contents.
        Spares-bind (Spares-Quiet (Quiet-guard _ _)) λ _.
          Spares-bind (Spares-Quiet (assert_can_store-Quiet c.user.id _)) λ _.
            Spares-bind (Spares-Quiet (upload_file_to_cloud-Quiet _ env _ _ _)) λ sent.
              Spares-bind (Spares-Quiet (find_previous-Quiet _)) λ prev.
                Spares-bind (Spares-Quiet (Quiet-or_fail _ _)) λ owner.
                  Spares-bind (insert_file-Spares env _ _)
                    λ row. account_upload-Spares c.user.id sent row

pub public_upload_file-Spares :
    (libs : Libs) (env : Env) (key : String) (form : Form)
    → Spares (public_upload_file libs env key form)
unfolding public_upload_file
public_upload_file-Spares libs env key form =
    Spares-bind (Spares-Quiet (enforce_public_storage_rate-Quiet env _)) λ _.
      Spares-bind (Spares-Quiet (load_public_storage_context-Quiet env key))
        λ c. upload_in-Spares libs env c form

release-Spares : (owner : Option ℕ) (n : ℕ) → Spares (release owner n)
unfolding release
release-Spares none n = Spares-Quiet (Quiet-pure tt)
release-Spares (some owner) n =
    Spares-bind (increment_used-Spares owner _) λ _. Spares-Quiet (modify_cache-Quiet _)

pub delete_file-Spares :
    (env : Env) (user : CurrentUser) (id : ℕ) → Spares (delete_file env user id)
unfolding delete_file commit_deletion
delete_file-Spares env user id =
    Spares-bind (Spares-Quiet (ensure_userbot_authorized-Quiet env)) λ _.
      Spares-bind (Spares-Quiet (get_file_for_user-Quiet user id)) λ row.
        Spares-bind (Spares-Quiet (cloud_of-Quiet row)) λ cloud.
          Spares-bind (Spares-Quiet (delete_file_message-Quiet env _ _)) λ _.
            Spares-bind (Spares-modify _ λ w. refl) λ _.
              Spares-bind (release-Spares row.owner_user_id _)
                λ _. Spares-Quiet (modify_cache-Quiet _)

delete_in-Spares : (env : Env) (c : Context) (id : ℕ) → Spares (delete_in env c id)
unfolding delete_in get_file_in
delete_in-Spares env c id = Spares-bind (Spares-Quiet (Quiet-guard _ _)) λ _.
    Spares-bind (Spares-Quiet (ensure_userbot_authorized-Quiet env)) λ _.
      Spares-bind (Spares-Quiet (Quiet-find _ _)) λ row.
        Spares-bind (Spares-Quiet (delete_file_message-Quiet env _ _)) λ _.
          Spares-bind (Spares-modify _ λ w. refl) λ _.
            Spares-bind (increment_used-Spares c.key.owner_user_id _)
              λ _. Spares-Quiet (Quiet-bind (modify_cache-Quiet _) λ _. modify_cache-Quiet _)

pub public_delete_file-Spares :
    (env : Env) (key : String) (id : ℕ) → Spares (public_delete_file env key id)
unfolding public_delete_file
public_delete_file-Spares env key id =
    Spares-bind (Spares-Quiet (enforce_public_storage_rate-Quiet env _)) λ _.
      Spares-bind (Spares-Quiet (load_public_storage_context-Quiet env key))
        λ c. delete_in-Spares env c id

pub recompute_used-Spares : (user : ℕ) → Spares (recompute_used user)
unfolding recompute_used
recompute_used-Spares user =
    Spares-bind (Spares-Quiet (Quiet-gets _))
      λ total. Spares-bind (Spares-modify _ λ w. refl) λ _. Spares-Quiet (Quiet-pure total)
