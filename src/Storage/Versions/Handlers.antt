-- ===== src/Storage/Versions/Handlers.antt =====
-- The handlers of the storage keep the order of the rows of lcloud/api/versions.py.
use lcloud.Base.{ℕ, String, Bool, true, false, Option, none, some, if◌then◌else◌}
use lcloud.Base.Int.{ℤ, pos, eq_ℤ}
use lcloud.Storage.Rows.{File}
use lcloud.Storage.Session.{Env, CurrentUser, Context}
use lcloud.Storage.Quota.{increment_used, used_of, add_and_read, recompute_used}
use lcloud.Storage.Upload.{Libs, Form, SentFile, account_upload, upload_file}
use lcloud.Storage.Files.{delete_file, commit_deletion, release}
use lcloud.Storage.PublicFiles.{
  upload_in, public_upload_file, delete_in, public_delete_file, get_file_in, id_of,
}
use lcloud.Storage.Versions.Chain.{Below}
use lcloud.Storage.Versions.Kept.{
  InOrder, KeepsOrder, KeepsOrder-Quiet, IsOlder, file_id, find_previous-InOrder,
  insert_file-InOrder, replaced_by-Below, ReplaceEarlier-mark_deleted,
}
use lcloud.Accounts.{next_id}
use lcloud.Storage.Rules.{Core, Meets-bind, Meets-Quiet, Meets-assume, Meets-modify}
use lcloud.Storage.Rules.Unchanged.{
  Quiet-bind, Quiet-gets, Quiet-or_fail, Quiet-guard, Quiet-pure, Quiet-find, modify_cache-Quiet,
  ensure_userbot_authorized-Quiet, get_cloud_for_user-Quiet, cloud_of-Quiet,
  delete_file_message-Quiet, enforce_public_storage_rate-Quiet, stream_to_temp-Quiet,
}
use lcloud.Storage.Rules.Steps.{
  check_fields-Quiet, upload_file_to_cloud-Quiet, send-Quiet, load_public_storage_context-Quiet,
  get_used_and_quota-Quiet, assert_can_store-Quiet,
}
use lcloud.Storage.Rules.Silent.{get_file_for_user-Quiet}
use lcloud.Storage.Requests.{}

increment_used-InOrder : (user : ℕ) (d : ℤ) → KeepsOrder (increment_used user d)
unfolding increment_used used_of add_and_read
increment_used-InOrder user d = after (eq_ℤ d (pos 0))
  where
    after : (b : Bool) → KeepsOrder (if b then used_of user else add_and_read user d)
    after true = KeepsOrder-Quiet (Quiet-bind (get_used_and_quota-Quiet user) λ _. Quiet-pure _)
    after false = Meets-bind InOrder (Meets-modify InOrder {Q = InOrder} _ λ w h. h) λ _.
        KeepsOrder-Quiet
          (Quiet-bind (Quiet-gets _) λ _. Quiet-bind (Quiet-or_fail _ _) λ _. Quiet-pure _)

account_upload-InOrder :
    (user : ℕ) (sent : SentFile) (row : File) → KeepsOrder (account_upload user sent row)
unfolding account_upload
account_upload-InOrder user sent row = Meets-bind InOrder (increment_used-InOrder user _) λ _.
    KeepsOrder-Quiet
      (Quiet-bind (modify_cache-Quiet _) λ _. Quiet-bind (modify_cache-Quiet _) λ _. Quiet-pure _)

pub upload_file-InOrder :
    (libs : Libs) (env : Env) (user : CurrentUser) (cloud_id : ℕ) (form : Form)
    → KeepsOrder (upload_file libs env user cloud_id form)
unfolding upload_file
upload_file-InOrder libs env user cloud_id form =
    Meets-bind InOrder (KeepsOrder-Quiet (ensure_userbot_authorized-Quiet env)) λ _.
      Meets-bind InOrder (KeepsOrder-Quiet (get_cloud_for_user-Quiet cloud_id user)) λ cloud.
        Meets-bind InOrder (KeepsOrder-Quiet (stream_to_temp-Quiet _ _)) λ contents.
          Meets-bind InOrder (KeepsOrder-Quiet (check_fields-Quiet libs env user _ _ _ _)) λ p.
            Meets-bind InOrder (KeepsOrder-Quiet (assert_can_store-Quiet user.id _)) λ _.
              Meets-bind InOrder (KeepsOrder-Quiet (send-Quiet libs env _ _ _ _)) λ sent.
                Meets-bind InOrder (find_previous-InOrder _) λ prev.
                  Meets-bind InOrder
                    (Meets-assume InOrder (insert_file-InOrder env _ _)
                      λ c h. (h.0, replaced_by-Below user prev c h.1))
                    λ row. account_upload-InOrder user.id sent row

id_of-Below :
    (prev : Option File) (c : Core) → IsOlder prev c → Below (id_of prev) (next_id file_id c.files)
id_of-Below none c h = tt
id_of-Below (some f) c h = h

upload_in-InOrder :
    (libs : Libs) (env : Env) (c : Context) (form : Form) → KeepsOrder (upload_in libs env c form)
unfolding upload_in
upload_in-InOrder libs env c form = Meets-bind InOrder (KeepsOrder-Quiet (Quiet-guard _ _)) λ _.
    Meets-bind InOrder (KeepsOrder-Quiet (ensure_userbot_authorized-Quiet env)) λ _.
      Meets-bind InOrder (KeepsOrder-Quiet (stream_to_temp-Quiet _ _)) λ contents.
        Meets-bind InOrder (KeepsOrder-Quiet (Quiet-guard _ _)) λ _.
          Meets-bind InOrder (KeepsOrder-Quiet (assert_can_store-Quiet c.user.id _)) λ _.
            Meets-bind InOrder (KeepsOrder-Quiet (upload_file_to_cloud-Quiet _ env _ _ _)) λ sent.
              Meets-bind InOrder (find_previous-InOrder _) λ prev.
                Meets-bind InOrder (Meets-Quiet InOrder (Quiet-or_fail _ _) λ c h. h.0) λ owner.
                  Meets-bind InOrder
                    (Meets-assume InOrder (insert_file-InOrder env _ _)
                      λ c h. (h.0, id_of-Below prev c h.1))
                    λ row. account_upload-InOrder c.user.id sent row

pub public_upload_file-InOrder :
    (libs : Libs) (env : Env) (key : String) (form : Form)
    → KeepsOrder (public_upload_file libs env key form)
unfolding public_upload_file
public_upload_file-InOrder libs env key form =
    Meets-bind InOrder (KeepsOrder-Quiet (enforce_public_storage_rate-Quiet env _)) λ _.
      Meets-bind InOrder (KeepsOrder-Quiet (load_public_storage_context-Quiet env key))
        λ c. upload_in-InOrder libs env c form

release-InOrder : (owner : Option ℕ) (n : ℕ) → KeepsOrder (release owner n)
unfolding release
release-InOrder none n = KeepsOrder-Quiet (Quiet-pure tt)
release-InOrder (some owner) n =
    Meets-bind InOrder (increment_used-InOrder owner _) λ _. KeepsOrder-Quiet (modify_cache-Quiet _)

pub delete_file-InOrder :
    (env : Env) (user : CurrentUser) (id : ℕ) → KeepsOrder (delete_file env user id)
unfolding delete_file commit_deletion
delete_file-InOrder env user id =
    Meets-bind InOrder (KeepsOrder-Quiet (ensure_userbot_authorized-Quiet env)) λ _.
      Meets-bind InOrder (KeepsOrder-Quiet (get_file_for_user-Quiet user id)) λ row.
        Meets-bind InOrder (KeepsOrder-Quiet (cloud_of-Quiet row)) λ cloud.
          Meets-bind InOrder (KeepsOrder-Quiet (delete_file_message-Quiet env _ _)) λ _.
            Meets-bind InOrder
              (Meets-modify InOrder {Q = InOrder} _
                λ w h. ReplaceEarlier-mark_deleted env.now _ w.files h)
              λ _.
                Meets-bind InOrder (release-InOrder row.owner_user_id _)
                  λ _. KeepsOrder-Quiet (modify_cache-Quiet _)

delete_in-InOrder : (env : Env) (c : Context) (id : ℕ) → KeepsOrder (delete_in env c id)
unfolding delete_in get_file_in
delete_in-InOrder env c id = Meets-bind InOrder (KeepsOrder-Quiet (Quiet-guard _ _)) λ _.
    Meets-bind InOrder (KeepsOrder-Quiet (ensure_userbot_authorized-Quiet env)) λ _.
      Meets-bind InOrder (KeepsOrder-Quiet (Quiet-find _ _)) λ row.
        Meets-bind InOrder (KeepsOrder-Quiet (delete_file_message-Quiet env _ _)) λ _.
          Meets-bind InOrder
            (Meets-modify InOrder {Q = InOrder} _
              λ w h. ReplaceEarlier-mark_deleted env.now _ w.files h)
            λ _.
              Meets-bind InOrder (increment_used-InOrder c.key.owner_user_id _)
                λ _. KeepsOrder-Quiet (Quiet-bind (modify_cache-Quiet _) λ _. modify_cache-Quiet _)

pub public_delete_file-InOrder :
    (env : Env) (key : String) (id : ℕ) → KeepsOrder (public_delete_file env key id)
unfolding public_delete_file
public_delete_file-InOrder env key id =
    Meets-bind InOrder (KeepsOrder-Quiet (enforce_public_storage_rate-Quiet env _)) λ _.
      Meets-bind InOrder (KeepsOrder-Quiet (load_public_storage_context-Quiet env key))
        λ c. delete_in-InOrder env c id

pub recompute_used-InOrder : (user : ℕ) → KeepsOrder (recompute_used user)
unfolding recompute_used
recompute_used-InOrder user = Meets-bind InOrder (KeepsOrder-Quiet (Quiet-gets _)) λ total.
    Meets-bind InOrder (Meets-modify InOrder {Q = InOrder} _ λ w h. h)
      λ _. KeepsOrder-Quiet (Quiet-pure total)
