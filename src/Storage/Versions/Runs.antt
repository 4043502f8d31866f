-- ===== src/Storage/Versions/Runs.antt =====
-- `list_versions` of lcloud/api/versions.py after any run of requests of the storage.
use lcloud.Base.{ℕ, String, ◌≡◌, true, some, List, [], ◌∷◌, find_if, ◌==◌}
use lcloud.Storage.Rows.{File}
use lcloud.Storage.Session.{World, Handler, Env, CurrentUser, ok, may_access}
use lcloud.Storage.Upload.{Libs}
use lcloud.Storage.PublicFiles.{}
use lcloud.Storage.Shares.{CreateShareIn, create_share, revoke_share, public_download}
use lcloud.Storage.Versions.{list_versions}
use lcloud.Storage.Versions.Chain.{ReplaceEarlier}
use lcloud.Storage.Versions.Kept.{InOrder, KeepsOrder, KeepsOrder-Quiet}
use lcloud.Storage.Versions.Whole.{IsVersion, AreVersions, has, list_versions-whole}
use lcloud.Storage.Rules.{core, Meets-bind, Meets-modify, Meets-kept}
use lcloud.Storage.Rules.Unchanged.{
  Quiet-gets, Quiet-or_fail, Quiet-guard, Quiet-pure, cloud_of-Quiet,
}
use lcloud.Storage.Rules.Steps.{}
use lcloud.Storage.Rules.Silent.{
  list_files-Quiet, download_file-Quiet, get_quota-Quiet, list_versions-Quiet, list_shares-Quiet,
  list_clouds-Quiet, create_cloud-Quiet, disconnect_cloud-Quiet, create_storage_public_key-Quiet,
  list_storage_public_keys-Quiet, revoke_storage_public_key-Quiet, public_list_files-Quiet,
  public_download_file-Quiet, get_file_for_user-Quiet,
}
use lcloud.Storage.Requests.{
  Request, upload, delete, download, versions, list, quota, my_clouds, public_upload, public_delete,
  public_read, public_list, share, list_shares, unshare, follow, new_key, list_keys, revoke_key,
  connect, disconnect, recompute, serve, serve_all,
}
use lcloud.Storage.Versions.Handlers.{
  upload_file-InOrder, public_upload_file-InOrder, delete_file-InOrder, public_delete_file-InOrder,
  recompute_used-InOrder,
}

create_share-InOrder :
    (env : Env) (base : String) (user : CurrentUser) (id : ℕ) (body : CreateShareIn)
    → KeepsOrder (create_share env base user id body)
unfolding create_share
create_share-InOrder env base user id body =
    Meets-bind InOrder (KeepsOrder-Quiet (get_file_for_user-Quiet user id)) λ f.
      Meets-bind InOrder (KeepsOrder-Quiet (Quiet-gets _)) λ s.
        Meets-bind InOrder (Meets-modify InOrder _ λ w p. p) λ _. KeepsOrder-Quiet (Quiet-pure _)

revoke_share-InOrder :
    (env : Env) (user : CurrentUser) (id : ℕ) → KeepsOrder (revoke_share env user id)
unfolding revoke_share
revoke_share-InOrder env user id = Meets-bind InOrder (KeepsOrder-Quiet (Quiet-gets _)) λ o.
    Meets-bind InOrder (KeepsOrder-Quiet (Quiet-or_fail o _)) λ s.
      Meets-bind InOrder (KeepsOrder-Quiet (Quiet-guard _ _)) λ _. Meets-modify InOrder _ λ w p. p

public_download-InOrder : (env : Env) (token : String) → KeepsOrder (public_download env token)
unfolding public_download
public_download-InOrder env token = Meets-bind InOrder (KeepsOrder-Quiet (Quiet-gets _)) λ o.
    Meets-bind InOrder (KeepsOrder-Quiet (Quiet-or_fail o _)) λ s.
      Meets-bind InOrder (KeepsOrder-Quiet (Quiet-guard _ _)) λ _.
        Meets-bind InOrder (KeepsOrder-Quiet (Quiet-gets _)) λ o.
          Meets-bind InOrder (KeepsOrder-Quiet (Quiet-or_fail o _)) λ f.
            Meets-bind InOrder (KeepsOrder-Quiet (cloud_of-Quiet f)) λ cloud.
              Meets-bind InOrder (Meets-modify InOrder _ λ w p. p) λ _.
                Meets-bind InOrder (KeepsOrder-Quiet (Quiet-guard _ _))
                  λ _. KeepsOrder-Quiet (Quiet-pure _)

kept :
    {A : Type 0} {m : Handler A}
    → KeepsOrder m
    → (w : World) → InOrder (core w)
    → InOrder (core (m w).1)
kept k w h = Meets-kept InOrder k w h

serve-InOrder :
    (libs : Libs) (env : Env) (r : Request) (w : World)
    → InOrder (core w)
    → InOrder (core (serve libs env r w))
unfolding serve
serve-InOrder libs env (upload user c form) w h =
    kept (upload_file-InOrder libs env user c form) w h
serve-InOrder libs env (delete user id) w h = kept (delete_file-InOrder env user id) w h
serve-InOrder libs env (download user id) w h =
    kept (KeepsOrder-Quiet (download_file-Quiet env user id)) w h
serve-InOrder libs env (versions user id) w h =
    kept (KeepsOrder-Quiet (list_versions-Quiet user id)) w h
serve-InOrder libs env (list user c limit offset) w h =
    kept (KeepsOrder-Quiet (list_files-Quiet env user c limit offset)) w h
serve-InOrder libs env (quota user) w h = kept (KeepsOrder-Quiet (get_quota-Quiet env user)) w h
serve-InOrder libs env (my_clouds user) w h =
    kept (KeepsOrder-Quiet (list_clouds-Quiet env user)) w h
serve-InOrder libs env (public_upload key form) w h =
    kept (public_upload_file-InOrder libs env key form) w h
serve-InOrder libs env (public_delete key id) w h = kept (public_delete_file-InOrder env key id) w h
serve-InOrder libs env (public_read key id) w h =
    kept (KeepsOrder-Quiet (public_download_file-Quiet env key id)) w h
serve-InOrder libs env (public_list key limit offset) w h =
    kept (KeepsOrder-Quiet (public_list_files-Quiet env key limit offset)) w h
serve-InOrder libs env (share base user id body) w h =
    kept (create_share-InOrder env base user id body) w h
serve-InOrder libs env (list_shares base user id) w h =
    kept (KeepsOrder-Quiet (list_shares-Quiet base user id)) w h
serve-InOrder libs env (unshare user id) w h = kept (revoke_share-InOrder env user id) w h
serve-InOrder libs env (follow token) w h = kept (public_download-InOrder env token) w h
serve-InOrder libs env (new_key is_space user body) w h =
    kept (KeepsOrder-Quiet (create_storage_public_key-Quiet env is_space user body)) w h
serve-InOrder libs env (list_keys user id key) w h =
    kept (KeepsOrder-Quiet (list_storage_public_keys-Quiet user id key)) w h
serve-InOrder libs env (revoke_key user id) w h =
    kept (KeepsOrder-Quiet (revoke_storage_public_key-Quiet env user id)) w h
serve-InOrder libs env (connect user name) w h =
    kept (KeepsOrder-Quiet (create_cloud-Quiet env user name)) w h
serve-InOrder libs env (disconnect user id) w h =
    kept (KeepsOrder-Quiet (disconnect_cloud-Quiet env user id)) w h
serve-InOrder libs env (recompute id) w h = kept (recompute_used-InOrder id) w h

serve_all-InOrder :
    (libs : Libs) (rs : List (Env × Request)) (w : World)
    → InOrder (core w)
    → InOrder (core (serve_all libs rs w))
unfolding serve_all
serve_all-InOrder libs [] w h = h
serve_all-InOrder libs (r ∷ rs) w h = serve_all-InOrder libs rs _ (serve-InOrder libs r.0 r.1 w h)

-- If at first each row replaces a row with a smaller id, then after any run of requests of the storage
-- `list_versions` answers a user who may use the file: with the file itself, every row that its
-- `replaces_file_id` leads back to, however many, and every row of the table that replaces it, each known by
-- its id, and with no other row.
pub list_versions-serve_all :
    (libs : Libs) (rs : List (Env × Request)) (start : World) (user : CurrentUser) (id : ℕ)
    (anchor f : File)
    → ReplaceEarlier start.files
    → let w = serve_all libs rs start in
      find_if (λ (x : File). x.id == id) w.files ≡ some anchor
      → may_access user anchor.owner_user_id ≡ true
      → IsVersion w.files anchor f
      → (rows : List File) × ((list_versions user id w ≡ (ok rows, w))
          × (AreVersions w.files anchor rows × (has f rows ≡ true)))
list_versions-serve_all libs rs start user id anchor f h e may v =
    list_versions-whole user id anchor f (serve_all libs rs start) e may
      (serve_all-InOrder libs rs start h) v
