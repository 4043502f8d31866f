-- ===== src/Storage/Quota/Runs.antt =====
-- What any run of requests leaves of the totals of lcloud/auth/storage_quota.py.
use lcloud.Base.{ℕ, String, List, [], ◌∷◌}
use lcloud.Storage.Session.{World, Handler, Env, CurrentUser}
use lcloud.Storage.Shares.{CreateShareIn, create_share, revoke_share, public_download}
use lcloud.Storage.Upload.{Libs}
use lcloud.Storage.Quota.Bounds.{WithinQuota}
use lcloud.Storage.Quota.Handlers.{
  Keeps, Keeps-Quiet, upload_file-Keeps, public_upload_file-Keeps, delete_file-Keeps,
  public_delete_file-Keeps, recompute_used-Keeps,
}
use lcloud.Storage.Rules.{core, Meets-bind, Meets-modify, Meets-kept}
use lcloud.Storage.Rules.Unchanged.{
  Quiet-gets, Quiet-or_fail, Quiet-guard, Quiet-pure, cloud_of-Quiet,
}
use lcloud.Storage.Rules.Silent.{
  list_files-Quiet, download_file-Quiet, get_quota-Quiet, list_versions-Quiet, list_shares-Quiet,
  list_clouds-Quiet, create_cloud-Quiet, disconnect_cloud-Quiet, create_storage_public_key-Quiet,
  list_storage_public_keys-Quiet, revoke_storage_public_key-Quiet, public_list_files-Quiet,
  public_download_file-Quiet, get_file_for_user-Quiet,
}
use lcloud.Storage.Requests.{
  Request, upload, delete, download, versions, list, quota, my_clouds, public_upload, public_delete,
  public_read, public_list, share, list_shares, unshare, follow, new_key, list_keys, revoke_key,
  connect, disconnect, recompute, serve, serve_all,
}

create_share-Keeps :
    (env : Env) (base : String) (user : CurrentUser) (id : ℕ) (body : CreateShareIn)
    → Keeps (create_share env base user id body)
unfolding create_share
create_share-Keeps env base user id body =
    Meets-bind WithinQuota (Keeps-Quiet (get_file_for_user-Quiet user id)) λ f.
      Meets-bind WithinQuota (Keeps-Quiet (Quiet-gets _)) λ s.
        Meets-bind WithinQuota (Meets-modify WithinQuota _ λ w p. p) λ _. Keeps-Quiet (Quiet-pure _)

revoke_share-Keeps : (env : Env) (user : CurrentUser) (id : ℕ) → Keeps (revoke_share env user id)
unfolding revoke_share
revoke_share-Keeps env user id = Meets-bind WithinQuota (Keeps-Quiet (Quiet-gets _)) λ o.
    Meets-bind WithinQuota (Keeps-Quiet (Quiet-or_fail o _)) λ s.
      Meets-bind WithinQuota (Keeps-Quiet (Quiet-guard _ _))
        λ _. Meets-modify WithinQuota _ λ w p. p

public_download-Keeps : (env : Env) (token : String) → Keeps (public_download env token)
unfolding public_download
public_download-Keeps env token = Meets-bind WithinQuota (Keeps-Quiet (Quiet-gets _)) λ o.
    Meets-bind WithinQuota (Keeps-Quiet (Quiet-or_fail o _)) λ s.
      Meets-bind WithinQuota (Keeps-Quiet (Quiet-guard _ _)) λ _.
        Meets-bind WithinQuota (Keeps-Quiet (Quiet-gets _)) λ o.
          Meets-bind WithinQuota (Keeps-Quiet (Quiet-or_fail o _)) λ f.
            Meets-bind WithinQuota (Keeps-Quiet (cloud_of-Quiet f)) λ cloud.
              Meets-bind WithinQuota (Meets-modify WithinQuota _ λ w p. p) λ _.
                Meets-bind WithinQuota (Keeps-Quiet (Quiet-guard _ _))
                  λ _. Keeps-Quiet (Quiet-pure _)

kept :
    {A : Type 0} {m : Handler A}
    → Keeps m
    → (w : World) → WithinQuota (core w)
    → WithinQuota (core (m w).1)
kept k w h = Meets-kept WithinQuota k w h

serve-WithinQuota :
    (libs : Libs) (env : Env) (r : Request) (w : World)
    → WithinQuota (core w)
    → WithinQuota (core (serve libs env r w))
unfolding serve
serve-WithinQuota libs env (upload user c form) w h =
    kept (upload_file-Keeps libs env user c form) w h
serve-WithinQuota libs env (delete user id) w h = kept (delete_file-Keeps env user id) w h
serve-WithinQuota libs env (download user id) w h =
    kept (Keeps-Quiet (download_file-Quiet env user id)) w h
serve-WithinQuota libs env (versions user id) w h =
    kept (Keeps-Quiet (list_versions-Quiet user id)) w h
serve-WithinQuota libs env (list user c limit offset) w h =
    kept (Keeps-Quiet (list_files-Quiet env user c limit offset)) w h
serve-WithinQuota libs env (quota user) w h = kept (Keeps-Quiet (get_quota-Quiet env user)) w h
serve-WithinQuota libs env (my_clouds user) w h =
    kept (Keeps-Quiet (list_clouds-Quiet env user)) w h
serve-WithinQuota libs env (public_upload key form) w h =
    kept (public_upload_file-Keeps libs env key form) w h
serve-WithinQuota libs env (public_delete key id) w h =
    kept (public_delete_file-Keeps env key id) w h
serve-WithinQuota libs env (public_read key id) w h =
    kept (Keeps-Quiet (public_download_file-Quiet env key id)) w h
serve-WithinQuota libs env (public_list key limit offset) w h =
    kept (Keeps-Quiet (public_list_files-Quiet env key limit offset)) w h
serve-WithinQuota libs env (share base user id body) w h =
    kept (create_share-Keeps env base user id body) w h
serve-WithinQuota libs env (list_shares base user id) w h =
    kept (Keeps-Quiet (list_shares-Quiet base user id)) w h
serve-WithinQuota libs env (unshare user id) w h = kept (revoke_share-Keeps env user id) w h
serve-WithinQuota libs env (follow token) w h = kept (public_download-Keeps env token) w h
serve-WithinQuota libs env (new_key is_space user body) w h =
    kept (Keeps-Quiet (create_storage_public_key-Quiet env is_space user body)) w h
serve-WithinQuota libs env (list_keys user id key) w h =
    kept (Keeps-Quiet (list_storage_public_keys-Quiet user id key)) w h
serve-WithinQuota libs env (revoke_key user id) w h =
    kept (Keeps-Quiet (revoke_storage_public_key-Quiet env user id)) w h
serve-WithinQuota libs env (connect user name) w h =
    kept (Keeps-Quiet (create_cloud-Quiet env user name)) w h
serve-WithinQuota libs env (disconnect user id) w h =
    kept (Keeps-Quiet (disconnect_cloud-Quiet env user id)) w h
serve-WithinQuota libs env (recompute id) w h = kept (recompute_used-Keeps id) w h

-- If at first each user's live files are within its total, and the total within its quota, then after any
-- run of requests of the storage (uploads, deletions and the rest, by a user, by a publishable key or by a
-- link, each one step) they still are: the live files of a user come to no more than its total, and that to
-- no more than its quota.
pub serve_all-WithinQuota :
    (libs : Libs) (rs : List (Env × Request)) (w : World)
    → WithinQuota (core w)
    → WithinQuota (core (serve_all libs rs w))
unfolding serve_all
serve_all-WithinQuota libs [] w h = h
serve_all-WithinQuota libs (r ∷ rs) w h =
    serve_all-WithinQuota libs rs _ (serve-WithinQuota libs r.0 r.1 w h)
