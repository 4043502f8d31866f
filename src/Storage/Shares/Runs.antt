-- ===== src/Storage/Shares/Runs.antt =====
-- What any run of requests leaves of the links of lcloud/api/shares.py.
use mathlib.Core.Path.{subst}
use lcloud.Base.{sym, List, [], ◌∷◌}
use lcloud.Storage.Session.{World, Handler, Env}
use lcloud.Storage.Upload.{Libs}
use lcloud.Storage.Shares.Spared.{
  Spares, Spares-Quiet, upload_file-Spares, public_upload_file-Spares, delete_file-Spares,
  public_delete_file-Spares, recompute_used-Spares,
}
use lcloud.Storage.Shares.Limits.{
  AreLimited, Limited, KeepsLimits, create_share-KeepsLimits, revoke_share-KeepsLimits,
  public_download-KeepsLimits,
}
use lcloud.Storage.Rules.{Meets-kept}
use lcloud.Storage.Rules.Silent.{
  list_files-Quiet, download_file-Quiet, get_quota-Quiet, list_versions-Quiet, list_shares-Quiet,
  list_clouds-Quiet, create_cloud-Quiet, disconnect_cloud-Quiet, create_storage_public_key-Quiet,
  list_storage_public_keys-Quiet, revoke_storage_public_key-Quiet, public_list_files-Quiet,
  public_download_file-Quiet,
}
use lcloud.Storage.Requests.{
  Request, upload, delete, download, versions, list, quota, my_clouds, public_upload, public_delete,
  public_read, public_list, share, list_shares, unshare, follow, new_key, list_keys, revoke_key,
  connect, disconnect, recompute, serve, serve_all,
}

spared :
    {A : Type 0} {m : Handler A}
    → Spares m
    → (w : World) → AreLimited w.shares
    → AreLimited (m w).1.shares
spared k w h = subst AreLimited (sym (k.same w)) h

kept :
    {A : Type 0} {m : Handler A}
    → KeepsLimits m
    → (w : World) → AreLimited w.shares
    → AreLimited (m w).1.shares
kept k w h = Meets-kept Limited k w h

serve-AreLimited :
    (libs : Libs) (env : Env) (r : Request) (w : World)
    → AreLimited w.shares
    → AreLimited (serve libs env r w).shares
unfolding serve
serve-AreLimited libs env (upload user c form) w h =
    spared (upload_file-Spares libs env user c form) w h
serve-AreLimited libs env (delete user id) w h = spared (delete_file-Spares env user id) w h
serve-AreLimited libs env (download user id) w h =
    spared (Spares-Quiet (download_file-Quiet env user id)) w h
serve-AreLimited libs env (versions user id) w h =
    spared (Spares-Quiet (list_versions-Quiet user id)) w h
serve-AreLimited libs env (list user c limit offset) w h =
    spared (Spares-Quiet (list_files-Quiet env user c limit offset)) w h
serve-AreLimited libs env (quota user) w h = spared (Spares-Quiet (get_quota-Quiet env user)) w h
serve-AreLimited libs env (my_clouds user) w h =
    spared (Spares-Quiet (list_clouds-Quiet env user)) w h
serve-AreLimited libs env (public_upload key form) w h =
    spared (public_upload_file-Spares libs env key form) w h
serve-AreLimited libs env (public_delete key id) w h =
    spared (public_delete_file-Spares env key id) w h
serve-AreLimited libs env (public_read key id) w h =
    spared (Spares-Quiet (public_download_file-Quiet env key id)) w h
serve-AreLimited libs env (public_list key limit offset) w h =
    spared (Spares-Quiet (public_list_files-Quiet env key limit offset)) w h
serve-AreLimited libs env (share base user id body) w h =
    kept (create_share-KeepsLimits env base user id body) w h
serve-AreLimited libs env (list_shares base user id) w h =
    spared (Spares-Quiet (list_shares-Quiet base user id)) w h
serve-AreLimited libs env (unshare user id) w h = kept (revoke_share-KeepsLimits env user id) w h
serve-AreLimited libs env (follow token) w h = kept (public_download-KeepsLimits env token) w h
serve-AreLimited libs env (new_key is_space user body) w h =
    spared (Spares-Quiet (create_storage_public_key-Quiet env is_space user body)) w h
serve-AreLimited libs env (list_keys user id key) w h =
    spared (Spares-Quiet (list_storage_public_keys-Quiet user id key)) w h
serve-AreLimited libs env (revoke_key user id) w h =
    spared (Spares-Quiet (revoke_storage_public_key-Quiet env user id)) w h
serve-AreLimited libs env (connect user name) w h =
    spared (Spares-Quiet (create_cloud-Quiet env user name)) w h
serve-AreLimited libs env (disconnect user id) w h =
    spared (Spares-Quiet (disconnect_cloud-Quiet env user id)) w h
serve-AreLimited libs env (recompute id) w h = spared (recompute_used-Spares id) w h

-- If at first the ids of the links ascend and no link's count of downloads is above its `max_downloads`,
-- then after any run of requests of the storage the same is so.
pub serve_all-AreLimited :
    (libs : Libs) (rs : List (Env × Request)) (w : World)
    → AreLimited w.shares
    → AreLimited (serve_all libs rs w).shares
unfolding serve_all
serve_all-AreLimited libs [] w h = h
serve_all-AreLimited libs (r ∷ rs) w h =
    serve_all-AreLimited libs rs _ (serve-AreLimited libs r.0 r.1 w h)
