-- ===== src/Storage/Requests.antt =====
-- The requests of the storage, and a run of them.
use lcloud.Base.{ℕ, String, Bool, Option, List, [], ◌∷◌}
use lcloud.Storage.Session.{World, Env, CurrentUser, Handler}
use lcloud.Storage.Quota.{recompute_used}
use lcloud.Storage.Upload.{Libs, Form, upload_file}
use lcloud.Storage.Files.{list_files, download_file, delete_file, get_quota}
use lcloud.Storage.PublicKeys.{
  StoragePublicKeyIn, create_storage_public_key, list_storage_public_keys,
  revoke_storage_public_key,
}
use lcloud.Storage.PublicFiles.{
  public_list_files, public_upload_file, public_download_file, public_delete_file,
}
use lcloud.Storage.Shares.{
  CreateShareIn, create_share, list_shares_for_file, revoke_share, public_download,
}
use lcloud.Storage.Versions.{list_versions}
use lcloud.Storage.Clouds.{list_clouds, create_cloud, disconnect_cloud}

-- A user's request, one by a publishable key or a link, and the recovery of a user's total.
pub data Request : Type 0 where
  upload : CurrentUser → ℕ → Form → Request
  delete download versions : CurrentUser → ℕ → Request
  list : CurrentUser → ℕ → ℕ → ℕ → Request
  quota my_clouds : CurrentUser → Request
  public_upload : String → Form → Request
  public_delete public_read : String → ℕ → Request
  public_list : String → ℕ → ℕ → Request
  share : String → CurrentUser → ℕ → CreateShareIn → Request
  list_shares : String → CurrentUser → ℕ → Request
  unshare : CurrentUser → ℕ → Request
  follow : String → Request
  new_key : (ℕ → Bool) → CurrentUser → StoragePublicKeyIn → Request
  list_keys : CurrentUser → Option ℕ → Option String → Request
  revoke_key : CurrentUser → ℕ → Request
  connect : CurrentUser → String → Request
  disconnect : CurrentUser → ℕ → Request
  recompute : ℕ → Request

-- The world that a handler leaves.
abbrev pub after : {A : Type 0} → Handler A → World → World
after m w = (m w).1

unfoldable pub serve : Libs → Env → Request → World → World
serve libs env (upload user cloud_id form) = after (upload_file libs env user cloud_id form)
serve libs env (delete user id) = after (delete_file env user id)
serve libs env (download user id) = after (download_file env user id)
serve libs env (versions user id) = after (list_versions user id)
serve libs env (list user cloud_id limit offset) = after (list_files env user cloud_id limit offset)
serve libs env (quota user) = after (get_quota env user)
serve libs env (my_clouds user) = after (list_clouds env user)
serve libs env (public_upload key form) = after (public_upload_file libs env key form)
serve libs env (public_delete key id) = after (public_delete_file env key id)
serve libs env (public_read key id) = after (public_download_file env key id)
serve libs env (public_list key limit offset) = after (public_list_files env key limit offset)
serve libs env (share base user id body) = after (create_share env base user id body)
serve libs env (list_shares base user id) = after (list_shares_for_file base user id)
serve libs env (unshare user id) = after (revoke_share env user id)
serve libs env (follow token) = after (public_download env token)
serve libs env (new_key is_space user body) =
    after (create_storage_public_key env is_space user body)
serve libs env (list_keys user id key) = after (list_storage_public_keys user id key)
serve libs env (revoke_key user id) = after (revoke_storage_public_key env user id)
serve libs env (connect user name) = after (create_cloud env user name)
serve libs env (disconnect user id) = after (disconnect_cloud env user id)
serve libs env (recompute id) = after (recompute_used id)

-- The requests come one after the other, each with what the outside gives it.
unfoldable pub serve_all : Libs → List (Env × Request) → World → World
serve_all libs [] w = w
serve_all libs (r ∷ rs) w = serve_all libs rs (serve libs r.0 r.1 w)
