-- ===== src/Storage/Rules/Silent.antt =====
-- The requests of the storage that leave its users, files and shares alone.
use lcloud.Base.{ℕ, String, refl, Bool, true, false, Option, none, some, List, ◌≡◌, if◌then◌else◌}
use lcloud.Base.Int.{ℤ}
use lcloud.Db.Rows.{JsonDatabase}
use lcloud.Storage.Session.{World, Handler, Env, CurrentUser, Body, pure}
use lcloud.Storage.Files.{list_files, download_file, get_quota, get_file_for_user, get_any_file}
use lcloud.Storage.PublicKeys.{
  StoragePublicKeyIn, create_storage_public_key, list_storage_public_keys,
  revoke_storage_public_key, scope_database, user_database, cloud_with, key_cloud,
  get_cloud_for_owner,
}
use lcloud.Storage.PublicFiles.{public_list_files, public_download_file, get_file_in}
use lcloud.Storage.Shares.{list_shares_for_file}
use lcloud.Storage.Versions.{list_versions}
use lcloud.Storage.Clouds.{
  list_clouds, create_cloud, disconnect_cloud, clear_marker, delete_cloud_row,
}
use lcloud.Storage.Rules.{Quiet, core}
use lcloud.Storage.Rules.Unchanged.{
  Quiet-bind, Quiet-pure, Quiet-or_fail, Quiet-gets, Quiet-find, Quiet-guard, Quiet-modify,
  modify_cache-Quiet, cache_get-Quiet, cache_set-Quiet, ensure_userbot_authorized-Quiet,
  get_cloud_for_user-Quiet, cloud_of-Quiet, enforce_public_storage_rate-Quiet,
}
use lcloud.Storage.Rules.Steps.{get_used_and_quota-Quiet, load_public_storage_context-Quiet}

-- A cached body, or one that is made.
cached-Quiet :
    (cached : Option Body) {m : Handler Body}
    → Quiet m
    → Quiet (elim cached as (λ _. Handler Body) [ some body ↦ pure body | none ↦ m ])
cached-Quiet none h = h
cached-Quiet (some body) h = Quiet-pure body

pub list_files-Quiet :
    (env : Env) (user : CurrentUser) (id limit offset : ℕ)
    → Quiet (list_files env user id limit offset)
unfolding list_files
list_files-Quiet env user id limit offset = Quiet-bind (get_cloud_for_user-Quiet _ _) λ cloud.
    Quiet-bind (cache_get-Quiet _ _) λ cached.
      cached-Quiet cached
        (Quiet-bind (Quiet-gets _) λ _. Quiet-bind (cache_set-Quiet _ _ _ _ _) λ _. Quiet-pure _)

pub get_file_for_user-Quiet : (user : CurrentUser) (id : ℕ) → Quiet (get_file_for_user user id)
unfolding get_file_for_user
get_file_for_user-Quiet user id =
    Quiet-bind (Quiet-gets _)
      λ _. Quiet-bind (Quiet-or_fail _ _) λ _. Quiet-bind (Quiet-guard _ _) λ _. Quiet-pure _

get_any_file-Quiet : (user : CurrentUser) (id : ℕ) → Quiet (get_any_file user id)
unfolding get_any_file
get_any_file-Quiet user id =
    Quiet-bind (Quiet-gets _)
      λ _. Quiet-bind (Quiet-or_fail _ _) λ _. Quiet-bind (Quiet-guard _ _) λ _. Quiet-pure _

pub download_file-Quiet :
    (env : Env) (user : CurrentUser) (id : ℕ) → Quiet (download_file env user id)
unfolding download_file
download_file-Quiet env user id = Quiet-bind (ensure_userbot_authorized-Quiet _) λ _.
    Quiet-bind (get_file_for_user-Quiet _ _) λ _. Quiet-bind (cloud_of-Quiet _) λ _. Quiet-pure _

pub get_quota-Quiet : (env : Env) (user : CurrentUser) → Quiet (get_quota env user)
unfolding get_quota
get_quota-Quiet env user = Quiet-bind (cache_get-Quiet _ _) λ cached. cached-Quiet cached (
    Quiet-bind (get_used_and_quota-Quiet _)
      λ _. Quiet-bind (cache_set-Quiet _ _ _ _ _) λ _. Quiet-pure _)

pub list_versions-Quiet : (user : CurrentUser) (id : ℕ) → Quiet (list_versions user id)
unfolding list_versions
list_versions-Quiet user id = Quiet-bind (get_any_file-Quiet _ _) λ _. Quiet-gets _

pub list_shares-Quiet :
    (base : String) (user : CurrentUser) (id : ℕ) → Quiet (list_shares_for_file base user id)
unfolding list_shares_for_file
list_shares-Quiet base user id = Quiet-bind (get_any_file-Quiet _ _) λ _. Quiet-gets _

pub list_clouds-Quiet : (env : Env) (user : CurrentUser) → Quiet (list_clouds env user)
unfolding list_clouds
list_clouds-Quiet env user = Quiet-bind (cache_get-Quiet _ _) λ cached.
    cached-Quiet cached
      (Quiet-bind (Quiet-gets _) λ _. Quiet-bind (cache_set-Quiet _ _ _ _ _) λ _. Quiet-pure _)

pub create_cloud-Quiet :
    (env : Env) (user : CurrentUser) (name : String) → Quiet (create_cloud env user name)
unfolding create_cloud
create_cloud-Quiet env user name = Quiet-bind (ensure_userbot_authorized-Quiet _) λ _.
    Quiet-bind (Quiet-or_fail _ _) λ _. Quiet-bind (Quiet-or_fail _ _) λ _.
      Quiet-bind (Quiet-modify _ λ w. refl) λ _. Quiet-bind (Quiet-gets _) λ _.
        Quiet-bind (Quiet-gets _) λ _. Quiet-bind (Quiet-guard _ _) λ _.
          Quiet-bind (Quiet-modify _ λ w. refl)
            λ _. Quiet-bind (modify_cache-Quiet _) λ _. Quiet-pure _

clear_marker-Quiet : (env : Env) (chat_id : ℤ) → Quiet (clear_marker env chat_id)
unfolding clear_marker
clear_marker-Quiet env chat_id = Quiet-modify _ λ w. after env.is_cleared w _
  where
    after :
        (b : Bool) (w : World) (cs : List ℤ)
        → core (if b then record w { marked = cs } else w) ≡ core w
    after true w cs = refl
    after false w cs = refl

delete_cloud_row-Quiet : (id : ℕ) → Quiet (delete_cloud_row id)
unfolding delete_cloud_row
delete_cloud_row-Quiet id =
    Quiet-bind (Quiet-gets _) λ _. Quiet-bind (Quiet-guard _ _) λ _. Quiet-modify _ λ w. refl

pub disconnect_cloud-Quiet :
    (env : Env) (user : CurrentUser) (id : ℕ) → Quiet (disconnect_cloud env user id)
unfolding disconnect_cloud
disconnect_cloud-Quiet env user id = Quiet-bind (ensure_userbot_authorized-Quiet _) λ _.
    Quiet-bind (get_cloud_for_user-Quiet _ _) λ _. Quiet-bind (clear_marker-Quiet _ _) λ _.
      Quiet-bind (delete_cloud_row-Quiet _)
        λ _. Quiet-bind (modify_cache-Quiet _) λ _. modify_cache-Quiet _

user_database-Quiet : (user : CurrentUser) (p : JsonDatabase → Bool) → Quiet (user_database user p)
unfolding user_database
user_database-Quiet user p =
    Quiet-bind (Quiet-gets _)
      λ _. Quiet-bind (Quiet-or_fail _ _) λ _. Quiet-bind (Quiet-guard _ _) λ _. Quiet-pure _

scope_database-Quiet :
    (user : CurrentUser) (id : Option ℕ) (key : Option String) → Quiet (scope_database user id key)
unfolding scope_database
scope_database-Quiet user none none = Quiet-pure _
scope_database-Quiet user (some id) none = Quiet-bind (user_database-Quiet _ _) λ _. Quiet-pure _
scope_database-Quiet user none (some key) = Quiet-bind (user_database-Quiet _ _) λ _. Quiet-pure _
scope_database-Quiet user (some id) (some key) =
    Quiet-bind (user_database-Quiet _ _) λ _. Quiet-bind (Quiet-guard _ _) λ _. Quiet-pure _

cloud_with-Quiet :
    (body : StoragePublicKeyIn) (database : Option JsonDatabase) → Quiet (cloud_with body database)
unfolding cloud_with
cloud_with-Quiet body none = Quiet-bind (Quiet-or_fail _ _) λ _. Quiet-pure _
cloud_with-Quiet body (some d) =
    Quiet-bind (Quiet-or_fail _ _) λ _. Quiet-bind (Quiet-guard _ _) λ _. Quiet-pure _

key_cloud-Quiet : (user : CurrentUser) (body : StoragePublicKeyIn) → Quiet (key_cloud user body)
unfolding key_cloud
key_cloud-Quiet user body =
    Quiet-bind (scope_database-Quiet _ _ _) λ database. cloud_with-Quiet body database

get_cloud_for_owner-Quiet : (id : ℕ) (user : CurrentUser) → Quiet (get_cloud_for_owner id user)
unfolding get_cloud_for_owner
get_cloud_for_owner-Quiet id user =
    Quiet-bind (Quiet-gets _)
      λ _. Quiet-bind (Quiet-or_fail _ _) λ _. Quiet-bind (Quiet-guard _ _) λ _. Quiet-pure _

pub create_storage_public_key-Quiet :
    (env : Env) (is_space : ℕ → Bool) (user : CurrentUser) (body : StoragePublicKeyIn)
    → Quiet (create_storage_public_key env is_space user body)
unfolding create_storage_public_key
create_storage_public_key-Quiet env is_space user body = Quiet-bind (Quiet-guard _ _) λ _.
    Quiet-bind (key_cloud-Quiet _ _) λ _. Quiet-bind (get_cloud_for_owner-Quiet _ _) λ _.
      Quiet-bind (Quiet-gets _) λ _. Quiet-bind (Quiet-guard _ _) λ _.
        Quiet-bind (Quiet-gets _) λ _. Quiet-bind (Quiet-gets _) λ _.
          Quiet-bind (Quiet-modify _ λ w. refl)
            λ _. Quiet-bind (modify_cache-Quiet _) λ _. Quiet-pure _

pub list_storage_public_keys-Quiet :
    (user : CurrentUser) (id : Option ℕ) (key : Option String)
    → Quiet (list_storage_public_keys user id key)
unfolding list_storage_public_keys
list_storage_public_keys-Quiet user id key =
    Quiet-bind (scope_database-Quiet _ _ _) λ _. Quiet-gets _

pub revoke_storage_public_key-Quiet :
    (env : Env) (user : CurrentUser) (id : ℕ) → Quiet (revoke_storage_public_key env user id)
unfolding revoke_storage_public_key
revoke_storage_public_key-Quiet env user id = Quiet-bind (Quiet-gets _) λ _.
    Quiet-bind (Quiet-or_fail _ _)
      λ _. Quiet-bind (Quiet-modify _ λ w. refl) λ _. modify_cache-Quiet _

pub public_list_files-Quiet :
    (env : Env) (key : String) (limit offset : ℕ) → Quiet (public_list_files env key limit offset)
unfolding public_list_files
public_list_files-Quiet env key limit offset =
    Quiet-bind (enforce_public_storage_rate-Quiet _ _) λ _.
      Quiet-bind (load_public_storage_context-Quiet _ _)
        λ _. Quiet-bind (Quiet-guard _ _) λ _. Quiet-gets _

pub public_download_file-Quiet :
    (env : Env) (key : String) (id : ℕ) → Quiet (public_download_file env key id)
unfolding public_download_file get_file_in
public_download_file-Quiet env key id = Quiet-bind (enforce_public_storage_rate-Quiet _ _) λ _.
    Quiet-bind (load_public_storage_context-Quiet _ _) λ _. Quiet-bind (Quiet-guard _ _) λ _.
      Quiet-bind (ensure_userbot_authorized-Quiet _)
        λ _. Quiet-bind (Quiet-find _ _) λ _. Quiet-pure _
