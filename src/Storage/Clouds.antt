-- ===== src/Storage/Clouds.antt =====
-- lcloud/api/v2_clouds.py: the clouds of a user.
use lcloud.Base.{
  ℕ, ◌*◌, String, not, none, some, List, [], ◌∷◌, ◌++◌, ltb, ◌==◌, map, keep_if, any_of,
  if◌then◌else◌,
}
use lcloud.Base.Int.{ℤ, eq_ℤ}
use lcloud.Accounts.{next_id}
use lcloud.Cache.Keys.{k_user_clouds}
use lcloud.Cache.Invalidators.{invalidate_user_clouds, invalidate_files_in_cloud}
use lcloud.Db.Rows.{JsonDatabase}
use lcloud.Storage.Rows.{CloudRow, File, StoragePublicKey, is_id}
use lcloud.Storage.Session.{
  Env, CurrentUser, Handler, CloudBody, Body, clouds, admin_owner_missing, cloud_creation_failed,
  integrity_error, pure, gets, guard, modify, or_fail, modify_cache, cache_get, cache_set, ◌>>=◌,
  ◌>>◌, may_access, get_cloud_for_user, ensure_userbot_authorized,
}
use lcloud.Storage.Files.{role_of}

unfoldable pub serialize_cloud : CloudRow → CloudBody
serialize_cloud c = record {
  id = c.id;
  chat_id = c.chat_id;
  name = c.name;
  owner_user_id = c.owner_user_id;
  created_at = c.created_at;
}

unfoldable pub insert_later_cloud : CloudRow → List CloudRow → List CloudRow
insert_later_cloud c [] = c ∷ []
insert_later_cloud c (d ∷ ds) =
    let rest = insert_later_cloud c ds in
    if ltb c.created_at d.created_at then d ∷ rest else c ∷ d ∷ ds

-- `order_by(created_at.desc())`
unfoldable pub latest_clouds : List CloudRow → List CloudRow
unfolding insert_later_cloud
latest_clouds [] = []
latest_clouds (c ∷ cs) = insert_later_cloud c (latest_clouds cs)

unfoldable pub list_clouds : Env → CurrentUser → Handler Body
list_clouds env user = do
  let key = k_user_clouds user.id (role_of user)
  cached ← cache_get env key
  elim cached [
    | some body ↦ pure body
    | none ↦ do
      rows ← gets (λ w.
          latest_clouds (keep_if (λ (c : CloudRow). may_access user c.owner_user_id) w.clouds))
      let body = clouds (map serialize_cloud rows)
      cache_set env key body (30 * env.second) none
      pure body
  ]

-- The `snapshot` of `_ensure_userbot_ready` gives the same two answers.
unfoldable pub new_cloud : Env → CurrentUser → ℕ → ℤ × String → String → List CloudRow → CloudRow
new_cloud env user owner_id chat name rows = record {
  id = next_id (λ (c : CloudRow). c.id) rows;
  chat_id = chat.0;
  owner_id = owner_id;
  owner_user_id = some user.id;
  name = name;
  about = some chat.1;
  created_at = env.now;
}

unfoldable pub create_cloud : Env → CurrentUser → String → Handler CloudBody
create_cloud env user name = do
  ensure_userbot_authorized env
  owner_id ← or_fail env.admin_owner admin_owner_missing
  chat ← or_fail env.new_chat cloud_creation_failed
  modify λ w. record w { marked = w.marked ++ chat.0 ∷ [] }
  row ← gets (λ w. new_cloud env user owner_id chat name w.clouds)
  taken ← gets (λ w. any_of (λ (c : CloudRow). eq_ℤ c.chat_id chat.0) w.clouds)
  guard (not taken) integrity_error
  modify λ w. record w { clouds = w.clouds ++ row ∷ [] }
  modify_cache (invalidate_user_clouds user.id)
  pure (serialize_cloud row)

unfoldable pub clear_marker : Env → ℤ → Handler (Unit {0})
clear_marker env chat_id = modify λ w.
    if env.is_cleared then record w { marked = keep_if (λ c. not (eq_ℤ c chat_id)) w.marked } else w

-- `ON DELETE SET NULL` of a database's cloud
abbrev pub without_cloud : ℕ → JsonDatabase → JsonDatabase
without_cloud id d = if is_id d.cloud_id id then record d { cloud_id = none } else d

-- The row with what hangs on it: a file of the cloud, live or not, forbids it; the publishable keys go, and
-- the databases have no cloud.
unfoldable pub delete_cloud_row : ℕ → Handler (Unit {0})
delete_cloud_row cloud_id = do
  used ← gets (λ w. any_of (λ (f : File). f.cloud_id == cloud_id) w.files)
  guard (not used) integrity_error
  modify λ w. record w {
    clouds = keep_if (λ (c : CloudRow). not (c.id == cloud_id)) w.clouds;
    keys = keep_if (λ (k : StoragePublicKey). not (k.cloud_id == cloud_id)) w.keys;
    databases = map (without_cloud cloud_id) w.databases;
  }

unfoldable pub disconnect_cloud : Env → CurrentUser → ℕ → Handler (Unit {0})
disconnect_cloud env user cloud_id = do
  ensure_userbot_authorized env
  cloud ← get_cloud_for_user cloud_id user
  clear_marker env cloud.chat_id
  delete_cloud_row cloud_id
  modify_cache (invalidate_user_clouds user.id)
  modify_cache (invalidate_files_in_cloud cloud_id)
