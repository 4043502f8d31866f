-- ===== src/Storage/Shares.antt =====
-- lcloud/api/shares.py: links by which anyone downloads a file.
pub mod Spared
pub mod Limits
pub mod Runs
pub mod Counted
pub mod Followed
use Prim.Native.String.{◌++◌ as str_append}
use lcloud.Base.{
  ℕ, zero, suc, ◌+◌, ◌*◌, String, Bool, true, false, not, ◌&&◌, ◌||◌, Option, none, some, List, [],
  ◌∷◌, ◌++◌, leb, ltb, ◌==◌, str_eq, map, find_if, keep_if, any_of, if◌then◌else◌,
}
use lcloud.Accounts.{next_id}
use lcloud.Storage.Rows.{CloudRow, File, FileShare, is_null, is_live, is_id}
use lcloud.Storage.Session.{
  Env, CurrentUser, Handler, World, not_found, userbot_not_authorized, pure, gets, guard, modify,
  or_fail, ◌>>=◌, ◌>>◌, may_access,
}
use lcloud.Storage.Files.{
  Download, download_of, get_file_for_user, get_any_file, cloud_of, is_live_id,
}

-- `_is_active`; times are in microseconds.
abbrev pub is_past : Option ℕ → ℕ → Bool
is_past none now = false
is_past (some at) now = ltb at now

abbrev pub is_used_up : Option ℕ → ℕ → Bool
is_used_up none count = false
is_used_up (some limit) count = leb limit count

unfoldable pub is_active_share : ℕ → FileShare → Bool
is_active_share now s =
    is_null s.revoked_at
    && (not (is_past s.expires_at now) && not (is_used_up s.max_downloads s.download_count))

-- `_serialize_share`, with the link: `base` is the public URL with no slash at its end.
pub record ShareBody : Type 0 where
  pub id : ℕ
  pub file_id : ℕ
  pub token : String
  pub created_at : ℕ
  pub expires_at : Option ℕ
  pub max_downloads : Option ℕ
  pub download_count : ℕ
  pub revoked_at : Option ℕ
  pub active : Bool
  pub url : String

unfoldable pub serialize_share : String → FileShare → ShareBody
serialize_share base s = record {
  id = s.id;
  file_id = s.file_id;
  token = s.token;
  created_at = s.created_at;
  expires_at = s.expires_at;
  max_downloads = s.max_downloads;
  download_count = s.download_count;
  revoked_at = s.revoked_at;
  active = is_null s.revoked_at;
  url = str_append base (str_append "/share/" s.token);
}

-- The body as the validators leave it.
pub record CreateShareIn : Type 0 where
  pub expires_in_seconds : Option ℕ
  pub max_downloads : Option ℕ

abbrev expiry : ℕ → Option ℕ → Option ℕ
expiry now none = none
expiry now (some seconds) = some (now + seconds * 1000000)

unfoldable pub new_share : Env → CurrentUser → ℕ → CreateShareIn → List FileShare → FileShare
new_share env user file_id body shares = record {
  id = next_id (λ (s : FileShare). s.id) shares;
  file_id = file_id;
  owner_user_id = user.id;
  token = env.new_token;
  created_at = env.now;
  expires_at = expiry env.now body.expires_in_seconds;
  max_downloads = body.max_downloads;
  download_count = 0;
  revoked_at = none;
}

unfoldable pub create_share : Env → String → CurrentUser → ℕ → CreateShareIn → Handler ShareBody
create_share env base user file_id body = do
  f ← get_file_for_user user file_id
  share ← gets (λ w. new_share env user f.id body w.shares)
  modify λ w. record w { shares = w.shares ++ share ∷ [] }
  pure (serialize_share base share)

unfoldable pub insert_later_share : FileShare → List FileShare → List FileShare
insert_later_share s [] = s ∷ []
insert_later_share s (t ∷ ts) =
    let rest = insert_later_share s ts in
    if ltb s.created_at t.created_at then t ∷ rest else s ∷ t ∷ ts

-- `order_by(created_at.desc())`
unfoldable pub latest_shares : List FileShare → List FileShare
unfolding insert_later_share
latest_shares [] = []
latest_shares (s ∷ ss) = insert_later_share s (latest_shares ss)

unfoldable pub list_shares_for_file : String → CurrentUser → ℕ → Handler (List ShareBody)
list_shares_for_file base user file_id = do
  get_any_file user file_id
  gets λ w.
      map (serialize_share base)
        (latest_shares (keep_if (λ (s : FileShare). s.file_id == file_id) w.shares))

abbrev pub with_share : (FileShare → FileShare) → ℕ → FileShare → FileShare
with_share f id s = if s.id == id then f s else s

-- The flush of a share's row.
unfoldable pub update_share : (FileShare → FileShare) → ℕ → List FileShare → List FileShare
update_share f id [] = []
update_share f id (s ∷ ss) = with_share f id s ∷ update_share f id ss

unfoldable pub revoked_share : ℕ → FileShare → FileShare
revoked_share now s = if is_null s.revoked_at then record s { revoked_at = some now } else s

unfoldable pub revoke_share : Env → CurrentUser → ℕ → Handler (Unit {0})
revoke_share env user share_id = do
  s ← or_fail (← gets (λ w. find_if (λ (s : FileShare). s.id == share_id) w.shares)) not_found
  guard (may_access user (some s.owner_user_id)) not_found
  modify λ w. record w { shares = update_share (revoked_share env.now) s.id w.shares }

unfoldable pub downloaded : FileShare → FileShare
downloaded s = record s { download_count = s.download_count + 1 }

-- The count is committed before the Telegram session is looked at.
unfoldable pub public_download : Env → String → Handler Download
public_download env token = do
  share ←
      or_fail (← gets (λ w. find_if (λ (s : FileShare). str_eq s.token token) w.shares)) not_found
  guard (is_active_share env.now share) not_found
  f ← or_fail (← gets (λ w. find_if (is_live_id share.file_id) w.files)) not_found
  cloud ← cloud_of f
  modify λ w. record w { shares = update_share downloaded share.id w.shares }
  guard (env.is_started && env.is_admin_authorized) userbot_not_authorized
  pure (download_of f cloud.chat_id)
