-- ===== src/Storage/SignIn.antt =====
-- lcloud/auth/v2_deps.py and lcloud/auth/api_keys.py: who a request comes from.
--
-- The reader of session tokens and argon2 are arguments.
pub mod Admitted
use Prim.Native.Char.{code}
use lcloud.Base.{
  ℕ, String, Bool, true, false, ◌&&◌, not, Option, none, some, List, [], ◌∷◌, ltb, ◌==◌, str_eq,
  starts_with, if◌then◌else◌, find_if,
}
use lcloud.Base.Text.{len, prefix}
use lcloud.Storage.Rows.{UserRow, is_null}
use lcloud.Storage.Quota.{find_user}

-- `ApiKey`, with the columns that are read or written here.
pub record ApiKey : Type 0 where
  pub id : ℕ
  pub user_id : ℕ
  pub hash : String
  pub prefix : String
  pub last_used_at : Option ℕ
  pub revoked_at : Option ℕ

pub record KeyStore : Type 0 where
  pub users : List UserRow
  pub api_keys : List ApiKey

pub data AuthError : Type 0 where
  session_expired invalid_session no_credentials invalid_credentials suspended admin_only :
      AuthError

pub data Reply (A : Type 0) : Type 0 where
  ok : A → Reply A
  raise : AuthError → Reply A

-- What `pyjwt.decode` gives with the server's secret: the claims, or an error.
pub data Token : Type 0 where
  expired invalid : Token
  claims : String → String → ℕ → Token

-- `pyjwt.decode`, argon2's `verify` with its errors as false, and `lower` of a text.
pub record Secrets : Type 0 where
  pub decode : String → Token
  pub verify : String → String → Bool
  pub lower : String → String

-- `decode_user_session` of lcloud/api/auth_v2.py, on the claims `sub`, `kind` and `user_id`.
unfoldable pub user_session : Token → Token
user_session expired = expired
user_session invalid = invalid
user_session (claims sub kind user_id) =
    if str_eq sub "user" && str_eq kind "user_session" then claims sub kind user_id else invalid

abbrev pub decode_user_session : Secrets → String → Token
decode_user_session lib token = user_session (lib.decode token)

abbrev user_of : List UserRow → Token → Reply (Option UserRow)
user_of users expired = raise session_expired
user_of users invalid = raise invalid_session
user_of users (claims sub kind user_id) = ok (find_user user_id users)

-- `_user_from_cookie`
unfoldable pub user_from_cookie : Secrets → String → KeyStore → Reply (Option UserRow)
user_from_cookie lib token s = user_of s.users (decode_user_session lib token)

unfoldable pub extract_prefix : String → String
extract_prefix raw = if ltb (len raw) 8 then "" else prefix 8 raw

unfoldable pub looks_like_api_key : String → Bool
looks_like_api_key raw = starts_with raw "lc-" && len raw == 17

abbrev pub is_candidate : Secrets → String → ApiKey → Bool
is_candidate lib raw k =
    str_eq k.prefix (extract_prefix raw) && (is_null k.revoked_at && lib.verify raw k.hash)

-- The flush of the row whose key was used.
unfoldable pub used_at : ℕ → ℕ → List ApiKey → List ApiKey
used_at now id [] = []
used_at now id (k ∷ ks) =
    let rest = used_at now id ks in
    if k.id == id then record k { last_used_at = some now } ∷ rest else k ∷ rest

-- `_user_from_api_key`: the first candidate whose hash is the key's.
unfoldable pub user_from_api_key : Secrets → ℕ → String → KeyStore → Option UserRow × KeyStore
user_from_api_key lib now raw s =
    if str_eq (extract_prefix raw) ""
    then (none, s)
    else elim (find_if (is_candidate lib raw) s.api_keys) [
      | none ↦ (none, s)
      | some k ↦ (find_user k.user_id s.users, record s { api_keys = used_at now k.id s.api_keys })
    ]

-- `authorization.partition(" ")`, without its separator
unfoldable pub partition : String → String × String
partition String.[] = ("", "")
partition (String.◌∷◌ c s) =
    let (head, tail) = partition s in if code c == 32 then ("", s) else (String.◌∷◌ c head, tail)

unfoldable pub user_from_header : Secrets → ℕ → Option String → KeyStore → Option UserRow × KeyStore
user_from_header lib now none s = (none, s)
user_from_header lib now (some authorization) s =
    let (scheme, token) = partition authorization in
    if str_eq (lib.lower scheme) "bearer" && looks_like_api_key token
    then user_from_api_key lib now token s
    else (none, s)

-- An empty cookie counts as none.
unfoldable pub cookie_user : Secrets → Option String → KeyStore → Reply (Option UserRow)
cookie_user lib none s = ok none
cookie_user lib (some token) s = if str_eq token "" then ok none else user_from_cookie lib token s

-- The end of both dependencies: a user, who is not suspended.
unfoldable pub admitted : AuthError → Option UserRow → Reply UserRow
admitted e none = raise e
admitted e (some user) = if is_null user.suspended_at then ok user else raise suspended

unfoldable pub after_cookie :
    Secrets
    → ℕ
    → Option String
    → AuthError
    → Reply (Option UserRow)
    → KeyStore
    → Reply UserRow × KeyStore
after_cookie lib now authorization e (raise x) s = (raise x, s)
after_cookie lib now authorization e (ok (some user)) s = (admitted e (some user), s)
after_cookie lib now authorization e (ok none) s =
    let (user, s) = user_from_header lib now authorization s in (admitted e user, s)

unfoldable pub get_current_user :
    Secrets → ℕ → Option String → Option String → KeyStore → Reply UserRow × KeyStore
get_current_user lib now cookie authorization s =
    after_cookie lib now authorization no_credentials (cookie_user lib cookie s) s

abbrev is_given : Option String → Bool
is_given none = false
is_given (some s) = not (str_eq s "")

abbrev optional : Reply UserRow → Reply (Option UserRow)
optional (ok user) = ok (some user)
optional (raise e) = raise e

unfoldable pub get_optional_current_user :
    Secrets → ℕ → Option String → Option String → KeyStore → Reply (Option UserRow) × KeyStore
get_optional_current_user lib now cookie authorization s =
    let (r, t) =
      after_cookie lib now authorization invalid_credentials (cookie_user lib cookie s) s in
    if is_given cookie
    then (optional r, t)
    else (if is_given authorization then (optional r, t) else (ok none, s))

unfoldable pub require_user_admin : UserRow → Reply UserRow
require_user_admin user = if str_eq user.role "admin" then ok user else raise admin_only
