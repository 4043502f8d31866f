-- ===== src/Storage/SignIn/Admitted.antt =====
-- Whom lcloud/auth/v2_deps.py lets in.
use lcloud.Base.{ℕ, String, ◌≡◌, Option, none, some, arith}
use lcloud.Storage.Rows.{UserRow}
use lcloud.Storage.SignIn.{
  KeyStore, AuthError, Reply, ok, raise, Secrets, no_credentials, admitted, after_cookie,
  cookie_user, get_current_user,
}

admitted-ok :
    (e : AuthError) (found : Option UserRow) (user : UserRow)
    → admitted e found ≡ ok user
    → user.suspended_at ≡ none
unfolding admitted
admitted-ok e none user h = ground (arith, h)
admitted-ok e (some u) user h = ground (arith, h)

after_cookie-ok :
    (lib : Secrets) (now : ℕ) (header : Option String) (e : AuthError) (r : Reply (Option UserRow))
    (s : KeyStore) (user : UserRow)
    → (after_cookie lib now header e r s).0 ≡ ok user
    → user.suspended_at ≡ none
unfolding after_cookie
after_cookie-ok lib now header e (raise x) s user h = ground (arith, h)
after_cookie-ok lib now header e (ok (some u)) s user h = admitted-ok e (some u) user h
after_cookie-ok lib now header e (ok none) s user h = admitted-ok e _ user h

-- A suspended user is let in by no cookie and by no key.
pub get_current_user-ok :
    (lib : Secrets) (now : ℕ) (cookie header : Option String) (s : KeyStore) (user : UserRow)
    → (get_current_user lib now cookie header s).0 ≡ ok user
    → user.suspended_at ≡ none
unfolding get_current_user
get_current_user-ok lib now cookie header s user h =
    after_cookie-ok lib now header no_credentials (cookie_user lib cookie s) s user h
