-- ===== src/Accounts/Pin.antt =====
-- lcloud/auth/pin_recovery.py and lcloud/api/pin_recovery.py: the words of an account, kept encrypted under
-- a PIN.
pub mod Guesses
pub mod Setup
pub mod Recovery
use lcloud.Base.{
  ℕ, zero, suc, ◌+◌, ◌-◌, ◌*◌, ◌/◌, String, Bool, true, false, ◌&&◌, ◌||◌, not, Option, none, some,
  List, [], ◌∷◌, str_eq, ◌==◌, ltb, leb, if◌then◌else◌, find_if, option_str_eq,
}
use lcloud.Base.Text.{len, codes, prefix, strip}
use lcloud.RateLimiter.{try_acquire}
use lcloud.Cache
use lcloud.Cache.Keys.{k_user_me}
use lcloud.Accounts.{
  User, Accounts, Failure, rate_limited, not_found, no_session, invalid_session, user_missing,
  bad_pin_format, bad_mnemonic, mnemonic_does_not_match_pubkey, decrypt_failed, locked, wrong_pin,
  multiple_results_found, value_error, Result, ok, raise, Found, absent, several, found,
  scalar_one_or_none, update_row,
}
use lcloud.Accounts.Seed.{Bip39, DerivedIdentity, derive_keypair, is_valid_mnemonic}

-- argon2, SecretBox, the drawn bytes, and Unicode's tests of a code point: `verify` is whether
-- `PasswordHasher.verify` returns, and none is what `decrypt_seed` catches.
pub record Crypto : Type 0 where
  pub hash : String → String
  pub verify : String → String → Bool
  pub token_bytes : ℕ → String
  pub kdf : String → String → String
  pub encrypt : String → String → String
  pub decrypt : String → String → Option String
  pub is_space : ℕ → Bool
  pub is_digit : ℕ → Bool

abbrev pub max_failed_attempts : ℕ
max_failed_attempts = 5

-- `timedelta(seconds=LOCKOUT_SECONDS)`, in microseconds.
abbrev pub lockout : ℕ
lockout = 3600000000

abbrev pub all_of : (ℕ → Bool) → List ℕ → Bool
all_of p [] = true
all_of p (x ∷ xs) = p x && all_of p xs

unfoldable pub is_valid_pin : Crypto → String → Bool
is_valid_pin lib pin = len pin == 4 && all_of lib.is_digit (codes pin)

-- none stands for the `ValueError`.
unfoldable pub derive_kdf_key : Crypto → String → String → Option String
derive_kdf_key lib pin salt =
    if ltb (len salt) 16 then none else some (lib.kdf pin (prefix 16 salt))

-- The salt and the ciphertext.
unfoldable pub encrypt_seed : Crypto → String → String → Option (String × String)
encrypt_seed lib pin mnemonic =
    let salt = lib.token_bytes 16 in
    elim (derive_kdf_key lib pin salt) [
      | none ↦ none
      | some key ↦ some (salt, lib.encrypt key mnemonic)
    ]

unfoldable pub decrypt_seed : Crypto → String → String → String → Option String
decrypt_seed lib pin salt ciphertext = elim (derive_kdf_key lib pin salt) [
  | none ↦ none
  | some key ↦ lib.decrypt key ciphertext
]

-- The session's cookie: none, one that `decode_user_session` refuses, or that of a user.
pub data Session : Type 0 where
  no_cookie broken : Session
  of_user : ℕ → Session

unfoldable pub with_pin : Crypto → String → (String × String) → User → User
with_pin lib pin (salt, ciphertext) u = record u {
  pin_hash = some (lib.hash pin);
  seed_salt = some salt;
  encrypted_seed = some ciphertext;
  pin_failed_attempts = 0;
  pin_locked_until = none;
}

-- `setup_pin`, for the user's row, and the words with their key pair.
unfoldable pub store_seed :
    Crypto → String → DerivedIdentity → Option User → Accounts → Result Bool × Accounts
store_seed lib pin derived none w = (raise user_missing, w)
store_seed lib pin derived (some u) w =
    if not (str_eq u.pubkey derived.pubkey)
    then (raise mnemonic_does_not_match_pubkey, w)
    else elim (encrypt_seed lib pin derived.mnemonic) [
      | none ↦ (raise value_error, w)
      | some stored ↦ (
        ok true,
        record w {
          users = update_row (λ (x : User). x.id) (with_pin lib pin stored u) w.users;
          cache = Cache.delete_key (k_user_me u.id) w.cache;
        },
      )
    ]

unfoldable pub setup_pin :
    Crypto → Bip39 → Session → String → String → Accounts → Result Bool × Accounts
setup_pin lib words no_cookie pin mnemonic w = (raise no_session, w)
setup_pin lib words broken pin mnemonic w = (raise invalid_session, w)
setup_pin lib words (of_user user_id) pin mnemonic w =
    let clean = strip lib.is_space mnemonic in
    let user = find_if (λ (u : User). u.id == user_id) w.users in
    if not (is_valid_pin lib pin)
    then (raise bad_pin_format, w)
    else (if not (is_valid_mnemonic words clean)
        then (raise bad_mnemonic, w)
        else elim (derive_keypair words clean "") [
          | none ↦ (raise value_error, w)
          | some derived ↦ store_seed lib pin derived user w
        ])

-- `locked_until > now`
abbrev pub is_locked : ℕ → Option ℕ → Bool
is_locked now none = false
is_locked now (some until) = ltb now until

abbrev pub seconds_left : ℕ → Option ℕ → ℕ
seconds_left now none = 0
seconds_left now (some until) = (until - now) / 1000000

-- A wrong PIN is counted, and the fifth one and each after it lock the account.
unfoldable pub missed : ℕ → User → Result String × User
missed now u =
    let attempts = suc u.pin_failed_attempts in
    if leb max_failed_attempts attempts
    then (
      raise (locked 3600),
      record u { pin_failed_attempts = attempts; pin_locked_until = some (now + lockout) },
    )
    else (
      raise (wrong_pin (max_failed_attempts - attempts)),
      record u { pin_failed_attempts = attempts },
    )

-- The right PIN clears the count.
unfoldable pub opened : Crypto → String → String → User → Result String × User
opened lib pin ciphertext u = elim u.seed_salt [
  | none ↦ (raise not_found, u)
  | some salt ↦ elim (decrypt_seed lib pin salt ciphertext) [
    | none ↦ (raise decrypt_failed, u)
    | some seed ↦ (ok seed, record u { pin_failed_attempts = 0; pin_locked_until = none })
  ]
]

-- `recover_seed`, for the row of the account.
unfoldable pub attempt : Crypto → ℕ → String → User → Result String × User
attempt lib now pin u = elim u.pin_hash [
  | none ↦ (raise not_found, u)
  | some hash ↦ elim u.encrypted_seed [
    | none ↦ (raise not_found, u)
    | some ciphertext ↦
        if is_locked now u.pin_locked_until
        then (raise (locked (seconds_left now u.pin_locked_until)), u)
        else (if lib.verify hash pin then opened lib pin ciphertext u else missed now u)
  ]
]

-- What the outside gives a recovery: the wall clock, the monotonic clock and the client's address.
pub record Guess : Type 0 where
  pub now : ℕ
  pub tick : ℕ
  pub client_ip : String
  pub contact_handle : String
  pub pin : String

abbrev pub has_contact : String → User → Bool
has_contact contact u = option_str_eq u.contact_handle (some contact)

abbrev pub store_user : Accounts → Result String × User → Result String × Accounts
store_user w (r, u) = (r, record w { users = update_row (λ (x : User). x.id) u w.users })

-- `recover_seed`, past the rate limit.
unfoldable pub recover_limited : Crypto → Guess → Accounts → Result String × Accounts
recover_limited lib g w =
    if not (is_valid_pin lib g.pin)
    then (raise bad_pin_format, w)
    else elim (scalar_one_or_none (has_contact g.contact_handle) w.users) [
      | absent ↦ (raise not_found, w)
      | several ↦ (raise multiple_results_found, w)
      | found u ↦ store_user w (attempt lib g.now g.pin u)
    ]

unfoldable pub recover_seed : Crypto → Guess → Accounts → Result String × Accounts
recover_seed lib g w =
    let (passed, rate) = try_acquire g.client_ip 1 g.tick w.recover_rate in
    let limited : Accounts = record w { recover_rate = rate } in
    if passed then recover_limited lib g limited else (raise rate_limited, limited)
