-- ===== src/Tests/Accounts.antt =====
-- Accounts that are bought and recovered, at fixed inputs.
use lcloud.Base.{
  ℕ, String, ◌≡◌, ◌≢◌, ◌≤◌, refl, Bool, true, none, some, Option, List, [], ◌∷◌, arith, ◌==◌, ◌+◌,
  find_if, length, str_eq, str_eq_refl, ltb, ◌&&◌,
}
use lcloud.Base.Text.{strip}
use lcloud.Cache
use lcloud.RateLimiter.{RateLimiter, try_acquire}
use lcloud.Accounts.{User, Accounts, PaymentRequest, ok, scalar_one_or_none, several}
use lcloud.Accounts.Seed.{Bip39}
use lcloud.Accounts.Payments.{Env, PaymentRequestIn, is_pending_of}
use lcloud.Accounts.Payments.Calls.{Call, submit, approve, reject, serve, serve_all}
use lcloud.Accounts.Payments.Decisions.{request_at, serve_all-decided}
use lcloud.Accounts.Payments.Pending.{pending_of, serve_all-pending}
use lcloud.Accounts.Payments.Sold.{approved_in, serve_all-sold}
use lcloud.Accounts.Pin.{Crypto, of_user, has_contact, Guess, setup_pin, recover_seed}
use lcloud.Accounts.Pin.Recovery.{Sound, recover_seed-setup_pin}
use lcloud.Accounts.Payments.Twice.{sold_to, recover_seed-twice}

abbrev limiter : RateLimiter
limiter = record { capacity = 5; refill = 60; buckets = [] }

abbrev accounts : Accounts
accounts = record {
  users = [];
  requests = [];
  pay_rate = limiter;
  recover_rate = limiter;
  cache = Cache.create 60 100 10000 true;
}

-- Words that are drawn as given, and stand for their own seed and key.
abbrev drawn : String → Bip39
drawn words = record {
  check = λ w. true;
  to_seed = λ w p. w;
  verify_key = λ seed. seed;
  generate = λ strength. words;
}

abbrev env : ℕ → Env
env now = record { now = now; tick = now; client_ip = "10.0.0.1" }

abbrev from_buyer : PaymentRequestIn
from_buyer = record { contact_handle = "@buyer"; note = none }

abbrev bought : List Call
bought =
    submit (env 1) from_buyer
    ∷ submit (env 2) from_buyer
    ∷ approve (drawn "one") 3 1
    ∷ submit (env 4) from_buyer
    ∷ []

serve_all-pending_example :
    let rs = (serve_all bought accounts).requests in
    (length (pending_of "@buyer" rs) ≤ 1)
    × (scalar_one_or_none (is_pending_of "@buyer") rs ≢ several)
serve_all-pending_example = serve_all-pending bought accounts "@buyer" refl

serve_all-sold_example :
    let t = serve_all bought accounts in length t.users + 0 ≡ 0 + length (approved_in t.requests)
serve_all-sold_example = serve_all-sold bought accounts

abbrev rejected_request : PaymentRequest
rejected_request = record {
  id = 1;
  contact_handle = "@buyer";
  amount_cents = 700;
  currency = "USD";
  note = none;
  status = "rejected";
  created_at = 1;
  approved_at = none;
  rejected_at = some 2;
  generated_user_id = none;
  ip_addr = "10.0.0.1";
}

serve_all-decided_example :
    request_at 1
      (serve_all
        (approve (drawn "one") 3 1 ∷ submit (env 4) from_buyer ∷ reject 5 1 none ∷ [])
        (record accounts { requests = rejected_request ∷ [] })).requests
    ≡ some rejected_request
serve_all-decided_example =
    serve_all-decided (approve (drawn "one") 3 1 ∷ submit (env 4) from_buyer ∷ reject 5 1 none ∷ [])
      (record accounts { requests = rejected_request ∷ [] }) 1 rejected_request refl refl

-- A hash and a box that keep the text as it is.
abbrev plain : Crypto
plain = record {
  hash = λ pin. pin;
  verify = λ hash pin. str_eq hash pin;
  token_bytes = λ n. "0123456789abcdef";
  kdf = λ pin salt. pin;
  encrypt = λ key text. text;
  decrypt = λ key box. some box;
  is_space = λ c. c == 32;
  is_digit = λ c. ltb 47 c && ltb c 58;
}

plain-Sound : Sound plain
plain-Sound = record { hashes = λ pin. str_eq_refl pin; opens = λ key text. refl }

abbrev buyer : ℕ → User
buyer id = record {
  id = id;
  pubkey = "one two";
  role = "user";
  storage_quota_bytes = 100;
  label = none;
  contact_handle = some "@buyer";
  encrypted_seed = some "one two";
  seed_salt = some "0123456789abcdef";
  pin_hash = some "1234";
  pin_failed_attempts = 0;
  pin_locked_until = none;
}

abbrev guess : Guess
guess = record {
  now = 90;
  tick = 90;
  client_ip = "10.0.0.1";
  contact_handle = "@buyer";
  pin = "4321";
}

abbrev one_buyer : Accounts
one_buyer = record accounts { users = buyer 1 ∷ [] }

set_up : (setup_pin plain (drawn "") (of_user 1) "4321" " one two " one_buyer).0 ≡ ok true
unfolding setup_pin lcloud.Accounts.Pin.is_valid_pin lcloud.Base.Text.len lcloud.Base.Text.codes
    lcloud.Accounts.Seed.is_valid_mnemonic lcloud.Accounts.Seed.derive_keypair
    lcloud.Accounts.Pin.store_seed lcloud.Base.Text.prefix strip lcloud.Accounts.Pin.encrypt_seed
    lcloud.Accounts.Pin.derive_kdf_key
set_up = refl

may_recover : (try_acquire "10.0.0.1" 1 90 limiter).0 ≡ true
unfolding try_acquire lcloud.RateLimiter.level lcloud.Base.Assoc.lookup
may_recover = refl

recover_seed-setup_pin_example :
    (recover_seed plain guess
      (setup_pin plain (drawn "") (of_user 1) "4321" " one two " one_buyer).1).0
    ≡ ok (strip (plain.is_space) " one two ")
recover_seed-setup_pin_example =
    recover_seed-setup_pin plain (drawn "") 1 guess " one two " (buyer 1) one_buyer plain-Sound refl
      refl set_up may_recover

-- The contact of two approved requests.
abbrev twice : List Call
twice =
    submit (env 1) from_buyer
    ∷ approve (drawn "one") 2 1
    ∷ submit (env 3) from_buyer
    ∷ approve (drawn "two") 4 2
    ∷ []

sold_twice : sold_to "@buyer" (serve_all twice accounts).requests ≡ 2
unfolding serve_all serve lcloud.Accounts.Payments.approve_request lcloud.Accounts.Payments.decide
    lcloud.Accounts.Payments.submit_request try_acquire lcloud.RateLimiter.level
    lcloud.Base.Assoc.lookup lcloud.Accounts.Payments.queue_request
    lcloud.Accounts.Payments.new_request lcloud.Accounts.Payments.approve_pending
    lcloud.Accounts.Seed.generate_mnemonic lcloud.Accounts.Seed.derive_keypair
    lcloud.Accounts.Payments.create_account lcloud.Base.Assoc.insert
    lcloud.Accounts.Payments.new_user lcloud.Base.Text.prefix
sold_twice = refl

recover_seed-twice_example :
    let w = serve_all twice accounts in
    ((words : String) → (recover_seed plain guess w).0 ≢ ok words)
    × ((recover_seed plain guess w).1.users ≡ w.users)
recover_seed-twice_example =
    recover_seed-twice plain guess twice accounts (omega (arith, sold_twice))
