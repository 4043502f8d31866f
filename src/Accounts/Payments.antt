-- ===== src/Accounts/Payments.antt =====
-- lcloud/api/payments.py: requests to buy an account, and the admin's decisions on them.
--
-- A call is one step: SQLite serialises the writes, and a session that raises is not committed.
pub mod Calls
pub mod Changes
pub mod Decisions
pub mod Pending
pub mod Sold
pub mod Twice
use Prim.Native.String.{◌++◌ as str_append}
use lcloud.Base.{
  ℕ, ◌+◌, ◌*◌, String, Bool, true, false, ◌&&◌, ◌||◌, not, Option, none, some, List, [], ◌∷◌, ◌++◌,
  str_eq, ◌==◌, ltb, if◌then◌else◌, find_if, any_of, keep_if,
}
use lcloud.Base.Text.{prefix}
use lcloud.RateLimiter.{try_acquire}
use lcloud.Accounts.{
  User, PaymentRequest, Accounts, Failure, rate_limited, not_found, bad_status, pubkey_clash,
  already_processed, multiple_results_found, value_error, Result, ok, raise, Found, absent, several,
  found, scalar_one_or_none, update_row, next_id,
}
use lcloud.Accounts.Seed.{Bip39, DerivedIdentity, generate_mnemonic, derive_keypair}

-- `PAYMENT_CARD`, the parts that a request copies.
abbrev pub amount_cents : ℕ
amount_cents = 700

abbrev pub currency : String
currency = "USD"

-- What the outside gives a call: the wall clock, the monotonic clock and the client's address.
pub record Env : Type 0 where
  pub now : ℕ
  pub tick : ℕ
  pub client_ip : String

-- The body as the validators leave it.
pub record PaymentRequestIn : Type 0 where
  pub contact_handle : String
  pub note : Option String

pub record Submitted : Type 0 where
  pub id : ℕ
  pub status : String
  pub duplicate : Bool

abbrev pub is_pending_of : String → PaymentRequest → Bool
is_pending_of contact r = str_eq r.contact_handle contact && str_eq r.status "pending"

unfoldable pub new_request : Env → PaymentRequestIn → List PaymentRequest → PaymentRequest
new_request env body requests = record {
  id = next_id (λ (r : PaymentRequest). r.id) requests;
  contact_handle = body.contact_handle;
  amount_cents = amount_cents;
  currency = currency;
  note = body.note;
  status = "pending";
  created_at = env.now;
  approved_at = none;
  rejected_at = none;
  generated_user_id = none;
  ip_addr = env.client_ip;
}

-- `submit_request`, past the rate limit.
unfoldable pub queue_request : Env → PaymentRequestIn → Accounts → Result Submitted × Accounts
queue_request env body w =
    let r = new_request env body w.requests in
    elim (scalar_one_or_none (is_pending_of body.contact_handle) w.requests) [
      | absent ↦ (
        ok (record { id = r.id; status = r.status; duplicate = false }),
        record w { requests = w.requests ++ r ∷ [] },
      )
      | several ↦ (raise multiple_results_found, w)
      | found old ↦ (ok (record { id = old.id; status = old.status; duplicate = true }), w)
    ]

unfoldable pub submit_request : Env → PaymentRequestIn → Accounts → Result Submitted × Accounts
submit_request env body w =
    let (passed, rate) = try_acquire env.client_ip 1 env.tick w.pay_rate in
    let limited : Accounts = record w { pay_rate = rate } in
    if passed then queue_request env body limited else (raise rate_limited, limited)

-- `order_by(created_at.desc())`
abbrev pub newest_first : List PaymentRequest → List PaymentRequest
newest_first [] = []
newest_first (r ∷ rs) = insert_newest r (newest_first rs)
  where
    insert_newest : PaymentRequest → List PaymentRequest → List PaymentRequest
    insert_newest r [] = r ∷ []
    insert_newest r (s ∷ rs) =
        let rest = insert_newest r rs in
        if ltb r.created_at s.created_at then s ∷ rest else r ∷ s ∷ rs

-- `if status`: a text that is there and not empty filters the rows.
unfoldable pub has_status : Option String → PaymentRequest → Bool
has_status none r = true
has_status (some s) r = str_eq s "" || str_eq r.status s

unfoldable pub is_status : Option String → Bool
is_status none = true
is_status (some s) = str_eq s "pending" || (str_eq s "approved" || str_eq s "rejected")

unfoldable pub list_requests : Option String → Accounts → Result (List PaymentRequest)
list_requests status w =
    if is_status status
    then ok (newest_first (keep_if (has_status status) w.requests))
    else raise bad_status

-- The words are in the reply to the admin only.
pub record Approved : Type 0 where
  pub request_id : ℕ
  pub user_id : ℕ
  pub contact_handle : String
  pub seed_phrase : String

unfoldable pub new_user : DerivedIdentity → PaymentRequest → List User → User
new_user ident r users = record {
  id = next_id (λ (u : User). u.id) users;
  pubkey = ident.pubkey;
  role = "user";
  storage_quota_bytes = 5 * 1024 * 1024 * 1024;
  label = some (prefix 64 r.contact_handle);
  contact_handle = some r.contact_handle;
  encrypted_seed = none;
  seed_salt = none;
  pin_hash = none;
  pin_failed_attempts = 0;
  pin_locked_until = none;
}

-- The user's row and the request's, committed together.
unfoldable pub create_account :
    ℕ → DerivedIdentity → PaymentRequest → Accounts → Result Approved × Accounts
create_account now ident r w =
    let user = new_user ident r w.users in
    let approved : PaymentRequest = record r {
      status = "approved";
      approved_at = some now;
      generated_user_id = some user.id;
    } in
    if any_of (λ (u : User). str_eq u.pubkey ident.pubkey) w.users
    then (raise pubkey_clash, w)
    else (
      ok (record {
        request_id = r.id;
        user_id = user.id;
        contact_handle = r.contact_handle;
        seed_phrase = ident.mnemonic;
      }),
      record w {
        users = w.users ++ user ∷ [];
        requests = update_row (λ (x : PaymentRequest). x.id) approved w.requests;
      },
    )

unfoldable pub approve_pending : Bip39 → ℕ → PaymentRequest → Accounts → Result Approved × Accounts
approve_pending lib now r w = elim (generate_mnemonic lib 24) [
  | none ↦ (raise value_error, w)
  | some mnemonic ↦ elim (derive_keypair lib mnemonic "") [
    | none ↦ (raise value_error, w)
    | some ident ↦ create_account now ident r w
  ]
]

-- The look-up of a request that may still be decided, and the decision.
unfoldable pub decide :
    {A : Type 0}
    → ℕ
    → (PaymentRequest → Accounts → Result A × Accounts)
    → Accounts
    → Result A × Accounts
decide id decision w = elim (find_if (λ (r : PaymentRequest). r.id == id) w.requests) [
  | none ↦ (raise not_found, w)
  | some r ↦
      if str_eq r.status "pending" then decision r w else (raise (already_processed r.status), w)
]

unfoldable pub approve_request : Bip39 → ℕ → ℕ → Accounts → Result Approved × Accounts
approve_request lib now request_id w = decide request_id (approve_pending lib now) w

-- `if body.reason`: the note gets the reason after it.
unfoldable pub note_reason : Option String → Option String → Option String
note_reason none note = note
note_reason (some reason) note =
    if str_eq reason ""
    then note
    else some (
        str_append (elim note [ none ↦ "" | some text ↦ text ])
          (str_append "\n[reject reason: " (str_append reason "]")))

unfoldable pub reject_pending : ℕ → Option String → PaymentRequest → Accounts → Result ℕ × Accounts
reject_pending now reason r w =
    let rejected : PaymentRequest = record r {
      status = "rejected";
      rejected_at = some now;
      note = note_reason reason r.note;
    } in
    (ok r.id, record w { requests = update_row (λ (x : PaymentRequest). x.id) rejected w.requests })

unfoldable pub reject_request : ℕ → ℕ → Option String → Accounts → Result ℕ × Accounts
reject_request now request_id reason w = decide request_id (reject_pending now reason) w
