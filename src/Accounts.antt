-- ===== src/Accounts.antt =====
-- lcloud/db/models.py: the accounts and the requests to buy one, and the queries of these tables.
--
-- A byte string is a text of one character for each byte. Times are in microseconds, as `datetime` has
-- them.
pub mod Seed
pub mod Payments
pub mod Pin
use lcloud.Base.{
  ℕ, suc, ◌+◌, String, Bool, Option, none, some, List, [], ◌∷◌, ◌==◌, if◌then◌else◌, find_if,
  max_of, any_of, str_eq,
}
use lcloud.RateLimiter.{RateLimiter}
use lcloud.Cache.{TtlCache}

-- `User`, with the columns that the payments and the PIN recovery read and write.
pub record User : Type 0 where
  pub id : ℕ
  pub pubkey : String
  pub role : String
  pub storage_quota_bytes : ℕ
  pub label : Option String
  pub contact_handle : Option String
  pub encrypted_seed : Option String
  pub seed_salt : Option String
  pub pin_hash : Option String
  pub pin_failed_attempts : ℕ
  pub pin_locked_until : Option ℕ

pub record PaymentRequest : Type 0 where
  pub id : ℕ
  pub contact_handle : String
  pub amount_cents : ℕ
  pub currency : String
  pub note : Option String
  pub status : String
  pub created_at : ℕ
  pub approved_at : Option ℕ
  pub rejected_at : Option ℕ
  pub generated_user_id : Option ℕ
  pub ip_addr : String

-- The tables, the limiters of the two public endpoints, and the cache of `/me` with its JSON texts.
pub record Accounts : Type 0 where
  pub users : List User
  pub requests : List PaymentRequest
  pub pay_rate : RateLimiter
  pub recover_rate : RateLimiter
  pub cache : TtlCache String

-- The `HTTPException`s, and the exceptions that nothing catches: `MultipleResultsFound` of
-- `scalar_one_or_none`, and a `ValueError`.
pub data Failure : Type 0 where
  rate_limited not_found bad_status pubkey_clash : Failure
  already_processed : String → Failure
  no_session invalid_session user_missing bad_pin_format bad_mnemonic : Failure
  mnemonic_does_not_match_pubkey decrypt_failed : Failure
  locked wrong_pin : ℕ → Failure
  multiple_results_found value_error : Failure

pub data Result (A : Type 0) : Type 0 where
  ok : A → Result A
  raise : Failure → Result A

-- `scalar_one_or_none()`
pub data Found (A : Type 0) : Type 0 where
  absent several : Found A
  found : A → Found A

abbrev pub or_several : {A : Type 0} → A → Found A → Found A
or_several x absent = found x
or_several x _ = several

abbrev pub scalar_one_or_none : {A : Type 0} → (A → Bool) → List A → Found A
scalar_one_or_none p [] = absent
scalar_one_or_none p (x ∷ xs) =
    let rest = scalar_one_or_none p xs in if p x then or_several x rest else rest

-- The flush of a changed row, by its primary key.
abbrev pub update_row : {A : Type 0} → (A → ℕ) → A → List A → List A
update_row id new [] = []
update_row id new (x ∷ xs) =
    let rest = update_row id new xs in if id x == id new then new ∷ xs else x ∷ rest

-- The id that SQLite gives the next row.
abbrev pub next_id : {A : Type 0} → (A → ℕ) → List A → ℕ
next_id id xs = suc (max_of id xs)
