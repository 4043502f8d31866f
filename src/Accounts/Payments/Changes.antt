-- ===== src/Accounts/Payments/Changes.antt =====
-- What the calls of lcloud/api/payments.py do to the two tables.
use mathlib.Core.Path.{subst}
use lcloud.Base.{
  ℕ, String, ◌≡◌, refl, sym, Bool, true, false, Option, some, List, [], ◌∷◌, ◌++◌, arith, str_eq,
  ◌==◌, find_if, any_of, inl, inr, Option-cases, if-intro,
}
use lcloud.RateLimiter.{try_acquire}
use lcloud.Accounts.{
  User, PaymentRequest, Accounts, Result, ok, raise, Found, absent, several, found,
  scalar_one_or_none, update_row, rate_limited, already_processed, multiple_results_found,
}
use lcloud.Accounts.Seed.{Bip39, DerivedIdentity, generate_mnemonic, derive_keypair}
use lcloud.Accounts.Payments.{
  Env, PaymentRequestIn, Submitted, is_pending_of, new_request, new_user, queue_request,
  submit_request, create_account, approve_pending, decide, approve_request, note_reason,
  reject_pending, reject_request, Approved,
}
use lcloud.Accounts.Payments.Calls.{Call, submit, approve, reject, serve}

abbrev pub request_id : PaymentRequest → ℕ
request_id r = r.id

abbrev pub is_pending : PaymentRequest → Bool
is_pending r = str_eq r.status "pending"

-- What may become of the users and the requests.
pub data Change (us : List User) (rs : List PaymentRequest)
    : List User → List PaymentRequest → Type 0 where
  same : Change us rs us rs
  queued :
      (env : Env) (body : PaymentRequestIn)
      → scalar_one_or_none (is_pending_of body.contact_handle) rs ≡ absent
      → Change us rs us (rs ++ new_request env body rs ∷ [])
  approved :
      (now : ℕ) (ident : DerivedIdentity) (r : PaymentRequest)
      → find_if (λ (x : PaymentRequest). x.id == r.id) rs ≡ some r
      → is_pending r ≡ true
      → any_of (λ (u : User). str_eq u.pubkey ident.pubkey) us ≡ false
      → Change us rs (us ++ new_user ident r us ∷ []) (
          update_row request_id
            (record r {
              status = "approved";
              approved_at = some now;
              generated_user_id = some (new_user ident r us).id;
            })
            rs)
  rejected :
      (now : ℕ) (note : Option String) (r : PaymentRequest)
      → find_if (λ (x : PaymentRequest). x.id == r.id) rs ≡ some r
      → is_pending r ≡ true
      → Change us rs us (
          update_row request_id
            (record r { status = "rejected"; rejected_at = some now; note = note })
            rs)

abbrev pub Changed : Accounts → Accounts → Type 0
Changed w t = Change w.users w.requests t.users t.requests

found_at :
    (id : ℕ) (rs : List PaymentRequest) (r : PaymentRequest)
    → find_if (λ (x : PaymentRequest). x.id == id) rs ≡ some r
    → find_if (λ (x : PaymentRequest). x.id == r.id) rs ≡ some r
found_at id rs r e =
    subst (λ n. find_if (λ (x : PaymentRequest). x.id == n) rs ≡ some r) (sym (its_id rs e)) e
  where
    its_id :
        (rs : List PaymentRequest)
        → find_if (λ (x : PaymentRequest). x.id == id) rs ≡ some r
        → r.id ≡ id
    its_id [] e = cc
    its_id (x ∷ rs) e = ground (arith, its_id rs)

queue_request-Changed :
    (env : Env) (body : PaymentRequestIn) (w : Accounts) → Changed w (queue_request env body w).1
unfolding queue_request
queue_request-Changed env body w =
    after (scalar_one_or_none (is_pending_of body.contact_handle) w.requests) refl
  where
    after :
        (f : Found PaymentRequest)
        → scalar_one_or_none (is_pending_of body.contact_handle) w.requests ≡ f
        → Changed w
            (elim f as (λ _. Result Submitted × Accounts) [
              | absent ↦ (
                ok (record {
                  id = (new_request env body w.requests).id;
                  status = (new_request env body w.requests).status;
                  duplicate = false;
                }),
                record w { requests = w.requests ++ new_request env body w.requests ∷ [] },
              )
              | several ↦ (raise multiple_results_found, w)
              | found old ↦ (ok (record { id = old.id; status = old.status; duplicate = true }), w)
            ]).1
    after absent e = queued env body e
    after several e = same
    after (found old) e = same

submit_request-Changed :
    (env : Env) (body : PaymentRequestIn) (w : Accounts) → Changed w (submit_request env body w).1
unfolding submit_request
submit_request-Changed env body w =
    let limited : Accounts = record w {
      pay_rate = (try_acquire env.client_ip 1 env.tick w.pay_rate).1;
    } in
    if-intro (λ (p : Result Submitted × Accounts). Changed w p.1)
      (try_acquire env.client_ip 1 env.tick w.pay_rate).0 (queue_request env body limited)
      (raise rate_limited, limited) (λ e. queue_request-Changed env body limited) (λ e. same)

decide-Changed :
    {A : Type 0} (id : ℕ) (decision : PaymentRequest → Accounts → Result A × Accounts)
    (w : Accounts)
    → ((r : PaymentRequest)
        → find_if (λ (x : PaymentRequest). x.id == r.id) w.requests ≡ some r
        → is_pending r ≡ true
        → Changed w (decision r w).1)
    → Changed w (decide id decision w).1
unfolding decide
decide-Changed {A} id decision w h =
    elim (Option-cases (find_if (λ (r : PaymentRequest). r.id == id) w.requests)) [
      | inl e ↦ rw (e, decide) same
      | inr (r, e) ↦
          rw (e, decide)
            (if-intro (λ (p : Result A × Accounts). Changed w p.1) (is_pending r) (decision r w)
              (raise (already_processed r.status), w) (h r (found_at id w.requests r e))
              (λ other. same))
    ]

create_account-Changed :
    (now : ℕ) (ident : DerivedIdentity) (r : PaymentRequest) (w : Accounts)
    → find_if (λ (x : PaymentRequest). x.id == r.id) w.requests ≡ some r
    → is_pending r ≡ true
    → Changed w (create_account now ident r w).1
unfolding create_account
create_account-Changed now ident r w e p =
    if-intro (λ (q : Result Approved × Accounts). Changed w q.1)
      (any_of (λ (u : User). str_eq u.pubkey ident.pubkey) w.users) _ _ (λ clash. same)
      (λ free. approved now ident r e p free)

approve_pending-Changed :
    (lib : Bip39) (now : ℕ) (r : PaymentRequest) (w : Accounts)
    → find_if (λ (x : PaymentRequest). x.id == r.id) w.requests ≡ some r
    → is_pending r ≡ true
    → Changed w (approve_pending lib now r w).1
unfolding approve_pending generate_mnemonic
approve_pending-Changed lib now r w e p =
    elim (Option-cases (derive_keypair lib (lib.generate 256) "")) [
      | inl none_derived ↦ rw (none_derived, approve_pending) same
      | inr (ident, derived) ↦
          rw (derived, approve_pending) (create_account-Changed now ident r w e p)
    ]

reject_pending-Changed :
    (now : ℕ) (reason : Option String) (r : PaymentRequest) (w : Accounts)
    → find_if (λ (x : PaymentRequest). x.id == r.id) w.requests ≡ some r
    → is_pending r ≡ true
    → Changed w (reject_pending now reason r w).1
unfolding reject_pending
reject_pending-Changed now reason r w e p = rejected now (note_reason reason r.note) r e p

pub serve-Changed : (c : Call) (w : Accounts) → Changed w (serve c w)
unfolding serve approve_request reject_request
serve-Changed (submit env body) w = submit_request-Changed env body w
serve-Changed (approve lib now id) w =
    decide-Changed id (approve_pending lib now) w (λ r. approve_pending-Changed lib now r w)
serve-Changed (reject now id reason) w =
    decide-Changed id (reject_pending now reason) w (λ r. reject_pending-Changed now reason r w)
