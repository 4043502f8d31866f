-- ===== src/Accounts/Payments/Twice.antt =====
-- Contacts that buy twice of lcloud/api/payments.py, and their recovery by lcloud/api/pin_recovery.py.
use mathlib.Core.Path.{subst}
use lcloud.Base.{
  ℕ, suc, String, ◌+◌, ◌≤◌, ◌≡◌, ◌≢◌, refl, sym, Bool, true, false, ◌&&◌, some, List, [], ◌∷◌, ◌++◌,
  arith, str_eq, if◌then◌else◌, keep_if, length, eq_iff,
}
use lcloud.Accounts.{
  User, PaymentRequest, Accounts, update_row, Found, absent, several, found, or_several,
  scalar_one_or_none, ok,
}
use lcloud.Accounts.Payments.{new_request, new_user}
use lcloud.Accounts.Payments.Calls.{Call, serve, serve_all}
use lcloud.Accounts.Payments.Changes.{
  Change, same, queued, approved, rejected, request_id, is_pending, serve-Changed,
}
use lcloud.Accounts.Payments.Decisions.{request_at}
use lcloud.Accounts.Pin.{Crypto, Guess, has_contact, recover_seed}
use lcloud.Accounts.Pin.Recovery.{recover_seed-several}

-- An approved request of the contact.
abbrev pub is_sold_to : String → PaymentRequest → Bool
is_sold_to contact r = str_eq r.status "approved" && str_eq r.contact_handle contact

abbrev pub sold_to : String → List PaymentRequest → ℕ
sold_to contact rs = length (keep_if (is_sold_to contact) rs)

abbrev accounts_of : String → List User → ℕ
accounts_of contact us = length (keep_if (has_contact contact) us)

count-append :
    {A : Type 0} (p : A → Bool) (xs : List A) (x : A)
    → length (keep_if p (xs ++ x ∷ []))
      ≡ (if p x then suc (length (keep_if p xs)) else length (keep_if p xs))
count-append p [] x = ground arith
count-append p (y ∷ xs) x = ground (arith, count-append p xs x)

pending_only :
    (contact : String) (r : PaymentRequest) → is_pending r ≡ true → is_sold_to contact r ≡ false
pending_only contact r e =
    subst (λ s. (str_eq s "approved" && str_eq r.contact_handle contact) ≡ false)
      (sym ((eq_iff r.status "pending").0 e)) refl

some_inj : (a b : PaymentRequest) → some a ≡ some b → a ≡ b
some_inj a b e = cc

-- The decided row in place of the pending one.
sold_to-update_row :
    (contact : String) (rs : List PaymentRequest) (old new : PaymentRequest)
    → new.id ≡ old.id
    → request_at old.id rs ≡ some old
    → is_sold_to contact old ≡ false
    → sold_to contact (update_row request_id new rs)
      ≡ (if is_sold_to contact new then suc (sold_to contact rs) else sold_to contact rs)
sold_to-update_row contact [] old new same_id at p = cc
sold_to-update_row contact (x ∷ rs) old new same_id at p =
    ground (arith, sold_to-update_row contact rs old new same_id, some_inj x old)

sold_to-Change :
    (contact : String) {us vs : List User} {rs ss : List PaymentRequest}
    → Change us rs vs ss
    → accounts_of contact vs + sold_to contact rs ≡ accounts_of contact us + sold_to contact ss
unfolding new_request new_user
sold_to-Change contact same = refl
sold_to-Change contact {us} {rs = rs} (queued env body a) =
    ground (arith, count-append (is_sold_to contact) rs (new_request env body rs))
sold_to-Change contact {us} {rs = rs} (approved now ident old at p free) = ground (
  arith,
  count-append (has_contact contact) us (new_user ident old us),
  sold_to-update_row contact rs old
      (record old {
        status = "approved";
        approved_at = some now;
        generated_user_id = some (new_user ident old us).id;
      })
      refl at (pending_only contact old p),
)
sold_to-Change contact {us} {rs = rs} (rejected now text old at p) = ground (
  arith,
  sold_to-update_row contact rs old
      (record old { status = "rejected"; rejected_at = some now; note = text }) refl at
      (pending_only contact old p),
)

-- The accounts of a contact are as many as the requests that are approved for it.
serve_all-sold_to :
    (contact : String) (calls : List Call) (w : Accounts)
    → let t = serve_all calls w in
      accounts_of contact t.users + sold_to contact w.requests
      ≡ accounts_of contact w.users + sold_to contact t.requests
unfolding serve_all
serve_all-sold_to contact [] w = refl
serve_all-sold_to contact (c ∷ cs) w =
    omega
      (arith, serve_all-sold_to contact cs (serve c w), sold_to-Change contact (serve-Changed c w))

abbrev Counts : Found User → ℕ → Type 0
Counts absent n = n ≡ 0
Counts (found u) n = n ≡ 1
Counts several n = 2 ≤ n

scalar_one_or_none-Counts :
    (p : User → Bool) (us : List User) → Counts (scalar_one_or_none p us) (length (keep_if p us))
scalar_one_or_none-Counts p [] = refl
scalar_one_or_none-Counts p (u ∷ us) =
    after (p u) (scalar_one_or_none p us) (keep_if p us) (scalar_one_or_none-Counts p us)
  where
    after :
        (b : Bool) (o : Found User) (vs : List User)
        → Counts o (length vs)
        → Counts (if b then or_several u o else o) (length (if b then u ∷ vs else vs))
    after false o vs h = h
    after true absent vs h = omega (arith, h)
    after true (found v) vs h = omega (arith, h)
    after true several vs h = omega (arith, h)

two-several : (o : Found User) (n : ℕ) → Counts o n → 2 ≤ n → o ≡ several
two-several absent n h le = absurd (omega (arith, h, le))
two-several (found u) n h le = absurd (omega (arith, h, le))
two-several several n h le = refl

-- When calls of submit_request, approve_request and reject_request have approved two requests of one contact
-- or more, whatever other such calls came before, between
-- and after, no recovery by this contact replies with words, whatever the PIN, and none changes an
-- account: what the contact has bought twice, it cannot recover.
pub recover_seed-twice :
    (lib : Crypto) (g : Guess) (calls : List Call) (w : Accounts)
    → let t = serve_all calls w in
      sold_to g.contact_handle w.requests + 2 ≤ sold_to g.contact_handle t.requests
      → ((words : String) → (recover_seed lib g t).0 ≢ ok words)
        × ((recover_seed lib g t).1.users ≡ t.users)
recover_seed-twice lib g calls w more = recover_seed-several lib g (serve_all calls w) (
    two-several _ _
      (scalar_one_or_none-Counts (has_contact g.contact_handle) (serve_all calls w).users)
      (omega (arith, more, serve_all-sold_to g.contact_handle calls w)))
