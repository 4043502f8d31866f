-- ===== src/Accounts/Payments/Sold.antt =====
-- The accounts that lcloud/api/payments.py has sold.
use mathlib.Core.Path.{subst}
use lcloud.Base.{
  suc, ◌+◌, ◌≡◌, refl, sym, Bool, true, false, some, List, [], ◌∷◌, ◌++◌, arith, str_eq,
  if◌then◌else◌, keep_if, length, length-append, eq_iff,
}
use lcloud.Accounts.{User, PaymentRequest, Accounts, update_row}
use lcloud.Accounts.Payments.{new_request, new_user}
use lcloud.Accounts.Payments.Calls.{Call, serve, serve_all}
use lcloud.Accounts.Payments.Changes.{
  Change, same, queued, approved, rejected, request_id, is_pending, serve-Changed,
}
use lcloud.Accounts.Payments.Decisions.{request_at}

abbrev pub is_approved : PaymentRequest → Bool
is_approved r = str_eq r.status "approved"

abbrev pub approved_in : List PaymentRequest → List PaymentRequest
approved_in = keep_if is_approved

approved_in-append :
    (rs : List PaymentRequest) (r : PaymentRequest)
    → is_approved r ≡ false
    → length (approved_in (rs ++ r ∷ [])) ≡ length (approved_in rs)
approved_in-append [] r e = ground arith
approved_in-append (x ∷ rs) r e = ground (arith, approved_in-append rs r e)

-- A pending row is not an approved one.
pending_only : (r : PaymentRequest) → is_pending r ≡ true → is_approved r ≡ false
pending_only r e =
    subst (λ s. str_eq s "approved" ≡ false) (sym ((eq_iff r.status "pending").0 e)) refl

some_inj : (a b : PaymentRequest) → some a ≡ some b → a ≡ b
some_inj a b e = cc

-- The decided row in place of the pending one.
approved_in-update_row :
    (rs : List PaymentRequest) (old new : PaymentRequest)
    → new.id ≡ old.id
    → request_at old.id rs ≡ some old
    → is_approved old ≡ false
    → length (approved_in (update_row request_id new rs))
      ≡ (if is_approved new then suc (length (approved_in rs)) else length (approved_in rs))
approved_in-update_row [] old new same_id at p = cc
approved_in-update_row (x ∷ rs) old new same_id at p =
    ground (arith, approved_in-update_row rs old new same_id, some_inj x old)

sold-Change :
    {us vs : List User} {rs ss : List PaymentRequest}
    → Change us rs vs ss
    → length vs + length (approved_in rs) ≡ length us + length (approved_in ss)
unfolding new_request
sold-Change same = refl
sold-Change {us} {rs = rs} (queued env body a) =
    omega (arith, approved_in-append rs (new_request env body rs) refl)
sold-Change {us} {rs = rs} (approved now ident old at p free) = omega (
  arith,
  length-append us (new_user ident old us ∷ []),
  approved_in-update_row rs old
      (record old {
        status = "approved";
        approved_at = some now;
        generated_user_id = some (new_user ident old us).id;
      })
      refl at (pending_only old p),
)
sold-Change {us} {rs = rs} (rejected now text old at p) = omega (
  arith,
  approved_in-update_row rs old
      (record old { status = "rejected"; rejected_at = some now; note = text }) refl at
      (pending_only old p),
)

-- Over any calls, as many accounts are created as requests become approved: none without an
-- approval, and one for each.
pub serve_all-sold :
    (calls : List Call) (w : Accounts)
    → let t = serve_all calls w in
      length t.users + length (approved_in w.requests)
      ≡ length w.users + length (approved_in t.requests)
unfolding serve_all
serve_all-sold [] w = refl
serve_all-sold (c ∷ cs) w =
    omega (arith, serve_all-sold cs (serve c w), sold-Change (serve-Changed c w))
