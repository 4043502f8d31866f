-- ===== src/Accounts/Payments/Decisions.antt =====
-- Requests that lcloud/api/payments.py has decided.
use lcloud.Base.{ℕ, ◌≡◌, refl, true, false, Option, some, List, [], ◌∷◌, ◌++◌, arith, ◌==◌, find_if}
use lcloud.Accounts.{User, PaymentRequest, Accounts, update_row}
use lcloud.Accounts.Payments.Calls.{Call, serve, serve_all}
use lcloud.Accounts.Payments.Changes.{
  Change, same, queued, approved, rejected, request_id, is_pending, serve-Changed,
}

-- The look-up of a request by its id.
abbrev pub request_at : ℕ → List PaymentRequest → Option PaymentRequest
request_at id = find_if (λ (x : PaymentRequest). x.id == id)

request_at-append :
    (id : ℕ) (rs : List PaymentRequest) (r s : PaymentRequest)
    → request_at id rs ≡ some r
    → request_at id (rs ++ s ∷ []) ≡ some r
request_at-append id [] r s e = cc
request_at-append id (x ∷ rs) r s e = ground (arith, request_at-append id rs r s)

some_inj : (a b : PaymentRequest) → some a ≡ some b → a ≡ b
some_inj a b e = cc

-- The flush of a row whose old form is another row.
request_at-update_row :
    (id : ℕ) (rs : List PaymentRequest) (r old new : PaymentRequest)
    → new.id ≡ old.id
    → request_at old.id rs ≡ some old
    → is_pending old ≡ true
    → request_at id rs ≡ some r
    → is_pending r ≡ false
    → request_at id (update_row request_id new rs) ≡ some r
request_at-update_row id [] r old new same_id at p e d = cc
request_at-update_row id (x ∷ rs) r old new same_id at p e d =
    ground (arith, request_at-update_row id rs r old new same_id, some_inj x old, some_inj x r)

decided-Change :
    {us vs : List User} {rs ss : List PaymentRequest} (id : ℕ) (r : PaymentRequest)
    → Change us rs vs ss
    → request_at id rs ≡ some r
    → is_pending r ≡ false
    → request_at id ss ≡ some r
decided-Change id r same e d = e
decided-Change id r (queued env body a) e d = request_at-append id _ r _ e
decided-Change id r (approved now ident old at p free) e d =
    request_at-update_row id _ r old _ refl at p e d
decided-Change id r (rejected now text old at p) e d =
    request_at-update_row id _ r old _ refl at p e d

-- A request that is approved or rejected keeps its row as it is, whatever calls come after: no request
-- is decided twice.
pub serve_all-decided :
    (calls : List Call) (w : Accounts) (id : ℕ) (r : PaymentRequest)
    → request_at id w.requests ≡ some r
    → is_pending r ≡ false
    → request_at id (serve_all calls w).requests ≡ some r
unfolding serve_all
serve_all-decided [] w id r e d = e
serve_all-decided (c ∷ cs) w id r e d =
    serve_all-decided cs (serve c w) id r (decided-Change id r (serve-Changed c w) e d) d
