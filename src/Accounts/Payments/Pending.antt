-- ===== src/Accounts/Payments/Pending.antt =====
-- The queue of lcloud/api/payments.py.
use lcloud.Base.{
  ◌≤◌, String, ◌≡◌, ◌≢◌, refl, Bool, true, false, some, List, [], ◌∷◌, ◌++◌, arith, if◌then◌else◌,
  keep_if, length, eq_iff, length-append, keep_if-append,
}
use lcloud.Accounts.{
  User, PaymentRequest, Accounts, update_row, scalar_one_or_none, or_several, absent, several,
  found, Found,
}
use lcloud.Accounts.Payments.{is_pending_of, new_request}
use lcloud.Accounts.Payments.Calls.{Call, serve, serve_all}
use lcloud.Accounts.Payments.Changes.{
  Change, same, queued, approved, rejected, request_id, is_pending, serve-Changed,
}

-- The requests of a contact that wait for a decision.
abbrev pub pending_of : String → List PaymentRequest → List PaymentRequest
pending_of contact = keep_if (is_pending_of contact)

none_pending :
    (contact : String) (rs : List PaymentRequest)
    → scalar_one_or_none (is_pending_of contact) rs ≡ absent
    → length (pending_of contact rs) ≡ 0
none_pending contact [] e = refl
none_pending contact (r ∷ rs) e =
    after (is_pending_of contact r) (scalar_one_or_none (is_pending_of contact) rs) e
      (none_pending contact rs)
  where
    after :
        (b : Bool) (f : Found PaymentRequest)
        → (if b then or_several r f else f) ≡ absent
        → (f ≡ absent → length (pending_of contact rs) ≡ 0)
        → length (if b then r ∷ pending_of contact rs else pending_of contact rs) ≡ 0
    after true absent e h = cc
    after true several e h = cc
    after true (found x) e h = cc
    after false f e h = h e

queued_pending :
    (contact : String) (rs : List PaymentRequest) (new : PaymentRequest)
    → scalar_one_or_none (is_pending_of new.contact_handle) rs ≡ absent
    → length (pending_of contact rs) ≤ 1
    → length (pending_of contact (rs ++ new ∷ [])) ≤ 1
queued_pending contact rs new e h = ground (
  arith,
  length-append (pending_of contact rs) (pending_of contact (new ∷ [])),
  keep_if-append (is_pending_of contact) rs (new ∷ []),
  none_pending new.contact_handle rs e,
  eq_iff new.contact_handle contact,
)

-- A decided row in place of another one.
pending_of-update_row :
    (contact : String) (rs : List PaymentRequest) (new : PaymentRequest)
    → is_pending new ≡ false
    → length (pending_of contact (update_row request_id new rs)) ≤ length (pending_of contact rs)
pending_of-update_row contact [] new d = omega arith
pending_of-update_row contact (r ∷ rs) new d =
    ground (arith, pending_of-update_row contact rs new d)

none_found :
    (contact : String) (rs : List PaymentRequest)
    → length (pending_of contact rs) ≤ 0
    → scalar_one_or_none (is_pending_of contact) rs ≡ absent
none_found contact [] h = refl
none_found contact (r ∷ rs) h = ground (arith, none_found contact rs)

not_several :
    (contact : String) (rs : List PaymentRequest)
    → length (pending_of contact rs) ≤ 1
    → scalar_one_or_none (is_pending_of contact) rs ≢ several
not_several contact [] h e = cc
not_several contact (r ∷ rs) h e =
    after (is_pending_of contact r) (scalar_one_or_none (is_pending_of contact) rs) h e
      (none_found contact rs) (not_several contact rs)
  where
    after :
        (b : Bool) (f : Found PaymentRequest)
        → length (if b then r ∷ pending_of contact rs else pending_of contact rs) ≤ 1
        → (if b then or_several r f else f) ≡ several
        → (length (pending_of contact rs) ≤ 0 → f ≡ absent)
        → (length (pending_of contact rs) ≤ 1 → f ≢ several)
        → ⊥
    after true absent h e empty one = cc
    after true several h e empty one = one (omega (arith, h)) refl
    after true (found x) h e empty one = is_absent (empty (omega (arith, h)))
      where
        is_absent : found x ≡ absent → ⊥
        is_absent e = cc
    after false f h e empty one = one h e

-- A request waits alone for its contact.
record IsQueue (rs : List PaymentRequest) : Type 0 where
  one : (contact : String) → length (pending_of contact rs) ≤ 1

IsQueue-Change :
    {us vs : List User} {rs ss : List PaymentRequest} → Change us rs vs ss → IsQueue rs → IsQueue ss
unfolding new_request
IsQueue-Change same h = h
IsQueue-Change (queued env body a) h = record { one = λ c. queued_pending c _ _ a (h.one c) }
IsQueue-Change (approved now ident old at p free) h = record {
  one = λ c. omega (
    arith,
    pending_of-update_row c _
        (record old { status = "approved"; approved_at = some now; generated_user_id = _ }) refl,
    h.one c,
  );
}
IsQueue-Change (rejected now text old at p) h = record {
  one = λ c. omega (
    arith,
    pending_of-update_row c _
        (record old { status = "rejected"; rejected_at = some now; note = text }) refl,
    h.one c,
  );
}

serve_all-IsQueue :
    (calls : List Call) (w : Accounts) → IsQueue w.requests → IsQueue (serve_all calls w).requests
unfolding serve_all
serve_all-IsQueue [] w h = h
serve_all-IsQueue (c ∷ cs) w h =
    serve_all-IsQueue cs (serve c w) (IsQueue-Change (serve-Changed c w) h)

-- From no requests, whatever is submitted, approved and rejected, no contact has two requests that
-- wait for a decision, and `scalar_one_or_none` for the pending request of a contact never meets
-- several.
pub serve_all-pending :
    (calls : List Call) (w : Accounts) (contact : String)
    → w.requests ≡ []
    → let rs = (serve_all calls w).requests in
      (length (pending_of contact rs) ≤ 1)
      × (scalar_one_or_none (is_pending_of contact) rs ≢ several)
serve_all-pending calls w contact e =
    let one : length (pending_of contact (serve_all calls w).requests) ≤ 1 =
      (serve_all-IsQueue calls w (record { one = λ c. rw e (omega arith) })).one contact in
    (one, not_several contact (serve_all calls w).requests one)
