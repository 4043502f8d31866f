-- ===== src/Accounts/Payments/Calls.antt =====
-- Runs of the calls of lcloud/api/payments.py.
use lcloud.Base.{ℕ, String, Option, List, [], ◌∷◌}
use lcloud.Accounts.{Accounts}
use lcloud.Accounts.Seed.{Bip39}
use lcloud.Accounts.Payments.{
  Env, PaymentRequestIn, submit_request, approve_request, reject_request,
}

-- The calls that write: approvals come with what the libraries draw for them, and decisions with the time
-- and the id of the request.
pub data Call : Type 0 where
  submit : Env → PaymentRequestIn → Call
  approve : Bip39 → ℕ → ℕ → Call
  reject : ℕ → ℕ → Option String → Call

unfoldable pub serve : Call → Accounts → Accounts
serve (submit env body) w = (submit_request env body w).1
serve (approve lib now id) w = (approve_request lib now id w).1
serve (reject now id reason) w = (reject_request now id reason w).1

unfoldable pub serve_all : List Call → Accounts → Accounts
serve_all [] w = w
serve_all (c ∷ cs) w = serve_all cs (serve c w)
