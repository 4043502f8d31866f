-- ===== src/Mtproto/Tokens.antt =====
-- The token bucket of lcloud/workers/rate_limiter.py over time.

use lcloud.Base.{
  ℕ, zero, suc, ◌+◌, ◌-◌, ◌*◌, ◌≤◌, min, ◌≡◌, ap, ◌∙◌, true, List, [], ◌∷◌, arith, leb, inl, inr,
  Bool-cases,
}
use lcloud.Mtproto.{AsyncTokenBucket, topped_up, taken, deficit, turn}

-- The tokens at a reading of the clock.
abbrev pub tokens_at : ℕ → AsyncTokenBucket → ℕ
tokens_at now b = min b.capacity (b.tokens + (now - b.last) * b.rate)

leb-le : (m n : ℕ) → leb m n ≡ true → m ≤ n
leb-le m n e = ground arith

-- The parts that requests take, each at one reading of the clock, by one caller or several.
unfoldable pub grant : List (ℕ × ℕ) → AsyncTokenBucket → ℕ
grant [] b = 0
grant ((n, now) ∷ rs) b = elim (turn n now b) [
  | taken b' ↦ n + grant rs b'
  | deficit d b' ↦ grant rs b'
]

-- The readings ascend from `from` to `stop`.
abbrev pub Ascend : ℕ → ℕ → List (ℕ × ℕ) → Type 0
Ascend from stop [] = from ≤ stop
Ascend from stop ((n, now) ∷ rs) = (from ≤ now) × Ascend now stop rs

Ascend-le : (from stop : ℕ) (rs : List (ℕ × ℕ)) → Ascend from stop rs → from ≤ stop
Ascend-le from stop [] h = h
Ascend-le from stop ((n, now) ∷ rs) (le, h) = omega (arith, le, Ascend-le now stop rs h)

add_mul : (a b r : ℕ) → (a + b) * r ≡ a * r + b * r
add_mul zero b r = omega arith
add_mul (suc a) b r = omega (arith, add_mul a b r)

window_split : (a b c r : ℕ) → a ≤ b → b ≤ c → (c - a) * r ≡ (c - b) * r + (b - a) * r
window_split a b c r le ge = ap (λ k. k * r) (parts a b c le ge) ∙ add_mul (c - b) (b - a) r
  where
    parts : (a b c : ℕ) → a ≤ b → b ≤ c → c - a ≡ (c - b) + (b - a)
    parts a b c le ge = omega arith

-- Over requests at readings of the clock that ascend up to `stop`, by whatever callers, the parts that
-- are taken are at most those that the bucket holds and what the clock refills until `stop`.
pub grant-tokens :
    (stop : ℕ) (rs : List (ℕ × ℕ)) (b : AsyncTokenBucket)
    → Ascend b.last stop rs
    → grant rs b ≤ b.tokens + (stop - b.last) * b.rate
unfolding grant turn topped_up
grant-tokens stop [] b h = omega arith
grant-tokens stop ((n, now) ∷ rs) b (le, h) =
    let tokens = tokens_at now b in
    let t : AsyncTokenBucket = record b { tokens = tokens - n; last = now } in
    let w : AsyncTokenBucket = record b { tokens = tokens; last = now } in
    let split = window_split b.last now stop b.rate le (Ascend-le now stop rs h) in
    elim (Bool-cases (leb n tokens)) [
      | inl e ↦ rw (e, grant) (omega (arith, grant-tokens stop rs t h, split, leb-le n tokens e))
      | inr e ↦ rw (e, grant) (omega (arith, grant-tokens stop rs w h, split))
    ]
