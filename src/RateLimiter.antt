-- ===== src/RateLimiter.antt =====
-- lcloud/utils/rate_limit.py: the token bucket for each key that guards the public endpoints.
--
-- Time is read in ticks of the monotonic clock, and `refill` is `refill_seconds` in ticks. A bucket's
-- tokens are counted in units of 1 / refill of a token, in which `capacity / refill_seconds` tokens
-- for each second are `capacity` units for each tick: the Python floats become exact numbers.
pub mod Bounds
use lcloud.Base.{
  ℕ, ◌+◌, ◌-◌, ◌*◌, String, Bool, true, false, none, some, [], ltb, ◌==◌, ◌||◌, Option, min,
  if◌then◌else◌,
}
use lcloud.Base.Assoc.{Assoc, lookup, insert}

-- The tokens and the time of the last update.
pub record Bucket : Type 0 where
  pub tokens : ℕ
  pub last : ℕ

pub record RateLimiter : Type 0 where
  pub capacity : ℕ
  pub refill : ℕ
  pub buckets : Assoc Bucket

-- `__init__`: none stands for the `ValueError`s.
unfoldable pub create : ℕ → ℕ → Option RateLimiter
create capacity refill =
    if capacity == 0 || refill == 0
    then none
    else some (record { capacity = capacity; refill = refill; buckets = [] })

-- `self._capacity`, in the units of a bucket.
abbrev pub full : RateLimiter → ℕ
full r = r.capacity * r.refill

-- `self._buckets.get(key, (self._capacity, now))`
unfoldable pub bucket_or_full : RateLimiter → Option Bucket → ℕ → Bucket
bucket_or_full r none now = record { tokens = full r; last = now }
bucket_or_full r (some b) now = b

-- `min(self._capacity, tokens + (now - last) * self._refill_rate)`; the clock never runs back.
unfoldable pub refilled : RateLimiter → Bucket → ℕ → ℕ
refilled r b now = min (full r) (b.tokens + (now - b.last) * r.capacity)

-- `if tokens < cost: … else: tokens -= cost`: whether the call passes, and what is left.
unfoldable pub charge : ℕ → ℕ → Bool × ℕ
charge tokens price = if ltb tokens price then (false, tokens) else (true, tokens - price)

-- The tokens that `key` has at `now`.
unfoldable pub level : RateLimiter → String → ℕ → ℕ
unfolding bucket_or_full refilled
level r key now = refilled r (bucket_or_full r (lookup key r.buckets) now) now

-- Both branches of the code store the bucket, with `now`.
unfoldable pub try_acquire : String → ℕ → ℕ → RateLimiter → Bool × RateLimiter
unfolding charge
try_acquire key cost now r =
    let (passed, left) = charge (level r key now) (cost * r.refill) in
    (passed, record r { buckets = insert key (record { tokens = left; last = now }) r.buckets })

unfoldable pub reset : RateLimiter → RateLimiter
reset r = record r { buckets = [] }
