-- ===== src/Mtproto.antt =====
-- lcloud/workers/rate_limiter.py: the token bucket before the calls to Telegram, and their retries.
--
-- Tokens are counted in parts, of which a token has `unit`, and the clock in ticks, so that `rate` is the
-- number of parts for each tick: the floats become exact numbers.
pub mod Tokens
pub mod Retries
use lcloud.Base.{
  ℕ, zero, suc, ◌+◌, ◌-◌, ◌*◌, Bool, Option, none, some, List, [], ◌∷◌, ◌==◌, ltb, leb,
  if◌then◌else◌, ◌||◌, min,
}

-- `AsyncTokenBucket`
pub record AsyncTokenBucket : Type 0 where
  pub unit : ℕ
  pub rate : ℕ
  pub capacity : ℕ
  pub tokens : ℕ
  pub last : ℕ

-- `__init__`: none stands for the `ValueError`s.
unfoldable pub create : ℕ → ℕ → ℕ → ℕ → Option AsyncTokenBucket
create unit rate burst now =
    if rate == 0 || burst == 0
    then none
    else some (record {
      unit = unit;
      rate = rate;
      capacity = burst * unit;
      tokens = burst * unit;
      last = now;
    })

-- The refill at a reading of the clock.
unfoldable pub topped_up : ℕ → AsyncTokenBucket → AsyncTokenBucket
topped_up now b = record b {
  tokens = min b.capacity (b.tokens + (now - b.last) * b.rate);
  last = now;
}

-- What a turn of the loop of `acquire` under the lock comes to: the tokens are taken, or the wait is for
-- the deficit.
pub data Turn : Type 0 where
  taken : AsyncTokenBucket → Turn
  deficit : ℕ → AsyncTokenBucket → Turn

unfoldable pub turn : ℕ → ℕ → AsyncTokenBucket → Turn
unfolding topped_up
turn n now b =
    let r = topped_up now b in
    if leb n r.tokens then taken (record r { tokens = r.tokens - n }) else deficit (n - r.tokens) r

-- How `acquire` ends: the `ValueError`s, the tokens taken, or still asleep after the readings of the
-- clock that are given.
pub data Acquired : Type 0 where
  bad_request : Acquired
  acquired : AsyncTokenBucket → Acquired
  asleep : AsyncTokenBucket → Acquired

unfoldable pub acquire_loop : ℕ → List ℕ → AsyncTokenBucket → Acquired
acquire_loop n [] b = asleep b
acquire_loop n (now ∷ readings) b = elim (turn n now b) [
  | taken b' ↦ acquired b'
  | deficit d b' ↦ acquire_loop n readings b'
]

unfoldable pub acquire : ℕ → List ℕ → AsyncTokenBucket → Acquired
acquire n readings b = if n == 0 || ltb b.capacity n then bad_request else acquire_loop n readings b

-- What an awaited call comes to: a value, a `FloodWaitError` with its seconds, or another exception.
pub data Outcome (A : Type 0) : Type 0 where
  returns : A → Outcome A
  flood_wait : ℕ → Outcome A
  fails : Outcome A

-- What `call_with_floodwait_retry` does.
pub data Event : Type 0 where
  acquires calls : Event
  sleeps : ℕ → Event

-- How it ends: `no_retries` is the failed `assert`.
pub data Ended (A : Type 0) : Type 0 where
  value : A → Ended A
  flood_wait_error : ℕ → Ended A
  other_error no_retries : Ended A

abbrev pub raise_last : {A : Type 0} → Option ℕ → Ended A
raise_last none = no_retries
raise_last (some seconds) = flood_wait_error seconds

abbrev pub after_events : {A : Type 0} → List Event → Ended A × List Event → Ended A × List Event
after_events [] r = r
after_events (e ∷ es) r = let (end, rest) = after_events es r in (end, e ∷ rest)

-- The attempts that are left, from the one of number `attempt` on.
unfoldable pub retry : {A : Type 0} → (ℕ → Outcome A) → ℕ → ℕ → ℕ → Option ℕ → Ended A × List Event
retry fn max_floodwait_sec zero attempt last_error = (raise_last last_error, [])
retry fn max_floodwait_sec (suc left) attempt last_error = elim (fn attempt) [
  | returns a ↦ (value a, acquires ∷ calls ∷ [])
  | fails ↦ (other_error, acquires ∷ calls ∷ [])
  | flood_wait seconds ↦
      (let rest = retry fn max_floodwait_sec left (suc attempt) (some seconds) in
        if ltb max_floodwait_sec seconds
        then (flood_wait_error seconds, acquires ∷ calls ∷ [])
        else after_events (acquires ∷ calls ∷ sleeps (seconds + 1) ∷ []) rest)
]

-- `fn attempt` is what the attempt of this number comes to.
unfoldable pub call_with_floodwait_retry :
    {A : Type 0} → (ℕ → Outcome A) → ℕ → ℕ → Ended A × List Event
call_with_floodwait_retry fn max_retries max_floodwait_sec =
    retry fn max_floodwait_sec max_retries 0 none
