-- ===== src/Mtproto/Retries.antt =====
-- The retries of lcloud/workers/rate_limiter.py.
use mathlib.Core.Path.{subst}
use lcloud.Base.{
  ℕ, zero, suc, ◌+◌, ◌≤◌, ◌<◌, ◌≡◌, refl, Bool, true, false, Option, none, some, List, [], ◌∷◌,
  arith, ltb, if◌then◌else◌, length,
}
use lcloud.Mtproto.{
  Outcome, returns, flood_wait, fails, Event, acquires, calls, sleeps, Ended, value,
  flood_wait_error, other_error, raise_last, retry, call_with_floodwait_retry,
}

-- Attempts that Telegram puts off, each for no longer than the limit, from one number on.
abbrev pub PutOff : {A : Type 0} → (ℕ → Outcome A) → ℕ → ℕ → List ℕ → Type 0
PutOff fn limit attempt [] = Unit {0}
PutOff fn limit attempt (s ∷ waits) =
    ((fn attempt ≡ flood_wait s) × (s ≤ limit)) × PutOff fn limit (suc attempt) waits

-- Each attempt that is put off asks the limiter, calls, and sleeps for a second more than it was told.
abbrev pub slept : List ℕ → List Event → List Event
slept [] es = es
slept (s ∷ waits) es = acquires ∷ calls ∷ sleeps (s + 1) ∷ slept waits es

-- How the attempt ends that is not put off: none for one that is.
abbrev pub ends : {A : Type 0} → ℕ → Outcome A → Option (Ended A)
ends limit (returns a) = some (value a)
ends limit fails = some other_error
ends limit (flood_wait s) = if ltb limit s then some (flood_wait_error s) else none

abbrev pub last_of : Option ℕ → List ℕ → Option ℕ
last_of o [] = o
last_of o (s ∷ waits) = last_of (some s) waits

within : (s limit : ℕ) → s ≤ limit → ltb limit s ≡ false
within s limit le = ground arith

retry-ends :
    {A : Type 0} (fn : ℕ → Outcome A) (limit left attempt : ℕ) (last : Option ℕ) (waits : List ℕ)
    (end : Ended A)
    → PutOff fn limit attempt waits
    → length waits < left
    → ends limit (fn (attempt + length waits)) ≡ some end
    → retry fn limit left attempt last ≡ (end, slept waits (acquires ∷ calls ∷ []))
unfolding retry
retry-ends fn limit zero attempt last waits end h lt e = elim (none_left lt) [ ]
  where
    none_left : length waits < 0 → ⊥
    none_left lt = omega arith
retry-ends {A = A} fn limit (suc left) attempt last [] end h lt e =
    after (fn attempt) refl (subst (λ k. ends limit (fn k) ≡ some end) (plus_zero attempt) e)
  where
    plus_zero : (k : ℕ) → k + 0 ≡ k
    plus_zero k = omega arith

    after :
        (o : Outcome A)
        → fn attempt ≡ o
        → ends limit o ≡ some end
        → retry fn limit (suc left) attempt last ≡ (end, acquires ∷ calls ∷ [])
    after (returns a) f e = rw (f, retry) (cc)
    after fails f e = rw (f, retry) (cc)
    after (flood_wait s) f e = over (ltb limit s) refl e
      where
        over :
            (b : Bool)
            → ltb limit s ≡ b
            → (if b then some (flood_wait_error s) else none) ≡ some end
            → retry fn limit (suc left) attempt last ≡ (end, acquires ∷ calls ∷ [])
        over true l e = rw (f, retry, l) (cc)
        over false l e = cc
retry-ends fn limit (suc left) attempt last (s ∷ waits) end ((w, le), h) lt e =
    rw
      (
        w,
        retry,
        within s limit le,
        retry-ends fn limit left (suc attempt) (some s) waits end h (omega (arith, lt))
            (subst (λ k. ends limit (fn k) ≡ some end) (shift attempt (length waits)) e),
      )
      refl
  where
    shift : (k n : ℕ) → k + suc n ≡ suc k + n
    shift k n = omega arith

retry-exhausted :
    {A : Type 0} (fn : ℕ → Outcome A) (limit attempt : ℕ) (last : Option ℕ) (waits : List ℕ)
    → PutOff fn limit attempt waits
    → retry fn limit (length waits) attempt last ≡ (raise_last (last_of last waits), slept waits [])
unfolding retry
retry-exhausted fn limit attempt last [] h = refl
retry-exhausted fn limit attempt last (s ∷ waits) ((w, le), h) =
    rw (w, retry, within s limit le, retry-exhausted fn limit (suc attempt) (some s) waits h) refl

-- Where the first attempts are put off, each for no longer than the limit, and the next one, still among
-- the `max_retries`, returns a value, raises another exception, or is put off for longer than the
-- limit: the call ends with just that, having slept after each attempt that was put off for a second
-- more than it was told, having asked the limiter before each attempt, and makes no further attempt.
pub call_with_floodwait_retry-ends :
    {A : Type 0} (fn : ℕ → Outcome A) (max_retries limit : ℕ) (waits : List ℕ) (end : Ended A)
    → PutOff fn limit 0 waits
    → length waits < max_retries
    → ends limit (fn (length waits)) ≡ some end
    → call_with_floodwait_retry fn max_retries limit ≡ (end, slept waits (acquires ∷ calls ∷ []))
unfolding call_with_floodwait_retry
call_with_floodwait_retry-ends fn max_retries limit waits end h lt e =
    retry-ends fn limit max_retries 0 none waits end h lt
      (subst (λ k. ends limit (fn k) ≡ some end) (zero_plus (length waits)) e)
  where
    zero_plus : (k : ℕ) → k ≡ 0 + k
    zero_plus k = omega arith

-- Where all of one or more attempts are put off, each for no longer than the limit, the call raises the
-- last `FloodWaitError`, after the sleep for it.
pub call_with_floodwait_retry-exhausted :
    {A : Type 0} (fn : ℕ → Outcome A) (limit s : ℕ) (waits : List ℕ)
    → PutOff fn limit 0 (s ∷ waits)
    → call_with_floodwait_retry fn (length (s ∷ waits)) limit
      ≡ (raise_last (last_of (some s) waits), slept (s ∷ waits) [])
unfolding call_with_floodwait_retry
call_with_floodwait_retry-exhausted fn limit s waits h =
    retry-exhausted fn limit 0 none (s ∷ waits) h
