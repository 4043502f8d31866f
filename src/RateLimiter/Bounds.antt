-- ===== src/RateLimiter/Bounds.antt =====
-- `try_acquire` of lcloud/utils/rate_limit.py over a window of time.
use mathlib.Core.Bool.{false≢true}
use mathlib.Core.Path.{subst}
use lcloud.Base.{
  ℕ, ◌+◌, ◌-◌, ◌*◌, ◌≤◌, String, ◌≡◌, refl, sym, ◌∙◌, ap, ◌≢◌, Option, true, none, some, List, [],
  ◌∷◌, arith, str_eq, eq_iff, str_eq_refl, if◌then◌else◌, Bool-cases, Option-cases, inl, inr,
}
use lcloud.Base.Assoc.{lookup, lookup-insert}
use lcloud.RateLimiter.{Bucket, RateLimiter, bucket_or_full, refilled, charge, level, try_acquire}

-- The bucket was last used at `now` or before: the clock is monotonic.
abbrev pub NotAfter : ℕ → Option Bucket → Type 0
NotAfter now none = Unit {0}
NotAfter now (some b) = b.last ≤ now

abbrev pub IsCurrent : RateLimiter → String → ℕ → Type 0
IsCurrent r key now = NotAfter now (lookup key r.buckets)

-- Calls at the times of a clock that runs from `start` to `stop`.
abbrev pub Within : ℕ → List (String × ℕ) → ℕ → Type 0
Within start [] stop = start ≤ stop
Within start ((key, t) ∷ calls) stop = (start ≤ t) × Within t calls stop

-- How many of the calls of one key pass, each at a cost of one token.
unfoldable pub passed : String → List (String × ℕ) → RateLimiter → ℕ
passed key [] r = 0
passed key ((k, t) ∷ calls) r =
    let (ok, r') = try_acquire k 1 t r in
    (if str_eq k key then (if ok then 1 else 0) else 0) + passed key calls r'

mul-sub_split : (a b c k : ℕ) → a ≤ b → b ≤ c → (b - a) * k + (c - b) * k ≡ (c - a) * k
mul-sub_split a b c k p q = omega (arith, ap (λ (t : ℕ). t * k) (sum_sub a b c p q))
  where
    sum_sub : (a b c : ℕ) → a ≤ b → b ≤ c → (b - a) + (c - b) ≡ c - a
    sum_sub a b c p q = omega arith

refilled_later :
    (r : RateLimiter) (o : Option Bucket) (s t : ℕ)
    → NotAfter s o
    → s ≤ t
    → refilled r (bucket_or_full r o t) t
      ≤ refilled r (bucket_or_full r o s) s + (t - s) * r.capacity
unfolding refilled bucket_or_full
refilled_later r none s t h p = omega arith
refilled_later r (some b) s t h p = omega (arith, mul-sub_split b.last s t r.capacity h p)

-- The token that a call takes is paid for out of the key's level.
try_acquire_self :
    (key : String) (now : ℕ) (r : RateLimiter)
    → let (ok, r') = try_acquire key 1 now r in
      (if ok then 1 else 0) * r.refill + level r' key now ≤ level r key now
unfolding try_acquire level refilled bucket_or_full
try_acquire_self key now r =
    rw (lookup-insert, str_eq_refl key)
      (ground (arith, ap (λ (t : ℕ). t * r.capacity) (sub_self now)))
  where
    sub_self : (n : ℕ) → n - n ≡ 0
    sub_self n = omega arith

-- A call for one key, whether it passes or not, leaves the bucket of every other key as it is.
pub lookup-try_acquire_ne :
    (k key : String) (cost now : ℕ) (r : RateLimiter)
    → k ≢ key
    → lookup key (try_acquire k cost now r).1.buckets ≡ lookup key r.buckets
unfolding try_acquire
lookup-try_acquire_ne k key cost now r h = rw lookup-insert (ground (arith, eq_iff k key))

pub try_acquire-IsCurrent :
    (k key : String) (cost now : ℕ) (r : RateLimiter)
    → IsCurrent r key now
    → IsCurrent (try_acquire k cost now r).1 key now
unfolding try_acquire
try_acquire-IsCurrent k key cost now r h = rw lookup-insert (ground arith)

NotAfter-mono : (o : Option Bucket) (s t : ℕ) → NotAfter s o → s ≤ t → NotAfter t o
NotAfter-mono none s t h p = tt
NotAfter-mono (some b) s t h p = omega arith

level-eq_of_lookup :
    (r r' : RateLimiter) (key : String) (now : ℕ)
    → r'.capacity ≡ r.capacity
    → r'.refill ≡ r.refill
    → lookup key r'.buckets ≡ lookup key r.buckets
    → level r' key now ≡ level r key now
unfolding level refilled bucket_or_full
level-eq_of_lookup r r' key now p q e = rw (e, p, q) refl

-- One call, whoever makes it, is paid for out of the level of `key` at most.
passed_once :
    (key k : String) (t : ℕ) (r : RateLimiter)
    → let (ok, r') = try_acquire k 1 t r in
      (if str_eq k key then (if ok then 1 else 0) else 0) * r.refill + level r' key t
      ≤ level r key t
passed_once key k t r = elim (Bool-cases (str_eq k key)) [
  | inl same ↦ rw same (
      subst
        (λ j.
          (if (try_acquire j 1 t r).0 then 1 else 0) * r.refill
            + level (try_acquire j 1 t r).1 key t
          ≤ level r key t)
        (sym ((eq_iff k key).0 same)) (try_acquire_self key t r))
  | inr other ↦ rw other (
      omega (
        arith,
        level-eq_of_lookup r (try_acquire k 1 t r).1 key t (unfold try_acquire in refl)
            (unfold try_acquire in refl)
            (lookup-try_acquire_ne k key 1 t r (λ e. false≢true (sym other ∙ (eq_iff k key).1 e))),
      ))
]

Within-le :
    (start : ℕ) (calls : List (String × ℕ)) (stop : ℕ) → Within start calls stop → start ≤ stop
Within-le start [] stop w = w
Within-le start ((k, t) ∷ calls) stop w = omega (arith, Within-le t calls stop w.1)

level_later :
    (r : RateLimiter) (key : String) (s t : ℕ)
    → IsCurrent r key s
    → s ≤ t
    → level r key t ≤ level r key s + (t - s) * r.capacity
unfolding level
level_later r key s t h p = refilled_later r (lookup key r.buckets) s t h p

-- The bound with the limiter's two numbers held fixed, as every call leaves them.
passed-le_fixed :
    (c n : ℕ) (key : String) (calls : List (String × ℕ)) (start stop : ℕ) (r : RateLimiter)
    → r.capacity ≡ c
    → r.refill ≡ n
    → IsCurrent r key start
    → Within start calls stop
    → passed key calls r * n ≤ level r key start + (stop - start) * c
unfolding passed
passed-le_fixed c n key [] start stop r p q h w = omega arith
passed-le_fixed c n key ((k, t) ∷ calls) start stop r p q h w =
    let r' : RateLimiter = (try_acquire k 1 t r).1 in
    let current = NotAfter-mono (lookup key r.buckets) start t h w.0 in
    let ih =
      passed-le_fixed c n key calls t stop r' (unfold try_acquire in p) (unfold try_acquire in q)
        (try_acquire-IsCurrent k key 1 t r current) w.1 in
    omega (
      arith,
      ih,
      level_later r key start t h w.0,
      passed_once key k t r,
      mul-sub_split start t stop c w.0 (Within-le t calls stop w.1),
      ap (λ (x : ℕ). (t - start) * x) p,
      ap (λ (x : ℕ). (if str_eq k key then (if (try_acquire k 1 t r).0 then 1 else 0) else 0) * x)
          q,
    )

-- Calls of any keys at any times of a window: the tokens of the key at its start, and what a window
-- of its length refills, pay for every call of the key that passes.
pub passed-le :
    (key : String) (calls : List (String × ℕ)) (start stop : ℕ) (r : RateLimiter)
    → IsCurrent r key start
    → Within start calls stop
    → passed key calls r * r.refill ≤ level r key start + (stop - start) * r.capacity
passed-le key calls start stop r h w =
    passed-le_fixed r.capacity r.refill key calls start stop r refl refl h w

-- Over any window of `stop - start` ticks, whoever calls and when, the calls of one key that pass are
-- at most `capacity` and what the window refills at `capacity` for each `refill` ticks. The key's
-- bucket was not used after the window's start, and the times of the calls ascend within it.
pub passed_window :
    (key : String) (calls : List (String × ℕ)) (start stop : ℕ) (r : RateLimiter)
    → IsCurrent r key start
    → Within start calls stop
    → passed key calls r * r.refill ≤ (r.capacity * r.refill) + (stop - start) * r.capacity
unfolding level refilled
passed_window key calls start stop r h w = omega (arith, passed-le key calls start stop r h w)

mul_le : (a b k : ℕ) → a ≤ b → a * k ≤ b * k
mul_le a b k h = grind arith

-- A call of no more than the capacity passes if the key has no bucket, or one that was last used
-- `refill` ticks ago or earlier: no key is locked out.
pub try_acquire_after_refill :
    (key : String) (cost now : ℕ) (r : RateLimiter)
    → cost ≤ r.capacity
    → ((b : Bucket) → lookup key r.buckets ≡ some b → b.last + r.refill ≤ now)
    → (try_acquire key cost now r).0 ≡ true
unfolding try_acquire charge level refilled bucket_or_full
try_acquire_after_refill key cost now r h idle = elim (Option-cases (lookup key r.buckets)) [
  | inl fresh ↦ rw fresh (ground (arith, mul_le cost r.capacity r.refill h))
  | inr (b, used) ↦ rw used (
      ground (
        arith,
        mul_le cost r.capacity r.refill h,
        mul_le r.refill (now - b.last) r.capacity (omega (arith, idle b used)),
      ))
]
