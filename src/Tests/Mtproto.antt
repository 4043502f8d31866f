-- ===== src/Tests/Mtproto.antt =====
-- The limiter of the calls to Telegram, at fixed inputs.
use lcloud.Base.{ℕ, ◌≡◌, ◌≤◌, refl, some, [], ◌∷◌, arith, ◌*◌, ◌-◌, ◌+◌, ◌==◌, if◌then◌else◌}
use lcloud.Mtproto.{
  AsyncTokenBucket, Outcome, returns, flood_wait, value, raise_last, calls, acquires,
  call_with_floodwait_retry,
}
use lcloud.Mtproto.Tokens.{grant, grant-tokens}
use lcloud.Mtproto.Retries.{
  call_with_floodwait_retry-ends, call_with_floodwait_retry-exhausted, slept, last_of,
}

-- Two tokens of ten parts each, one part a tick, empty.
abbrev bucket : AsyncTokenBucket
bucket = record { unit = 10; rate = 1; capacity = 20; tokens = 0; last = 100 }

grant-tokens_example : grant ((10, 103) ∷ (10, 111) ∷ (10, 125) ∷ []) bucket ≤ 0 + (130 - 100) * 1
grant-tokens_example =
    grant-tokens 130 ((10, 103) ∷ (10, 111) ∷ (10, 125) ∷ []) bucket (omega arith)

abbrev busy : ℕ → Outcome ℕ
busy n = if n == 0 then flood_wait 7 else (if n == 1 then flood_wait 30 else returns 42)

call_with_floodwait_retry-ends_example :
    call_with_floodwait_retry busy 3 300 ≡ (value 42, slept (7 ∷ 30 ∷ []) (acquires ∷ calls ∷ []))
call_with_floodwait_retry-ends_example =
    call_with_floodwait_retry-ends busy 3 300 (7 ∷ 30 ∷ []) (value 42)
      ((refl, omega arith), ((refl, omega arith), tt)) (omega arith) refl

call_with_floodwait_retry-exhausted_example :
    call_with_floodwait_retry busy 2 300
    ≡ (raise_last (last_of (some 7) (30 ∷ [])), slept (7 ∷ 30 ∷ []) [])
call_with_floodwait_retry-exhausted_example =
    call_with_floodwait_retry-exhausted busy 300 7 (30 ∷ [])
      ((refl, omega arith), ((refl, omega arith), tt))
