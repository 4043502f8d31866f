-- ===== src/Accounts/Pin/Guesses.antt =====
-- How many PINs lcloud/api/pin_recovery.py lets a stranger try on an account.
use lcloud.Base.{
  ℕ, suc, ◌+◌, ◌-◌, ◌*◌, ◌≤◌, String, ◌≡◌, Bool, true, false, ◌&&◌, not, Option, some, List, [],
  ◌∷◌, is_some, if◌then◌else◌,
}
use lcloud.Accounts.{User}
use lcloud.Accounts.Pin.{Crypto, lockout, is_locked, missed, attempt}

-- Attempts on the row of an account, each with its time and PIN.
unfoldable pub attempts : Crypto → List (ℕ × String) → User → User
attempts lib [] u = u
attempts lib (g ∷ gs) u = attempts lib gs (attempt lib g.0 g.1 u).1

-- The PIN of an attempt at `now` is held against the hash.
unfoldable pub is_tried : ℕ → User → Bool
is_tried now u =
    is_some u.pin_hash && (is_some u.encrypted_seed && not (is_locked now u.pin_locked_until))

-- The PINs among the attempts that are held against the hash.
unfoldable pub tried : Crypto → List (ℕ × String) → User → ℕ
tried lib [] u = 0
tried lib (g ∷ gs) u =
    let rest = tried lib gs (attempt lib g.0 g.1 u).1 in if is_tried g.0 u then suc rest else rest

-- The attempts lie in a window of time, and none has the right PIN.
abbrev pub Wrong : Crypto → ℕ → ℕ → Option String → List (ℕ × String) → Type 0
Wrong lib start stop hash [] = Unit {0}
Wrong lib start stop hash ((now, pin) ∷ gs) =
    ((start ≤ now) × (now ≤ stop))
    × (((h : String) → hash ≡ some h → lib.verify h pin ≡ false) × Wrong lib start stop hash gs)

-- What a wrong attempt does.
data Step (now : ℕ) (u : User) : User → Type 0 where
  refused : is_tried now u ≡ false → Step now u u
  counted :
      is_tried now u ≡ true → is_locked now u.pin_locked_until ≡ false → Step now u (missed now u).1

-- The misses above `most` each waited for the lock before them, from `start` on.
data Waited (most start stop : ℕ) (u : User) : Type 0 where
  few : u.pin_failed_attempts ≤ most → Waited most start stop u
  waits :
      (t : ℕ)
      → u.pin_locked_until ≡ some t
      → start + (u.pin_failed_attempts - most) * lockout ≤ t
      → t ≤ stop + lockout
      → Waited most start stop u

-- The row after wrong attempts, and the count of those that were tried.
abbrev Counted : Crypto → ℕ → ℕ → ℕ → User → List (ℕ × String) → Type 0
Counted lib most start stop u gs =
    ((attempts lib gs u).pin_failed_attempts ≡ u.pin_failed_attempts + tried lib gs u)
    × Waited most start stop (attempts lib gs u)

-- Whatever the PIN, an attempt that is not counted has the reply and leaves the row that any other has.
abbrev pub AreBlind : Crypto → List (ℕ × String) → User → Type 0
AreBlind lib [] u = Unit {0}
AreBlind lib (g ∷ gs) u =
    ((pin : String)
      → attempt lib g.0 g.1 u
        ≡ (if is_tried g.0 u then attempt lib g.0 g.1 u else attempt lib g.0 pin u))
    × AreBlind lib gs (attempt lib g.0 g.1 u).1
