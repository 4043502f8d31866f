-- ===== src/Base/Text.antt =====
-- Texts: their length, the decimal form of a number, and their code points.
use Prim.Native.Char.{code}
use Prim.Native.Nat.{ℕ, zero, suc, ◌/◌, ◌%◌}
use Prim.Native.String.{String, ◌++◌}
use mathlib.Core.Path.{◌≡◌, refl}
use mathlib.Core.List.{List, [], ◌∷◌}
use mathlib.Core.Bool.{Bool, ◌&&◌}
use lcloud.Base.Tests.{ltb, ◌==◌, if◌then◌else◌}

-- `len(s)`
unfoldable pub len : String → ℕ
len String.[] = 0
len (String.◌∷◌ c s) = suc (len s)

unfoldable pub codes : String → List ℕ
codes String.[] = []
codes (String.◌∷◌ c s) = code c ∷ codes s

-- The character at a place, as a text.
unfoldable pub char_at : String → ℕ → String
char_at String.[] i = ""
char_at (String.◌∷◌ c s) zero = String.◌∷◌ c ""
char_at (String.◌∷◌ c s) (suc i) = char_at s i

-- `str` of a digit
unfoldable pub show_digit : ℕ → String
unfolding char_at
show_digit d = char_at "0123456789" d

-- The decimal digits of a number with no more digits than the first argument.
unfoldable pub show_digits : ℕ → ℕ → String
unfolding show_digit
show_digits zero n = ""
show_digits (suc fuel) n =
    let rest = show_digits fuel (n / 10) in
    if ltb n 10 then show_digit n else rest ++ show_digit (n % 10)

-- `str(n)`: a number has no more digits than itself plus one.
unfoldable pub show : ℕ → String
unfolding show_digits
show n = show_digits (suc n) n

show_test : show 2035 ≡ "2035"
unfolding show
show_test = refl

-- `s[:n]`
unfoldable pub prefix : ℕ → String → String
prefix zero s = ""
prefix (suc n) String.[] = ""
prefix (suc n) (String.◌∷◌ c s) = String.◌∷◌ c (prefix n s)

-- `s.strip()`, by the test for a space.
unfoldable pub strip_start : (ℕ → Bool) → String → String
strip_start is_space String.[] = ""
strip_start is_space (String.◌∷◌ c s) =
    let rest = strip_start is_space s in if is_space (code c) then rest else String.◌∷◌ c s

unfoldable pub strip_end : (ℕ → Bool) → String → String
strip_end is_space String.[] = ""
strip_end is_space (String.◌∷◌ c s) =
    let rest = strip_end is_space s in
    if len rest == 0 && is_space (code c) then "" else String.◌∷◌ c rest

unfoldable pub strip : (ℕ → Bool) → String → String
unfolding strip_start strip_end
strip is_space s = strip_end is_space (strip_start is_space s)
