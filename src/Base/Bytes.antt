-- ===== src/Base/Bytes.antt =====
-- Byte strings, as lists of numbers: their tests, hexadecimal texts and packed integers.
use Prim.Native.Nat.{ℕ, zero, suc, ◌+◌, ◌-◌, ◌*◌, ◌/◌, ◌%◌, ◌^◌}
use Prim.Native.String.{String, ◌++◌ as str_append}
use mathlib.Core.Path.{◌≡◌, refl}
use mathlib.Core.Bool.{Bool, true, false, ◌&&◌, ◌||◌}
use mathlib.Core.Option.{Option, none, some}
use mathlib.Core.List.{List, [], ◌∷◌, ◌++◌}
use lcloud.Base.Tests.{leb, ◌==◌, if◌then◌else◌}
use lcloud.Base.Text.{char_at, codes}
use lcloud.Base.Int.{ℤ, pos, negsuc}

abbrev pub Bytes : Type 0
Bytes = List ℕ

unfoldable pub bytes_eq : Bytes → Bytes → Bool
bytes_eq [] [] = true
bytes_eq [] (b ∷ bs) = false
bytes_eq (a ∷ xs) [] = false
bytes_eq (a ∷ xs) (b ∷ bs) = a == b && bytes_eq xs bs

-- `b.hex()`
unfoldable pub hex : Bytes → String
hex [] = ""
hex (b ∷ bs) =
    str_append (char_at "0123456789abcdef" (b / 16))
      (str_append (char_at "0123456789abcdef" (b % 16)) (hex bs))

abbrev within : ℕ → ℕ → ℕ → Bool
within lo hi c = leb lo c && leb c hi

unfoldable pub hex_digit : ℕ → Option ℕ
hex_digit c =
    if within 48 57 c
    then some (c - 48)
    else (if within 97 102 c
        then some (c - 87)
        else (if within 65 70 c then some (c - 55) else none))

-- The spaces that `bytes.fromhex` skips between two bytes.
abbrev is_ascii_space : ℕ → Bool
is_ascii_space c = c == 32 || within 9 13 c

hex_byte : ℕ → ℕ → Option Bytes → Option Bytes
hex_byte c d rest = elim (hex_digit c) [
  | none ↦ none
  | some hi ↦ elim (hex_digit d) [
    | none ↦ none
    | some lo ↦ elim rest [ none ↦ none | some bs ↦ some ((hi * 16 + lo) ∷ bs) ]
  ]
]

unfoldable pub from_hex_codes : List ℕ → Option Bytes
unfolding hex_byte hex_digit
from_hex_codes [] = some []
from_hex_codes (c ∷ []) = if is_ascii_space c then some [] else none
from_hex_codes (c ∷ d ∷ cs) =
    let skipped = from_hex_codes (d ∷ cs) in
    let rest = from_hex_codes cs in if is_ascii_space c then skipped else hex_byte c d rest

-- `bytes.fromhex`: none stands for the `ValueError`.
unfoldable pub from_hex : String → Option Bytes
unfolding from_hex_codes codes
from_hex s = from_hex_codes (codes s)

from_hex_test : from_hex "00 fF" ≡ some (0 ∷ 255 ∷ [])
unfolding from_hex
from_hex_test = refl

-- The last `w` bytes of a number, the highest first.
unfoldable pub big_endian : ℕ → ℕ → Bytes
big_endian zero n = []
big_endian (suc w) n = big_endian w (n / 256) ++ (n % 256) ∷ []

-- The last `w` bytes of a number, the lowest first.
unfoldable pub little_endian : ℕ → ℕ → Bytes
little_endian zero n = []
little_endian (suc w) n = (n % 256) ∷ little_endian w (n / 256)

-- `struct.pack(">Q", n)`: none stands for the `struct.error`.
unfoldable pub pack_u64 : ℕ → Option Bytes
unfolding big_endian
pack_u64 n = if leb (2 ^ 64) n then none else some (big_endian 8 n)

-- `struct.pack("<q", n)`
unfoldable pub pack_i64 : ℤ → Option Bytes
unfolding little_endian
pack_i64 (pos n) = if leb (2 ^ 63) n then none else some (little_endian 8 n)
pack_i64 (negsuc n) = if leb (2 ^ 63) n then none else some (little_endian 8 (2 ^ 64 - 1 - n))
