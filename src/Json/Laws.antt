-- ===== src/Json/Laws.antt =====
-- What a dict holds after an assignment and after `update`.
use lcloud.Base.{String, ◌≡◌, refl, Option, none, some, arith, if◌then◌else◌, str_eq, eq_iff}
use lcloud.Json.{Json, Fields, end, field, lookup, insert, update}

pub lookup-insert :
    (k j : String) (v : Json) (d : Fields)
    → lookup j (insert k v d) ≡ (if str_eq k j then some v else lookup j d)
unfolding lookup insert
lookup-insert k j v end = refl
lookup-insert k j v (field i w d) =
    ground (arith, eq_iff k j, eq_iff i k, eq_iff i j, lookup-insert k j v d)

-- The last of the values that a dict's text gives to a key, as a parser reads it.
unfoldable pub lookup_last : String → Fields → Option Json
lookup_last k end = none
lookup_last k (field j v d) = elim (lookup_last k d) [
  | none ↦ if str_eq j k then some v else none
  | some w ↦ some w
]

abbrev pub or_else : Option Json → Option Json → Option Json
or_else none y = y
or_else (some x) y = some x

-- `d.update(other)` has the values of `other` where it has any, and those of `d` elsewhere.
pub lookup-update :
    (k : String) (d other : Fields)
    → lookup k (update d other) ≡ or_else (lookup_last k other) (lookup k d)
unfolding update lookup_last
lookup-update k d end = refl
lookup-update k d (field j v other) =
    ground (arith, lookup-update k (insert j v d) other, lookup-insert j k v d)
