-- ===== src/Cache/Entries/Laws.antt =====
-- How removing and adding an item changes what is looked up, and any total over the items.
use lcloud.Base.{
  ℕ, ◌+◌, String, ◌≡◌, refl, false, Option, none, some, [], ◌∷◌, ◌++◌, arith, if◌then◌else◌, str_eq,
  eq_iff,
}
use lcloud.Base.Assoc.{lookup}
use lcloud.Cache.Entries.{Entry, Items, remove}

module _ {V : Type 0} where
  -- No key is listed twice.
  abbrev pub Distinct : Items V → Type 0
  Distinct [] = Unit {0}
  Distinct ((k, e) ∷ m) = (lookup k m ≡ none) × Distinct m

  abbrev pub total : (Entry V → ℕ) → Items V → ℕ
  total w [] = 0
  total w ((k, e) ∷ m) = w e + total w m

  pub total-remove :
      (w : Entry V → ℕ) (k : String) (e : Entry V) (m : Items V)
      → lookup k m ≡ some e
      → total w (remove k m) + w e ≡ total w m
  unfolding lookup remove
  total-remove w k e [] h = cc
  total-remove w k e ((j, x) ∷ m) h = ground (arith, total-remove w k e m)

  pub total-append :
      (w : Entry V → ℕ) (k : String) (e : Entry V) (m : Items V)
      → total w (m ++ (k, e) ∷ []) ≡ total w m + w e
  total-append w k e [] = omega arith
  total-append w k e ((j, x) ∷ m) = omega (arith, total-append w k e m)

  pub lookup-remove_ne :
      (k j : String) (m : Items V) → str_eq k j ≡ false → lookup j (remove k m) ≡ lookup j m
  unfolding lookup remove
  lookup-remove_ne k j [] h = refl
  lookup-remove_ne k j ((i, x) ∷ m) h =
      ground (arith, lookup-remove_ne k j m h, eq_iff i k, eq_iff i j, eq_iff k j)

  pub lookup-remove :
      (k j : String) (m : Items V)
      → Distinct m
      → lookup j (remove k m) ≡ (if str_eq k j then none else lookup j m)
  unfolding lookup remove
  lookup-remove k j [] d = ground arith
  lookup-remove k j ((i, x) ∷ m) d =
      ground (arith, lookup-remove k j m d.1, eq_iff i k, eq_iff i j, eq_iff k j)

  pub remove-Distinct : (k : String) (m : Items V) → Distinct m → Distinct (remove k m)
  unfolding remove
  remove-Distinct k [] d = tt
  remove-Distinct k ((i, x) ∷ m) d =
      ground (arith, remove-Distinct k m d.1, lookup-remove_ne k i m, eq_iff i k, eq_iff k i)

  abbrev pub or_else : Option (Entry V) → Option (Entry V) → Option (Entry V)
  or_else none y = y
  or_else (some x) y = some x

  pub lookup-append :
      (j k : String) (e : Entry V) (m : Items V)
      → lookup j (m ++ (k, e) ∷ []) ≡ or_else (lookup j m) (if str_eq k j then some e else none)
  unfolding lookup
  lookup-append j k e [] = refl
  lookup-append j k e ((i, x) ∷ m) = ground (arith, lookup-append j k e m)

  pub append-Distinct :
      (k : String) (e : Entry V) (m : Items V)
      → lookup k m ≡ none
      → Distinct m
      → Distinct (m ++ (k, e) ∷ [])
  unfolding lookup
  append-Distinct k e [] h d = (refl, tt)
  append-Distinct k e ((i, x) ∷ m) h d =
      ground (arith, append-Distinct k e m, lookup-append i k e m, eq_iff i k, eq_iff k i)
