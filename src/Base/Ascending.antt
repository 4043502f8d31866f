-- ===== src/Base/Ascending.antt =====
-- Lists whose items ascend by a number, as a table's rows do by id.
use Prim.Native.Nat.{ℕ, zero, suc, ◌≤◌, ◌<◌, max}
use mathlib.Core.Path.{◌≡◌, refl}
use mathlib.Core.Bool.{Bool}
use mathlib.Core.List.{List, [], ◌∷◌, ◌++◌}
use native.Mathlib.Omega.{arith}
use lcloud.Base.Tests.{ltb, if◌then◌else◌}
use lcloud.Base.Lists.{keep_if, take, drop, max_of}

module _ {ℓ} {A : Type ℓ} where
  -- The keys ascend, from above `m`.
  abbrev pub Above : (A → ℕ) → ℕ → List A → Type 0
  Above f m [] = Unit {0}
  Above f m (x ∷ xs) = (m < f x) × Above f (f x) xs

  -- The last key, or `m` of the empty list.
  abbrev pub last_key : (A → ℕ) → ℕ → List A → ℕ
  last_key f m [] = m
  last_key f m (x ∷ xs) = last_key f (f x) xs

  -- The items up to the one before which `x` belongs.
  unfoldable pub insert_by : (A → ℕ) → A → List A → List A
  insert_by f x [] = x ∷ []
  insert_by f x (y ∷ ys) = if ltb (f y) (f x) then y ∷ insert_by f x ys else x ∷ y ∷ ys

  -- `order_by(key.asc())`
  unfoldable pub sort_by : (A → ℕ) → List A → List A
  unfolding insert_by
  sort_by f [] = []
  sort_by f (x ∷ xs) = insert_by f x (sort_by f xs)

  pub Above-le : (f : A → ℕ) (k m : ℕ) (xs : List A) → k ≤ m → Above f m xs → Above f k xs
  Above-le f k m [] le h = tt
  Above-le f k m (x ∷ xs) le h = (omega (arith, h.0), h.1)

  pub Above-keep_if :
      (f : A → ℕ) (p : A → Bool) (m : ℕ) (xs : List A) → Above f m xs → Above f m (keep_if p xs)
  Above-keep_if f p m [] h = tt
  Above-keep_if f p m (x ∷ xs) h = ground (
    arith,
    Above-keep_if f p (f x) xs h.1,
    Above-le f m (f x) (keep_if p xs) (omega (arith, h.0)) (Above-keep_if f p (f x) xs h.1),
  )

  insert_by-first : (f : A → ℕ) (x : A) (xs : List A) → Above f (f x) xs → insert_by f x xs ≡ x ∷ xs
  unfolding insert_by
  insert_by-first f x [] h = refl
  insert_by-first f x (y ∷ ys) h = ground arith

  -- Sorting leaves what ascends.
  pub sort_by-Above : (f : A → ℕ) (m : ℕ) (xs : List A) → Above f m xs → sort_by f xs ≡ xs
  unfolding sort_by
  sort_by-Above f m [] h = refl
  sort_by-Above f m (x ∷ xs) h = rw (sort_by-Above f (f x) xs h.1) (insert_by-first f x xs h.1)

  pub keep_if-Above :
      (f : A → ℕ) (k m : ℕ) (xs : List A)
      → k ≤ m
      → Above f m xs
      → keep_if (λ x. ltb k (f x)) xs ≡ xs
  keep_if-Above f k m [] le h = refl
  keep_if-Above f k m (x ∷ xs) le h =
      ground (arith, keep_if-Above f k (f x) xs (omega (arith, h.0)) h.1)

  pub last_key-le : (f : A → ℕ) (m : ℕ) (xs : List A) → Above f m xs → m ≤ last_key f m xs
  last_key-le f m [] h = omega arith
  last_key-le f m (x ∷ xs) h = omega (arith, h.0, last_key-le f (f x) xs h.1)

  pub Above-take : (f : A → ℕ) (n m : ℕ) (xs : List A) → Above f m xs → Above f m (take n xs)
  Above-take f zero m xs h = tt
  Above-take f (suc n) m [] h = tt
  Above-take f (suc n) m (x ∷ xs) h = (h.0, Above-take f n (f x) xs h.1)

  -- The items above the first `n` are those after them.
  pub keep_if-last_key :
      (f : A → ℕ) (n m : ℕ) (xs : List A)
      → Above f m xs
      → keep_if (λ x. ltb (last_key f m (take n xs)) (f x)) xs ≡ drop n xs
  keep_if-last_key f zero m xs h = keep_if-Above f m m xs (omega arith) h
  keep_if-last_key f (suc n) m [] h = refl
  keep_if-last_key f (suc n) m (x ∷ xs) h = ground (
    arith,
    keep_if-last_key f n (f x) xs h.1,
    last_key-le f (f x) (take n xs) (Above-take f n (f x) xs h.1),
  )

  pub take-drop : (n : ℕ) (xs : List A) → take n xs ++ drop n xs ≡ xs
  take-drop zero xs = refl
  take-drop (suc n) [] = refl
  take-drop (suc n) (x ∷ xs) = cc (take-drop n xs)

  pub last_key-le-max_of : (f : A → ℕ) (m : ℕ) (xs : List A) → last_key f m xs ≤ max m (max_of f xs)
  last_key-le-max_of f m [] = omega arith
  last_key-le-max_of f m (x ∷ xs) = omega (arith, last_key-le-max_of f (f x) xs)

  pub Above-append :
      (f : A → ℕ) (m : ℕ) (xs : List A) (x : A)
      → Above f m xs
      → last_key f m xs < f x
      → Above f m (xs ++ x ∷ [])
  Above-append f m [] x h lt = (lt, tt)
  Above-append f m (y ∷ ys) x h lt = (h.0, Above-append f (f y) ys x h.1 lt)
