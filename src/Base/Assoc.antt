-- ===== src/Base/Assoc.antt =====
-- A Python `dict` with text keys, as the list of its items in insertion order.

use Prim.Native.String.{String}
use mathlib.Core.Path.{◌≡◌, refl}
use mathlib.Core.Option.{Option, none, some}
use mathlib.Core.List.{List, [], ◌∷◌}
use native.Mathlib.Omega.{arith}
use text.Mathlib.Text.{◌==◌ as str_eq}
use text.Mathlib.TextEquality.{eq_iff}
use lcloud.Base.Tests.{if◌then◌else◌}

abbrev pub Assoc {ℓ} : Type ℓ → Type ℓ
Assoc V = List (String × V)

module _ {ℓ} {V : Type ℓ} where
  -- `d.get(k)`
  unfoldable pub lookup : String → Assoc V → Option V
  lookup name [] = none
  lookup name ((k, value) ∷ items) = if str_eq k name then some value else lookup name items

  -- `d[k] = v`
  unfoldable pub insert : String → V → Assoc V → Assoc V
  insert name new [] = (name, new) ∷ []
  insert name new ((k, old) ∷ items) =
      if str_eq k name then (name, new) ∷ items else (k, old) ∷ insert name new items

  pub lookup-insert :
      (name other : String) (new : V) (items : Assoc V)
      → lookup other (insert name new items)
        ≡ (if str_eq name other then some new else lookup other items)
  unfolding lookup insert
  lookup-insert name other new [] = refl
  lookup-insert name other new ((k, old) ∷ items) =
      ground (
        arith,
        lookup-insert name other new items,
        eq_iff name other,
        eq_iff k other,
        eq_iff k name,
      )
