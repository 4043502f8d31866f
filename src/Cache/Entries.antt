-- ===== src/Cache/Entries.antt =====
-- The items of the cache's `OrderedDict`.
pub mod Laws
use lcloud.Base.{
  ℕ, ◌+◌, String, Option, none, some, Bool, true, false, List, [], ◌∷◌, ◌==◌, if◌then◌else◌, str_eq,
}
use lcloud.Base.Assoc.{Assoc}

-- `_Entry`
pub record Entry (V : Type 0) : Type 0 where
  pub value : V
  pub expires_at : ℕ
  pub size_bytes : ℕ
  pub namespace : String

abbrev pub Items : Type 0 → Type 0
Items V = Assoc (Entry V)

module _ {V : Type 0} where
  -- `d.pop(key, None)`, without the value
  unfoldable pub remove : String → Items V → Items V
  remove k [] = []
  remove k ((j, e) ∷ m) = if str_eq j k then m else (j, e) ∷ remove k m

  -- `next(iter(d.items()))`, if there is an item
  unfoldable pub first_key : Items V → Option String
  first_key [] = none
  first_key ((k, e) ∷ m) = some k

  -- `[key for key, entry in d.items() if …]`
  unfoldable pub keys_if : (String → Entry V → Bool) → Items V → List String
  keys_if p [] = []
  keys_if p ((j, e) ∷ m) = let rest = keys_if p m in if p j e then j ∷ rest else rest
