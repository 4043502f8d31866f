-- ===== src/Db/Validator.antt =====
-- `_load_write_validator` and `_validate_public_write` of lcloud/api/json_db.py.
pub mod Laws
use lcloud.Base.{
  ℕ, String, Bool, true, false, ◌&&◌, not, Option, none, some, List, [], ◌∷◌, if◌then◌else◌,
  is_some, str_eq, any_of,
}
use lcloud.Base.Int.{ℤ, pos, exceeds}
use lcloud.Json.{
  Json, Items, Fields, JsonText, bool, int, str, arr, obj, nil, cons, lookup, count, keys,
  json_bytes, json_loads,
}
use lcloud.Db.Errors.{Check, max_bytes, max_fields, required_fields, allowed_fields}

-- The value if `isinstance(value, int)`: a Python bool is an int.
abbrev pub as_int : Option Json → Option ℤ
as_int (some (int n)) = some n
as_int (some (bool true)) = some (pos 1)
as_int (some (bool false)) = some (pos 0)
as_int _ = none

-- The items that are texts.
unfoldable pub texts : Items → List String
texts nil = []
texts (cons (str s) xs) = s ∷ texts xs
texts (cons _ xs) = texts xs

-- The value if `isinstance(value, list)`.
abbrev pub as_list : Option Json → Option Items
as_list (some (arr xs)) = some xs
as_list _ = none

-- `size > limit`, where there is a limit.
unfoldable pub over_limit : Option ℤ → ℕ → Bool
over_limit none size = false
over_limit (some limit) size = exceeds size limit

-- `missing` is not empty.
unfoldable pub misses_field : Option Items → Fields → Bool
unfolding texts lookup
misses_field none data_ = false
misses_field (some required) data_ = any_of (λ f. not (is_some (lookup f data_))) (texts required)

abbrev pub is_nil : Items → Bool
is_nil nil = true
is_nil (cons _ _) = false

-- `extra` is not empty; an empty list allows every field.
unfoldable pub has_extra : Option Items → Fields → Bool
unfolding texts
has_extra none data_ = false
has_extra (some allowed) data_ =
    not (is_nil allowed)
    && any_of (λ k. not (any_of (λ f. str_eq f k) (texts allowed))) (keys data_)

-- `_validate_public_write` for a loaded validator: the first check that fails.
unfoldable pub failed_check : Fields → Fields → Option Check
unfolding over_limit misses_field has_extra
failed_check validator data_ =
    if over_limit (as_int (lookup "max_bytes" validator)) (json_bytes (obj data_))
    then some max_bytes
    else if over_limit (as_int (lookup "max_fields" validator)) (count data_)
    then some max_fields
    else if misses_field (as_list (lookup "required_fields" validator)) data_
    then some required_fields
    else if has_extra (as_list (lookup "allowed_fields" validator)) data_
    then some allowed_fields
    else none

-- The collection's validator, or none that lets every write pass.
unfoldable pub validate_public_write : Option JsonText → Fields → Option Check
unfolding failed_check
validate_public_write none data_ = none
validate_public_write (some text) data_ = failed_check (json_loads text) data_
