-- ===== src/Db/Validator/Laws.antt =====
-- What a write has that passes `_validate_public_write` of lcloud/api/json_db.py.
use lcloud.Base.{
  String, ◌≡◌, ◌∙◌, sym, ap, refl, Bool, true, false, ◌||◌, not, none, some, List, [], ◌∷◌, arith,
  is_some, str_eq, eq_iff, any_of,
}
use lcloud.Json.{Items, Fields, JsonText, arr, lookup, keys, json_loads}
use lcloud.Db.Validator.{
  as_list, texts, is_nil, misses_field, has_extra, failed_check, validate_public_write,
}

abbrev pub is_among : String → List String → Bool
is_among f fs = any_of (λ g. str_eq g f) fs

given_all :
    (f : String) (data_ : Fields) (fs : List String)
    → any_of (λ g. not (is_some (lookup g data_))) fs ≡ false
    → (not (is_among f fs) || is_some (lookup f data_)) ≡ true
given_all f data_ [] h = refl
given_all f data_ (g ∷ fs) h = ground (arith, given_all f data_ fs, eq_iff g f)

allowed_all :
    (f : String) (allowed ks : List String)
    → any_of (λ k. not (is_among k allowed)) ks ≡ false
    → (not (is_among f ks) || is_among f allowed) ≡ true
allowed_all f allowed [] h = refl
allowed_all f allowed (k ∷ ks) h = ground (arith, allowed_all f allowed ks, eq_iff k f)

passed :
    (v data_ : Fields)
    → failed_check v data_ ≡ none
    → (misses_field (as_list (lookup "required_fields" v)) data_ ≡ false)
      × (has_extra (as_list (lookup "allowed_fields" v)) data_ ≡ false)
unfolding failed_check
passed v data_ h = ground arith

required_given :
    (f : String) (required : Items) (data_ : Fields)
    → misses_field (some required) data_ ≡ false
    → (not (is_among f (texts required)) || is_some (lookup f data_)) ≡ true
unfolding misses_field
required_given f required data_ h = given_all f data_ (texts required) h

all_allowed :
    (f : String) (allowed : Items) (data_ : Fields)
    → has_extra (some allowed) data_ ≡ false
    → (is_nil allowed || (not (is_among f (keys data_)) || is_among f (texts allowed))) ≡ true
unfolding has_extra
all_allowed f allowed data_ h = ground (arith, allowed_all f (texts allowed) (keys data_))

-- A write that the validator lets pass has a value for every text of `required_fields`, and each of its
-- fields is a text of `allowed_fields`, unless that list is empty; where both are lists.
pub validate_public_write-fields :
    (v : JsonText) (data_ : Fields) (required allowed : Items) (f : String)
    → lookup "required_fields" (json_loads v) ≡ some (arr required)
    → lookup "allowed_fields" (json_loads v) ≡ some (arr allowed)
    → validate_public_write (some v) data_ ≡ none
    → ((not (is_among f (texts required)) || is_some (lookup f data_)) ≡ true)
      × ((is_nil allowed || (not (is_among f (keys data_)) || is_among f (texts allowed))) ≡ true)
unfolding validate_public_write
validate_public_write-fields v data_ required allowed f r a h =
    let p = passed (json_loads v) data_ h in
    (
      required_given f required data_ (ap (λ o. misses_field (as_list o) data_) (sym r) ∙ p.0),
      all_allowed f allowed data_ (ap (λ o. has_extra (as_list o) data_) (sym a) ∙ p.1),
    )
