-- ===== src/Db/Names.antt =====
-- The names of collections and documents: `NAME_RE`, `DOC_ID_RE` and their checks.
--
-- `$` in a Python pattern holds at the end of the text and also before a newline that ends it.
use lcloud.Base.{
  ℕ, zero, suc, String, ◌≡◌, refl, Bool, true, false, ◌&&◌, ◌||◌, not, List, [], ◌∷◌, leb, ◌==◌,
  if◌then◌else◌, str_eq,
}
use lcloud.Base.Text.{codes}

-- `[A-Za-z]`
unfoldable pub is_letter : ℕ → Bool
is_letter c = (leb b'A' c && leb c b'Z') || (leb b'a' c && leb c b'z')

-- `[A-Za-z0-9]`
unfoldable pub is_alphanumeric : ℕ → Bool
unfolding is_letter
is_alphanumeric c = is_letter c || (leb b'0' c && leb c b'9')

-- `[A-Za-z0-9_-]`
unfoldable pub is_name_char : ℕ → Bool
unfolding is_alphanumeric
is_name_char c = is_alphanumeric c || c == b'_' || c == b'-'

-- `[A-Za-z0-9_.:-]`
unfoldable pub is_doc_id_char : ℕ → Bool
unfolding is_name_char
is_doc_id_char c = is_name_char c || c == b'.' || c == b':'

abbrev pub is_empty : List ℕ → Bool
is_empty [] = true
is_empty (c ∷ cs) = false

-- `p{0,n}$` on what is left of the text; no class of the two patterns holds a newline.
unfoldable pub rest_matches : (ℕ → Bool) → ℕ → List ℕ → Bool
rest_matches p n [] = true
rest_matches p zero (c ∷ cs) = c == 10 && is_empty cs
rest_matches p (suc n) (c ∷ cs) =
    let rest = rest_matches p n cs in if p c then rest else (c == 10 && is_empty cs)

-- `^first p{0,n}$`
unfoldable pub matches : (ℕ → Bool) → (ℕ → Bool) → ℕ → List ℕ → Bool
unfolding rest_matches
matches first p n [] = false
matches first p n (c ∷ cs) = first c && rest_matches p n cs

-- `NAME_RE.match`
unfoldable pub name_re : String → Bool
unfolding matches is_letter is_name_char codes
name_re s = matches is_letter is_name_char 63 (codes s)

-- `DOC_ID_RE.match`
unfoldable pub doc_id_re : String → Bool
unfolding matches is_alphanumeric is_doc_id_char codes
doc_id_re s = matches is_alphanumeric is_doc_id_char 127 (codes s)

-- The guard of `_validate_collection_name`: `RESERVED_COLLECTIONS` holds "collections" alone.
unfoldable pub is_collection_name : String → Bool
unfolding name_re
is_collection_name s = not (str_eq s "collections") && name_re s

names_test :
    (is_collection_name "users_1" && not (is_collection_name "collections"))
      && not (is_collection_name "1a")
    ≡ true
unfolding is_collection_name
names_test = refl
