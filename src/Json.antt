-- ===== src/Json.antt =====
-- The JSON values that documents hold: what Python's `json` module reads and writes.
--
-- A float is kept as the text that `repr` gives it, which is also its JSON form. A dict is the list of
-- its fields in insertion order; no code of the program reads that order. A stored text is modelled by
-- the value it decodes to, so that `json.loads(json.dumps(d)) == d` holds by construction.
pub mod Laws
use lcloud.Base.{
  ℕ, suc, ◌+◌, ◌<◌, String, ◌≡◌, refl, Bool, true, false, ◌||◌, Option, none, some, List, [], ◌∷◌,
  ltb, ◌==◌, if◌then◌else◌, str_eq,
}
use lcloud.Base.Int.{ℤ, pos, negsuc}
use lcloud.Base.Text.{len, codes, show}

mutual
  pub data Json : Type 0 where
    null : Json
    bool : Bool → Json
    int : ℤ → Json
    float : String → Json
    str : String → Json
    arr : Items → Json
    obj : Fields → Json

  pub data Items : Type 0 where
    nil : Items
    cons : Json → Items → Items

  pub data Fields : Type 0 where
    end : Fields
    field : String → Json → Fields → Fields

-- `d.get(k)`, where none also stands for `k not in d`
unfoldable pub lookup : String → Fields → Option Json
lookup k end = none
lookup k (field j v d) = if str_eq j k then some v else lookup k d

-- `d[k] = v`
unfoldable pub insert : String → Json → Fields → Fields
insert k v end = field k v end
insert k v (field j w d) = if str_eq j k then field j v d else field j w (insert k v d)

-- `d.update(other)`
unfoldable pub update : Fields → Fields → Fields
unfolding insert
update d end = d
update d (field k v other) = update (insert k v d) other

-- `len(d)`
abbrev pub count : Fields → ℕ
count end = 0
count (field k v d) = suc (count d)

-- A dict's keys, each once.
abbrev pub keys : Fields → List String
keys end = []
keys (field k v d) = k ∷ keys d

-- The bytes of one character in a JSON string, in UTF-8 with `ensure_ascii=False`.
unfoldable pub char_bytes : ℕ → ℕ
char_bytes c =
    if c == b'"' || c == 92 || c == 8 || c == 9 || c == 10 || c == 12 || c == 13
    then 2
    else if ltb c 32
    then 6
    else if ltb c 128
    then 1
    else if ltb c 2048
    then 2
    else if ltb c 65536
    then 3
    else 4

unfoldable pub chars_bytes : List ℕ → ℕ
unfolding char_bytes
chars_bytes [] = 0
chars_bytes (c ∷ cs) = char_bytes c + chars_bytes cs

unfoldable pub str_bytes : String → ℕ
unfolding chars_bytes codes
str_bytes s = 2 + chars_bytes (codes s)

unfoldable pub int_bytes : ℤ → ℕ
unfolding len show
int_bytes (pos n) = len (show n)
int_bytes (negsuc n) = suc (len (show (suc n)))

-- The comma before the rest of a list or a dict, if there is a rest.
abbrev comma_items : Items → ℕ
comma_items nil = 0
comma_items (cons _ _) = 1

abbrev comma_fields : Fields → ℕ
comma_fields end = 0
comma_fields (field _ _ _) = 1

-- `len(_json_dumps(value).encode("utf-8"))`, with the separators "," and ":"
unfoldable mutual
  unfolding str_bytes int_bytes len

  pub json_bytes : Json → ℕ
  json_bytes null = 4
  json_bytes (bool true) = 4
  json_bytes (bool false) = 5
  json_bytes (int n) = int_bytes n
  json_bytes (float s) = len s
  json_bytes (str s) = str_bytes s
  json_bytes (arr xs) = 2 + items_bytes xs
  json_bytes (obj d) = 2 + fields_bytes d

  pub items_bytes : Items → ℕ
  items_bytes nil = 0
  items_bytes (cons x xs) = json_bytes x + comma_items xs + items_bytes xs

  pub fields_bytes : Fields → ℕ
  fields_bytes end = 0
  fields_bytes (field k v d) = str_bytes k + 1 + json_bytes v + comma_fields d + fields_bytes d

-- A stored JSON text of a dict.
pub record JsonText : Type 0 where
  pub parsed : Fields

-- `_json_dumps` of a dict
abbrev pub json_dumps : Fields → JsonText
json_dumps d = record { parsed = d }

-- `_json_loads`: every text that the program stores in `data_json` is that of a dict.
abbrev pub json_loads : JsonText → Fields
json_loads t = t.parsed

bytes_test :
    json_bytes
      (obj (field "a" (int (negsuc 11)) (field "b" (arr (cons null (cons (str "é\"") nil))) end)))
    ≡ 27
unfolding json_bytes
bytes_test = refl
