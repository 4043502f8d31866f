-- ===== src/Storage/Tags.antt =====
-- lcloud/api/tags.py: the tags of an owner, and those that its files have.
pub mod Assigned
use lcloud.Base.{
  ℕ, String, Bool, true, false, not, ◌&&◌, ◌||◌, Option, none, some, List, [], ◌∷◌, ◌++◌, ltb, ◌==◌,
  str_eq, if◌then◌else◌, find_if, keep_if, any_of, map,
}
use lcloud.Accounts.{Found, absent, several, found, scalar_one_or_none, next_id}
use lcloud.Storage.Rows.{File, is_live}

pub record Tag : Type 0 where
  pub id : ℕ
  pub owner_id : ℕ
  pub name : String
  pub color : String
  pub icon : String
  pub bg_color : String
  pub created_at : ℕ

pub record FileTag : Type 0 where
  pub file_id : ℕ
  pub tag_id : ℕ

-- The tables, with the files that the handlers only read. A text is less than another by `before`, the
-- order that SQLite sorts names by.
pub record Tags : Type 0 where
  pub files : List File
  pub tags : List Tag
  pub file_tags : List FileTag

pub data TagError : Type 0 where
  tag_name_exists tag_not_found file_not_found multiple_results_found : TagError
  unknown_tag_ids : List ℕ → TagError

pub data Reply (A : Type 0) : Type 0 where
  ok : A → Reply A
  raise : TagError → Reply A

-- The body as the validators leave it.
pub record TagIn : Type 0 where
  pub name : String
  pub color : String
  pub icon : String
  pub bg_color : String

pub record TagPatch : Type 0 where
  pub name : Option String
  pub color : Option String
  pub icon : Option String
  pub bg_color : Option String

unfoldable pub insert_tag : (String → String → Bool) → Tag → List Tag → List Tag
insert_tag before t [] = t ∷ []
insert_tag before t (u ∷ us) =
    let rest = insert_tag before t us in if before u.name t.name then u ∷ rest else t ∷ u ∷ us

-- `order_by(Tag.name)`
unfoldable pub by_name : (String → String → Bool) → List Tag → List Tag
unfolding insert_tag
by_name before [] = []
by_name before (t ∷ ts) = insert_tag before t (by_name before ts)

unfoldable pub list_tags : (String → String → Bool) → ℕ → Tags → List Tag
list_tags before owner_id s = by_name before (keep_if (λ (t : Tag). t.owner_id == owner_id) s.tags)

abbrev pub is_tag_named : ℕ → String → Tag → Bool
is_tag_named owner_id name t = t.owner_id == owner_id && str_eq t.name name

unfoldable pub new_tag : ℕ → ℕ → TagIn → List Tag → Tag
new_tag now owner_id body tags = record {
  id = next_id (λ (t : Tag). t.id) tags;
  owner_id = owner_id;
  name = body.name;
  color = body.color;
  icon = body.icon;
  bg_color = body.bg_color;
  created_at = now;
}

unfoldable pub create_tag : ℕ → ℕ → TagIn → Tags → Reply Tag × Tags
create_tag now owner_id body s =
    let tag = new_tag now owner_id body s.tags in
    elim (scalar_one_or_none (is_tag_named owner_id body.name) s.tags) [
      | absent ↦ (ok tag, record s { tags = s.tags ++ tag ∷ [] })
      | several ↦ (raise multiple_results_found, s)
      | found t ↦ (raise tag_name_exists, s)
    ]

abbrev pub or_old : Option String → String → String
or_old none old = old
or_old (some new) old = new

unfoldable pub patched_tag : TagPatch → Tag → Tag
patched_tag body t = record t {
  name = or_old body.name t.name;
  color = or_old body.color t.color;
  icon = or_old body.icon t.icon;
  bg_color = or_old body.bg_color t.bg_color;
}

-- The flush of a tag's row.
unfoldable pub put_tag : Tag → List Tag → List Tag
put_tag new [] = []
put_tag new (t ∷ ts) = let rest = put_tag new ts in if t.id == new.id then new ∷ rest else t ∷ rest

-- `body.name is not None and body.name != tag.name`, and another tag of the owner has the name.
unfoldable pub name_conflict : TagPatch → Tag → List Tag → Found Tag
name_conflict body t tags = elim body.name [
  | none ↦ absent
  | some name ↦
      if str_eq name t.name
      then absent
      else scalar_one_or_none (λ u. is_tag_named t.owner_id name u && not (u.id == t.id)) tags
]

abbrev pub is_tag_of : ℕ → ℕ → Tag → Bool
is_tag_of owner_id tag_id t = t.id == tag_id && t.owner_id == owner_id

unfoldable pub update_tag : ℕ → ℕ → TagPatch → Tags → Reply Tag × Tags
update_tag owner_id tag_id body s = elim (find_if (is_tag_of owner_id tag_id) s.tags) [
  | none ↦ (raise tag_not_found, s)
  | some t ↦ elim (name_conflict body t s.tags) [
    | found u ↦ (raise tag_name_exists, s)
    | several ↦ (raise multiple_results_found, s)
    | absent ↦ let new = patched_tag body t in (ok new, record s { tags = put_tag new s.tags })
  ]
]

-- The row, and by the cascade those of its files.
unfoldable pub delete_tag : ℕ → ℕ → Tags → Reply (Unit {0}) × Tags
delete_tag owner_id tag_id s = elim (find_if (is_tag_of owner_id tag_id) s.tags) [
  | none ↦ (raise tag_not_found, s)
  | some t ↦ (
    ok tt,
    record s {
      tags = keep_if (λ (u : Tag). not (u.id == t.id)) s.tags;
      file_tags = keep_if (λ (x : FileTag). not (x.tag_id == t.id)) s.file_tags;
    },
  )
]

abbrev pub is_owned_file : ℕ → ℕ → File → Bool
is_owned_file owner_id file_id f = f.id == file_id && (f.owner_id == owner_id && is_live f)

abbrev pub has_tag : ℕ → ℕ → FileTag → Bool
has_tag file_id tag_id x = x.file_id == file_id && x.tag_id == tag_id

unfoldable pub insert_id : ℕ → List ℕ → List ℕ
insert_id n [] = n ∷ []
insert_id n (m ∷ ms) =
    let rest = insert_id n ms in
    if n == m then m ∷ ms else (if ltb m n then m ∷ rest else n ∷ m ∷ ms)

-- `sorted(set(ids))`
unfoldable pub sorted_set : List ℕ → List ℕ
unfolding insert_id
sorted_set [] = []
sorted_set (n ∷ ns) = insert_id n (sorted_set ns)

-- The requested ids that are no tag of the owner.
unfoldable pub missing_tags : ℕ → List ℕ → List Tag → List ℕ
missing_tags owner_id ids tags = keep_if (λ id. not (any_of (is_tag_of owner_id id) tags)) ids

-- `n in ids`
unfoldable pub has_id : ℕ → List ℕ → Bool
has_id n [] = false
has_id n (id ∷ ids) = let rest = has_id n ids in if id == n then true else rest

-- The file has the tag.
unfoldable pub is_tagged : ℕ → ℕ → List FileTag → Bool
is_tagged file_id tag_id [] = false
is_tagged file_id tag_id (x ∷ xs) =
    let rest = is_tagged file_id tag_id xs in if has_tag file_id tag_id x then true else rest

unfoldable pub get_file_tags : (String → String → Bool) → ℕ → ℕ → Tags → Reply (List Tag)
get_file_tags before owner_id file_id s = elim (find_if (is_owned_file owner_id file_id) s.files) [
  | none ↦ raise file_not_found
  | some f ↦ ok (
      by_name before (
        keep_if (λ (t : Tag). t.owner_id == owner_id && is_tagged file_id t.id s.file_tags) s.tags))
]

-- The rows without those of `to_remove`.
unfoldable pub without_others : ℕ → List ℕ → List FileTag → List FileTag
without_others file_id ids [] = []
without_others file_id ids (x ∷ xs) =
    let rest = without_others file_id ids xs in
    if x.file_id == file_id && not (has_id x.tag_id ids) then rest else x ∷ rest

-- The rows of `to_add`.
unfoldable pub added_tags : ℕ → List FileTag → List ℕ → List FileTag
added_tags file_id rows [] = []
added_tags file_id rows (id ∷ ids) =
    let rest = added_tags file_id rows ids in
    if is_tagged file_id id rows then rest else record { file_id = file_id; tag_id = id } ∷ rest

unfoldable pub retagged : ℕ → List ℕ → List FileTag → List FileTag
retagged file_id ids rows = without_others file_id ids rows ++ added_tags file_id rows ids

unfoldable pub set_file_tags : ℕ → ℕ → List ℕ → Tags → Reply (List ℕ) × Tags
set_file_tags owner_id file_id tag_ids s =
    let ids = sorted_set tag_ids in
    elim (find_if (is_owned_file owner_id file_id) s.files) [
      | none ↦ (raise file_not_found, s)
      | some f ↦ elim (missing_tags owner_id ids s.tags) [
        | id ∷ more ↦ (raise (unknown_tag_ids (id ∷ more)), s)
        | [] ↦ (ok ids, record s { file_tags = retagged file_id ids s.file_tags })
      ]
    ]
