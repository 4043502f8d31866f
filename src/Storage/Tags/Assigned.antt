-- ===== src/Storage/Tags/Assigned.antt =====
-- The tags that `set_file_tags` of lcloud/api/tags.py leaves.
use lcloud.Base.{
  ℕ, ◌≡◌, refl, not, ◌&&◌, ◌||◌, Option, none, some, List, [], ◌∷◌, ◌++◌, arith, ◌==◌,
  if◌then◌else◌, find_if,
}
use lcloud.Storage.Rows.{File}
use lcloud.Storage.Tags.{
  Tags, FileTag, Reply, ok, raise, has_id, is_tagged, without_others, added_tags, retagged,
  insert_id, sorted_set, missing_tags, set_file_tags, is_owned_file, file_not_found,
  unknown_tag_ids,
}

has_id-insert_id :
    (n id : ℕ) (ids : List ℕ) → has_id n (insert_id id ids) ≡ (id == n || has_id n ids)
unfolding has_id insert_id
has_id-insert_id n id [] = ground arith
has_id-insert_id n id (m ∷ ms) = ground (arith, has_id-insert_id n id ms)

has_id-sorted_set : (n : ℕ) (ids : List ℕ) → has_id n (sorted_set ids) ≡ has_id n ids
unfolding has_id sorted_set
has_id-sorted_set n [] = refl
has_id-sorted_set n (id ∷ ids) =
    ground (arith, has_id-insert_id n id (sorted_set ids), has_id-sorted_set n ids)

is_tagged-append :
    (g id : ℕ) (xs ys : List FileTag)
    → is_tagged g id (xs ++ ys) ≡ (is_tagged g id xs || is_tagged g id ys)
unfolding is_tagged
is_tagged-append g id [] ys = refl
is_tagged-append g id (x ∷ xs) ys = ground (arith, is_tagged-append g id xs ys)

is_tagged-without_others :
    (f g id : ℕ) (ids : List ℕ) (rows : List FileTag)
    → is_tagged g id (without_others f ids rows)
      ≡ (is_tagged g id rows && (not (g == f) || has_id id ids))
unfolding is_tagged without_others
is_tagged-without_others f g id ids [] = refl
is_tagged-without_others f g id ids (x ∷ xs) =
    ground (arith, is_tagged-without_others f g id ids xs)

is_tagged-added_tags :
    (f g id : ℕ) (rows : List FileTag) (ids : List ℕ)
    → is_tagged g id (added_tags f rows ids)
      ≡ (g == f && (has_id id ids && not (is_tagged f id rows)))
unfolding is_tagged added_tags has_id
is_tagged-added_tags f g id rows [] = ground arith
is_tagged-added_tags f g id rows (i ∷ ids) = ground (arith, is_tagged-added_tags f g id rows ids)

is_tagged-retagged :
    (f g id : ℕ) (ids : List ℕ) (rows : List FileTag)
    → is_tagged g id (retagged f ids rows) ≡ (if g == f then has_id id ids else is_tagged g id rows)
unfolding retagged
is_tagged-retagged f g id ids rows = ground (
  arith,
  is_tagged-append g id (without_others f ids rows) (added_tags f rows ids),
  is_tagged-without_others f g id ids rows,
  is_tagged-added_tags f g id rows ids,
)

-- When `set_file_tags` answers, the file has exactly the tags whose ids were asked for, whatever it had,
-- and every other file has the tags that it had.
pub set_file_tags-is_tagged :
    (owner_id file_id : ℕ) (tag_ids ids : List ℕ) (s t : Tags) (g id : ℕ)
    → set_file_tags owner_id file_id tag_ids s ≡ (ok ids, t)
    → is_tagged g id t.file_tags
      ≡ (if g == file_id then has_id id tag_ids else is_tagged g id s.file_tags)
unfolding set_file_tags
set_file_tags-is_tagged owner_id file_id tag_ids ids s t g id e =
    after (find_if (is_owned_file owner_id file_id) s.files)
      (missing_tags owner_id (sorted_set tag_ids) s.tags) e
  where
    after :
        (f : Option File) (missing : List ℕ)
        → (elim f as (λ _. Reply (List ℕ) × Tags) [
          | none ↦ (raise file_not_found, s)
          | some f ↦ elim missing [
            | id ∷ more ↦ (raise (unknown_tag_ids (id ∷ more)), s)
            | [] ↦ (
              ok (sorted_set tag_ids),
              record s { file_tags = retagged file_id (sorted_set tag_ids) s.file_tags },
            )
          ]
        ])
          ≡ (ok ids, t)
        → is_tagged g id t.file_tags
          ≡ (if g == file_id then has_id id tag_ids else is_tagged g id s.file_tags)
    after none missing e = ground (arith, e)
    after (some f) (i ∷ more) e = ground (arith, e)
    after (some f) [] e = ground (
      arith,
      e,
      is_tagged-retagged file_id g id (sorted_set tag_ids) s.file_tags,
      has_id-sorted_set id tag_ids,
    )
