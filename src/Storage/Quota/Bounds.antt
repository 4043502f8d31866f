-- ===== src/Storage/Quota/Bounds.antt =====
-- The totals of lcloud/auth/storage_quota.py against the sizes of the live files.
use lcloud.Base.{
  ℕ, ◌+◌, ◌≤◌, ◌≡◌, Bool, true, Option, none, some, List, [], ◌∷◌, ◌++◌, arith, ◌==◌, find_if,
  if◌then◌else◌, Option-cases, inl, inr,
}
use lcloud.Base.Int.{ℤ, pos, neg, ◌+ℤ◌, ◌≤ℤ◌, +ℤ_parts, neg_parts}
use lcloud.Storage.Rows.{
  UserRow, File, is_live, is_id, is_live_of, live_bytes, add_used, set_used, mark_deleted,
}
use lcloud.Storage.Quota.{find_user}
use lcloud.Storage.Rules.{Core}

-- The files of a user that are live are counted in its total, which is within its quota.
abbrev pub WithinQuota : Core → Type 0
WithinQuota c =
    (id : ℕ) (u : UserRow)
    → find_user id c.users ≡ some u
    → (pos (live_bytes id c.files) ≤ℤ u.storage_used_bytes)
      × (u.storage_used_bytes ≤ℤ pos u.storage_quota_bytes)

pub live_bytes-append :
    (id : ℕ) (fs : List File) (f : File)
    → live_bytes id (fs ++ f ∷ [])
      ≡ live_bytes id fs + (if is_live_of id f then f.size_bytes else 0)
unfolding live_bytes
live_bytes-append id [] f = ground arith
live_bytes-append id (g ∷ fs) f = ground (arith, live_bytes-append id fs f)

pub live_bytes-mark_deleted :
    (id now file_id : ℕ) (fs : List File)
    → live_bytes id (mark_deleted now file_id fs) ≤ live_bytes id fs
unfolding live_bytes mark_deleted
live_bytes-mark_deleted id now file_id [] = omega arith
live_bytes-mark_deleted id now file_id (f ∷ fs) =
    ground (arith, live_bytes-mark_deleted id now file_id fs)

-- A live row of a user that is deleted is no more counted.
pub live_bytes-deleted :
    (p : File → Bool) (id now file_id : ℕ) (row : File) (fs : List File)
    → ((f : File) → p f ≡ true → (f.id ≡ file_id) × (is_live f ≡ true))
    → find_if p fs ≡ some row
    → live_bytes id (mark_deleted now file_id fs)
        + (if is_id row.owner_user_id id then row.size_bytes else 0)
      ≤ live_bytes id fs
unfolding live_bytes mark_deleted
live_bytes-deleted p id now file_id row [] h e = ground arith
live_bytes-deleted p id now file_id row (f ∷ fs) h e = ground (
  arith,
  h f,
  live_bytes-mark_deleted id now file_id fs,
  live_bytes-deleted p id now file_id row fs h,
)

-- A user's row with its total changed.
abbrev with_used : (ℤ → ℤ) → Option UserRow → Option UserRow
with_used f none = none
with_used f (some u) = some (record u { storage_used_bytes = f u.storage_used_bytes })

find_user-add_used :
    (id j : ℕ) (d : ℤ) (us : List UserRow)
    → find_user id (add_used j d us)
      ≡ (if id == j then with_used (λ z. z +ℤ d) (find_user id us) else find_user id us)
unfolding add_used
find_user-add_used id j d [] = ground arith
find_user-add_used id j d (x ∷ us) = ground (arith, find_user-add_used id j d us)

find_user-set_used :
    (id j : ℕ) (t : ℤ) (us : List UserRow)
    → find_user id (set_used j t us)
      ≡ (if id == j then with_used (λ z. t) (find_user id us) else find_user id us)
unfolding set_used
find_user-set_used id j t [] = ground arith
find_user-set_used id j t (x ∷ us) = ground (arith, find_user-set_used id j t us)

-- A user has room for so many bytes.
abbrev pub HasRoom : ℕ → ℕ → Core → Type 0
HasRoom user n c =
    (u : UserRow)
    → find_user user c.users ≡ some u
    → u.storage_used_bytes +ℤ pos n ≤ℤ pos u.storage_quota_bytes

-- A new file of a user is in the table and not yet in the total.
abbrev pub Uncounted : ℕ → ℕ → Core → Type 0
Uncounted user n c =
    (id : ℕ) (u : UserRow)
    → find_user id c.users ≡ some u
    → let m = if id == user then n else 0 in
      (pos (live_bytes id c.files) ≤ℤ u.storage_used_bytes +ℤ pos m)
      × (u.storage_used_bytes +ℤ pos m ≤ℤ pos u.storage_quota_bytes)

-- A deleted file of an owner is still in the total.
abbrev pub Unreleased : Option ℕ → ℕ → Core → Type 0
Unreleased owner n c =
    (id : ℕ) (u : UserRow)
    → find_user id c.users ≡ some u
    → (pos (live_bytes id c.files + (if is_id owner id then n else 0)) ≤ℤ u.storage_used_bytes)
      × (u.storage_used_bytes ≤ℤ pos u.storage_quota_bytes)

ruleset parts = (arith, +ℤ_parts, neg_parts)

pub Uncounted-zero : (user : ℕ) (c : Core) → Uncounted user 0 c → WithinQuota c
Uncounted-zero user c h id u e = grind (parts, h id u e)

pub Unreleased-zero : (owner : Option ℕ) (c : Core) → Unreleased owner 0 c → WithinQuota c
Unreleased-zero owner c h id u e = grind (parts, h id u e)

pub Unreleased-none : (n : ℕ) (c : Core) → Unreleased none n c → WithinQuota c
Unreleased-none n c h id u e = grind (parts, h id u e)

pub Uncounted-added :
    (user n : ℕ) (c : Core)
    → Uncounted user n c
    → WithinQuota (record c { users = add_used user (pos n) c.users })
Uncounted-added user n c h id u e = grind (parts, find_user-add_used id user (pos n) c.users, h id)

pub Unreleased-added :
    (owner n : ℕ) (c : Core)
    → Unreleased (some owner) n c
    → WithinQuota (record c { users = add_used owner (neg n) c.users })
Unreleased-added owner n c h id u e =
    grind (parts, find_user-add_used id owner (neg n) c.users, h id)

pub recomputed :
    (user : ℕ) (c : Core)
    → WithinQuota c
    → WithinQuota (record c { users = set_used user (pos (live_bytes user c.files)) c.users })
recomputed user c h id u e =
    let same = find_user-set_used id user (pos (live_bytes user c.files)) c.users in
    elim (Option-cases (find_user id c.users)) [
      | inl none_found ↦ absurd (ground (arith, same))
      | inr (v, v_found) ↦ ground (arith, same, h id v v_found)
    ]

pub inserted :
    (user n : ℕ) (files : List File) (row : File) (c : Core)
    → ((id : ℕ) → live_bytes id files ≤ live_bytes id c.files)
    → row.owner_user_id ≡ some user
    → row.size_bytes ≡ n
    → WithinQuota c
    → HasRoom user n c
    → Uncounted user n (record c { files = files ++ row ∷ [] })
inserted user n files row c le owner size h room id u e =
    grind (parts, live_bytes-append id files row, le id, h id u e, room u)

pub deleted-Unreleased :
    (p : File → Bool) (now file_id : ℕ) (row : File) (c : Core)
    → ((f : File) → p f ≡ true → (f.id ≡ file_id) × (is_live f ≡ true))
    → find_if p c.files ≡ some row
    → WithinQuota c
    → Unreleased row.owner_user_id row.size_bytes
        (record c { files = mark_deleted now file_id c.files })
deleted-Unreleased p now file_id row c hp found h id u e =
    grind (parts, live_bytes-deleted p id now file_id row c.files hp found, h id u e)
