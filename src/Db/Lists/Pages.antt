-- ===== src/Db/Lists/Pages.antt =====
-- What the lists of lcloud/api/json_db.py show.

use lcloud.Base.{
  ℕ, zero, suc, ◌+◌, ◌≤◌, ◌≡◌, Bool, true, none, some, List, [], ◌∷◌, ◌++◌, arith, keep_if, length,
  map, not, ◌&&◌, ◌==◌, is_some,
}
use lcloud.Db.Rows.{JsonCollection, JsonDocument, Db}
use lcloud.Db.Errors.{read}
use lcloud.Db.Access.{Caller, principal, user, can_access}
use lcloud.Db.Session.{Body, DocumentBody, document, page, key_database, serialize_document}
use lcloud.Db.Lists.{list_body, is_listed, listed_rows}

abbrev pub AllOf : (JsonDocument → Bool) → List JsonDocument → Type 0
AllOf p [] = Unit {0}
AllOf p (row ∷ rows) = (p row ≡ true) × AllOf p rows

is_listed-can_access :
    (coll : JsonCollection) (caller : Caller) (row : JsonDocument)
    → can_access coll caller read none ≡ true
    → is_listed coll caller row ≡ true
    → can_access coll caller read (some row) ≡ true
unfolding can_access is_listed
is_listed-can_access coll (user id) row h l = ground arith
is_listed-can_access coll (principal id none) row h l = ground arith
is_listed-can_access coll (principal id (some app)) row h l = ground arith

-- What a list by a publishable key shows to a caller who may read the collection, the caller may also read
-- one by one.
pub listed_rows-can_access :
    (coll : JsonCollection) (caller : Caller) (rows : List JsonDocument)
    → can_access coll caller read none ≡ true
    → AllOf
        (λ row. can_access coll caller read (some row))
        (listed_rows coll (is_listed coll caller) rows)
unfolding listed_rows
listed_rows-can_access coll caller [] h = tt
listed_rows-can_access coll caller (row ∷ rows) h =
    ground
      (arith, listed_rows-can_access coll caller rows h, is_listed-can_access coll caller row h)

-- What a page of a list says.
abbrev pub items : Body → List DocumentBody
items (document d) = []
items (page shown total limit offset) = shown
items (key_database id) = []

abbrev pub total_of : Body → ℕ
total_of (document d) = 0
total_of (page shown total limit offset) = total
total_of (key_database id) = 0

-- What a client reads that asks for pages of one length one after the other.
abbrev pub walk : JsonCollection → (JsonDocument → Bool) → ℕ → ℕ → ℕ → Db → List DocumentBody
walk coll shows limit zero offset db = []
walk coll shows limit (suc n) offset db =
    items (list_body coll shows limit offset db) ++ walk coll shows limit n (offset + limit) db

-- The row is of the collection, is not deleted and is shown, and the test on rows takes it.
abbrev pub is_shown_row :
    JsonCollection → (JsonDocument → Bool) → (JsonDocument → Bool) → JsonDocument → Bool
is_shown_row coll shows p row =
    row.collection_id == coll.id && (not (is_some row.deleted_at) && (shows row && p row))

-- The second row was not updated after the first, and if at the same time its id is not greater.
abbrev pub IsAfter : JsonDocument → JsonDocument → Type 0
IsAfter x y = (y.updated_at ≤ x.updated_at) × (y.updated_at ≡ x.updated_at → y.id ≤ x.id)

abbrev pub FollowAll : JsonDocument → List JsonDocument → Type 0
FollowAll x [] = Unit {0}
FollowAll x (y ∷ rows) = IsAfter x y × FollowAll y rows

abbrev pub IsLatestFirst : List JsonDocument → Type 0
IsLatestFirst [] = Unit {0}
IsLatestFirst (x ∷ rows) = FollowAll x rows

-- The rows that the pages show, in the order of the pages.
abbrev pub IsShownWhole :
    JsonCollection → (JsonDocument → Bool) → Db → List DocumentBody → List JsonDocument → Type 0
IsShownWhole coll shows db shown rows =
    (shown ≡ map serialize_document rows)
    × (IsLatestFirst rows
        × ((p : JsonDocument → Bool)
            → length (keep_if p rows) ≡ length (keep_if (is_shown_row coll shows p) db.documents)))
