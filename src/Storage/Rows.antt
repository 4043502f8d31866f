-- ===== src/Storage/Rows.antt =====
-- lcloud/db/models.py: the tables of the files, the clouds and their users, and the queries of them.
use lcloud.Base.{
  ℕ, ◌+◌, String, Bool, true, false, Option, none, some, List, [], ◌∷◌, ◌==◌, ltb, ◌&&◌, ◌||◌,
  if◌then◌else◌,
}
use lcloud.Base.Int.{ℤ, ◌+ℤ◌}
use lcloud.Base.Bytes.{Bytes}

-- `User`, with the columns that the storage reads and writes.
pub record UserRow : Type 0 where
  pub id : ℕ
  pub role : String
  pub pubkey : Bytes
  pub suspended_at : Option ℕ
  pub storage_used_bytes : ℤ
  pub storage_quota_bytes : ℕ

-- `Cloud`
pub record CloudRow : Type 0 where
  pub id : ℕ
  pub chat_id : ℤ
  pub owner_id : ℕ
  pub owner_user_id : Option ℕ
  pub name : String
  pub about : Option String
  pub created_at : ℕ

pub record File : Type 0 where
  pub id : ℕ
  pub cloud_id : ℕ
  pub message_id : ℕ
  pub owner_id : ℕ
  pub owner_user_id : Option ℕ
  pub replaces_file_id : Option ℕ
  pub original_name : String
  pub mime : String
  pub size_bytes : ℕ
  pub sha256 : Bytes
  pub signature : Bytes
  pub compressed : Bool
  pub original_size_bytes : Option ℕ
  pub uploaded_at : ℕ
  pub deleted_at : Option ℕ

pub record FileShare : Type 0 where
  pub id : ℕ
  pub file_id : ℕ
  pub owner_user_id : ℕ
  pub token : String
  pub created_at : ℕ
  pub expires_at : Option ℕ
  pub max_downloads : Option ℕ
  pub download_count : ℕ
  pub revoked_at : Option ℕ

pub record StoragePublicKey : Type 0 where
  pub id : ℕ
  pub database_id : Option ℕ
  pub owner_user_id : ℕ
  pub cloud_id : ℕ
  pub key : String
  pub prefix : String
  pub label : String
  pub allow_upload : Bool
  pub allow_list : Bool
  pub allow_download : Bool
  pub allow_delete : Bool
  pub max_file_bytes : Option ℕ
  pub created_at : ℕ
  pub revoked_at : Option ℕ

-- `x == n` for a nullable column
abbrev pub is_id : Option ℕ → ℕ → Bool
is_id none n = false
is_id (some m) n = m == n

abbrev pub is_null : {A : Type 0} → Option A → Bool
is_null none = true
is_null (some a) = false

-- `File.deleted_at.is_(None)`
abbrev pub is_live : File → Bool
is_live f = is_null f.deleted_at

abbrev pub has_user_id : ℕ → UserRow → Bool
has_user_id id u = u.id == id

-- `UPDATE users SET storage_used_bytes = storage_used_bytes + delta WHERE id = ?`
unfoldable pub add_used : ℕ → ℤ → List UserRow → List UserRow
add_used id delta [] = []
add_used id delta (u ∷ us) =
    let rest = add_used id delta us in
    if u.id == id
    then record u { storage_used_bytes = u.storage_used_bytes +ℤ delta } ∷ rest
    else u ∷ rest

-- `UPDATE users SET storage_used_bytes = total WHERE id = ?`
unfoldable pub set_used : ℕ → ℤ → List UserRow → List UserRow
set_used id total [] = []
set_used id total (u ∷ us) =
    let rest = set_used id total us in
    if u.id == id then record u { storage_used_bytes = total } ∷ rest else u ∷ rest

-- `UPDATE files SET deleted_at = now WHERE id = ? AND deleted_at IS NULL`
unfoldable pub mark_deleted : ℕ → ℕ → List File → List File
mark_deleted now id [] = []
mark_deleted now id (f ∷ fs) =
    let rest = mark_deleted now id fs in
    if f.id == id && is_live f then record f { deleted_at = some now } ∷ rest else f ∷ rest

-- The live files of a user.
abbrev pub is_live_of : ℕ → File → Bool
is_live_of user_id f = is_live f && is_id f.owner_user_id user_id

-- `SUM(files.size_bytes)` of the live files of a user, 0 for none
unfoldable pub live_bytes : ℕ → List File → ℕ
live_bytes user_id [] = 0
live_bytes user_id (f ∷ fs) =
    let rest = live_bytes user_id fs in if is_live_of user_id f then f.size_bytes + rest else rest

-- `uploaded_at`, then `id`, both the greatest first
abbrev pub uploaded_after : File → File → Bool
uploaded_after f g =
    ltb g.uploaded_at f.uploaded_at || (f.uploaded_at == g.uploaded_at && ltb g.id f.id)

unfoldable pub insert_newest_file : File → List File → List File
insert_newest_file f [] = f ∷ []
insert_newest_file f (g ∷ gs) =
    let rest = insert_newest_file f gs in if uploaded_after g f then g ∷ rest else f ∷ g ∷ gs

unfoldable pub newest_files : List File → List File
unfolding insert_newest_file
newest_files [] = []
newest_files (f ∷ fs) = insert_newest_file f (newest_files fs)
