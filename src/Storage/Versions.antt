-- ===== src/Storage/Versions.antt =====
-- lcloud/api/versions.py: the rows that a file replaced.
pub mod Chain
pub mod Whole
pub mod Kept
pub mod Handlers
pub mod Runs
use lcloud.Base.{
  ℕ, zero, suc, Bool, Option, none, some, List, [], ◌∷◌, ◌==◌, find_if, keep_if, any_of,
  if◌then◌else◌,
}
use lcloud.Storage.Rows.{File, is_id}
use lcloud.Storage.Session.{CurrentUser, Handler, World, gets, ◌>>=◌}
use lcloud.Storage.Files.{get_any_file}

-- The rows that `replaces_file_id` leads back to, on a bound of their number.
unfoldable pub earlier_versions : ℕ → List File → Option ℕ → List File
earlier_versions zero files replaces = []
earlier_versions (suc bound) files none = []
earlier_versions (suc bound) files (some id) = elim (find_if (λ (f : File). f.id == id) files) [
  | none ↦ []
  | some prev ↦ prev ∷ earlier_versions bound files prev.replaces_file_id
]

-- `if fwd not in chain: chain.insert(0, fwd)`; a row is its id.
unfoldable pub put_forward : List File → List File → List File
put_forward [] chain = chain
put_forward (fwd ∷ more) chain =
    put_forward more (if any_of (λ (f : File). f.id == fwd.id) chain then chain else fwd ∷ chain)

-- `list_versions`: the chain back from the file ends after no more rows than its id.
unfoldable pub list_versions : CurrentUser → ℕ → Handler (List File)
list_versions user file_id = do
  anchor ← get_any_file user file_id
  gets λ w.
      put_forward (keep_if (λ (f : File). is_id f.replaces_file_id file_id) w.files)
        (anchor ∷ earlier_versions anchor.id w.files anchor.replaces_file_id)
