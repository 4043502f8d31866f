-- ===== src/Storage/Versions/Chain.antt =====
-- The order of the rows that the chain of lcloud/api/versions.py runs back on.
use lcloud.Base.{ℕ, ◌≤◌, ◌<◌, ◌≡◌, Option, none, some, List, [], ◌∷◌, arith, ◌==◌, find_if}
use lcloud.Storage.Rows.{File}

abbrev pub Below : Option ℕ → ℕ → Type 0
Below none n = Unit {0}
Below (some m) n = m < n

-- A row replaces one with a smaller id.
abbrev pub ReplaceEarlier : List File → Type 0
ReplaceEarlier [] = Unit {0}
ReplaceEarlier (f ∷ fs) = Below f.replaces_file_id f.id × ReplaceEarlier fs

pub found-Below :
    (id : ℕ) (row : File) (fs : List File)
    → ReplaceEarlier fs
    → find_if (λ (f : File). f.id == id) fs ≡ some row
    → Below row.replaces_file_id id
found-Below id row [] h e = ground arith
found-Below id row (f ∷ fs) h e = ground (arith, found-Below id row fs h.1)

pub Below-le : (o : Option ℕ) (m n : ℕ) → Below o m → m ≤ n → Below o n
Below-le none m n h le = tt
Below-le (some i) m n h le = omega (arith, h, le)
