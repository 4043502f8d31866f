-- ===== src/Storage/Versions/Whole.antt =====
-- What `list_versions` of lcloud/api/versions.py answers.
use mathlib.Core.Path.{subst}
use lcloud.Base.{
  ℕ, zero, suc, ◌≡◌, refl, sym, Bool, true, false, Option, none, some, List, [], ◌∷◌, arith, ◌==◌,
  find_if, keep_if, any_of, inl, inr, Bool-cases, if◌then◌else◌,
}
use lcloud.Storage.Rows.{File, is_id}
use lcloud.Storage.Session.{World, CurrentUser, ok, may_access, ◌>>=◌, or_fail, gets, guard, pure}
use lcloud.Storage.Files.{get_any_file}
use lcloud.Storage.Versions.{earlier_versions, put_forward, list_versions}
use lcloud.Storage.Versions.Chain.{Below, Below-le, ReplaceEarlier, found-Below}

-- A row that is found by the id, or by that which a row so found replaces, and so on.
pub data Leads (files : List File) : Option ℕ → File → Type 0 where
  here :
      (id : ℕ) (f : File)
      → find_if (λ (x : File). x.id == id) files ≡ some f
      → Leads files (some id) f
  back :
      (id : ℕ) (prev f : File)
      → find_if (λ (x : File). x.id == id) files ≡ some prev
      → Leads files prev.replaces_file_id f
      → Leads files (some id) f

abbrev pub has : File → List File → Bool
has f = any_of (λ (x : File). x.id == f.id)

-- The file itself, one of its earlier versions, or a row of the table that replaces it.
pub data IsVersion (files : List File) (anchor : File) : File → Type 0 where
  itself : IsVersion files anchor anchor
  earlier : (f : File) → Leads files anchor.replaces_file_id f → IsVersion files anchor f
  later :
      (f : File)
      → has f (keep_if (λ (x : File). is_id x.replaces_file_id anchor.id) files) ≡ true
      → IsVersion files anchor f

abbrev pub AreVersions : List File → File → List File → Type 0
AreVersions files anchor [] = Unit {0}
AreVersions files anchor (f ∷ fs) = IsVersion files anchor f × AreVersions files anchor fs

has-earlier_versions :
    (bound : ℕ) (files : List File) (replaces : Option ℕ) (f : File)
    → ReplaceEarlier files
    → Below replaces bound
    → Leads files replaces f
    → has f (earlier_versions bound files replaces) ≡ true
unfolding earlier_versions
has-earlier_versions zero files none f h b l = elim l [ ]
has-earlier_versions (suc bound) files none f h b l = elim l [ ]
has-earlier_versions zero files (some id) f h b l = ground arith
has-earlier_versions (suc bound) files (some id) f h b (here _ _ e) =
    simp (e, earlier_versions) (ground arith)
has-earlier_versions (suc bound) files (some id) f h b (back _ prev _ e l) =
    let rest =
      has-earlier_versions bound files prev.replaces_file_id f h
        (Below-le prev.replaces_file_id id bound (found-Below id prev files h e) (omega (arith, b)))
        l in
    simp (e, earlier_versions) (ground (arith, rest))

AreVersions-earlier :
    (bound : ℕ) (files : List File) (anchor : File) (replaces : Option ℕ)
    → ((f : File) → Leads files replaces f → Leads files anchor.replaces_file_id f)
    → AreVersions files anchor (earlier_versions bound files replaces)
unfolding earlier_versions
AreVersions-earlier zero files anchor replaces h = tt
AreVersions-earlier (suc bound) files anchor none h = tt
AreVersions-earlier (suc bound) files anchor (some id) h =
    after (find_if (λ (f : File). f.id == id) files) λ prev e. (
      earlier prev (h prev (here id prev e)),
      AreVersions-earlier bound files anchor prev.replaces_file_id λ f l. h f (back id prev f e l),
    )
  where
    after :
        (o : Option File)
        → ((prev : File)
            → o ≡ some prev
            → IsVersion files anchor prev
              × AreVersions files anchor (earlier_versions bound files prev.replaces_file_id))
        → AreVersions files anchor (elim o as (λ _. List File) [
          | none ↦ []
          | some prev ↦ prev ∷ earlier_versions bound files prev.replaces_file_id
        ])
    after none k = tt
    after (some prev) k = k prev refl

has-put_forward :
    (f : File) (more chain : List File) → has f chain ≡ true → has f (put_forward more chain) ≡ true
unfolding put_forward
has-put_forward f [] chain h = h
has-put_forward f (x ∷ more) chain h = has-put_forward f more _ (ground arith)

has-put_forward_more :
    (f : File) (more chain : List File) → has f more ≡ true → has f (put_forward more chain) ≡ true
unfolding put_forward
has-put_forward_more f [] chain h = ground arith
has-put_forward_more f (x ∷ more) chain h = elim (Bool-cases (x.id == f.id)) [
  | inl e ↦ has-put_forward f more _ (ground arith)
  | inr e ↦ has-put_forward_more f more _ (ground arith)
]

AreVersions-put_forward :
    (files : List File) (anchor : File) (more chain : List File)
    → ((f : File) → has f more ≡ true → IsVersion files anchor f)
    → AreVersions files anchor chain
    → AreVersions files anchor (put_forward more chain)
unfolding put_forward
AreVersions-put_forward files anchor [] chain h c = c
AreVersions-put_forward files anchor (x ∷ more) chain h c =
    AreVersions-put_forward files anchor more _ (λ f e. h f (ground arith))
      (added (any_of (λ (f : File). f.id == x.id) chain))
  where
    added : (b : Bool) → AreVersions files anchor (if b then chain else x ∷ chain)
    added true = c
    added false = (h x (ground arith), c)

found-id :
    (id : ℕ) (row : File) (fs : List File)
    → find_if (λ (f : File). f.id == id) fs ≡ some row
    → id ≡ row.id
found-id id row [] e = ground arith
found-id id row (f ∷ fs) e = ground (arith, found-id id row fs)

-- The rows of the answer.
abbrev versions_of : List File → File → List File
versions_of files anchor =
    put_forward (keep_if (λ (x : File). is_id x.replaces_file_id anchor.id) files)
      (anchor ∷ earlier_versions anchor.id files anchor.replaces_file_id)

versions_of-AreVersions :
    (files : List File) (anchor : File) → AreVersions files anchor (versions_of files anchor)
versions_of-AreVersions files anchor =
    AreVersions-put_forward files anchor
      (keep_if (λ (x : File). is_id x.replaces_file_id anchor.id) files) _ later
      (itself, AreVersions-earlier anchor.id files anchor anchor.replaces_file_id λ f l. l)

has-versions_of :
    (files : List File) (anchor f : File)
    → ReplaceEarlier files
    → Below anchor.replaces_file_id anchor.id
    → IsVersion files anchor f
    → has f (versions_of files anchor) ≡ true
has-versions_of files anchor f h b itself =
    has-put_forward anchor (keep_if (λ (x : File). is_id x.replaces_file_id anchor.id) files) _
      (ground arith)
has-versions_of files anchor f h b (earlier _ l) =
    let before = has-earlier_versions anchor.id files anchor.replaces_file_id f h b l in
    has-put_forward f (keep_if (λ (x : File). is_id x.replaces_file_id anchor.id) files) _
      (ground (arith, before))
has-versions_of files anchor f h b (later _ e) = has-put_forward_more f _ _ e

-- Where each row replaces a row with a smaller id, `list_versions` answers a user who may use the file: with
-- the file itself, every row that its `replaces_file_id` leads back to, however many, and every row of the
-- table that replaces it, each known by its id, and with no other row.
pub list_versions-whole :
    (user : CurrentUser) (file_id : ℕ) (anchor f : File) (w : World)
    → find_if (λ (x : File). x.id == file_id) w.files ≡ some anchor
    → may_access user anchor.owner_user_id ≡ true
    → ReplaceEarlier w.files
    → IsVersion w.files anchor f
    → (rows : List File) × ((list_versions user file_id w ≡ (ok rows, w))
        × (AreVersions w.files anchor rows × (has f rows ≡ true)))
unfolding list_versions get_any_file ◌>>=◌ or_fail gets guard pure
list_versions-whole user file_id anchor f w e may h v =
    let same = found-id file_id anchor w.files e in
    (
      versions_of w.files anchor,
      (
        simp (e, may, list_versions, get_any_file, ◌>>=◌, or_fail, guard, gets, pure, sym same)
            refl,
        (
          versions_of-AreVersions w.files anchor,
          has-versions_of w.files anchor f h
              (subst (λ id. Below anchor.replaces_file_id id) same
                (found-Below file_id anchor w.files h e))
              v,
        ),
      ),
    )
