-- ===== src/Storage/Quota/Kept.antt =====
-- The requests of the storage keep every user's live files within its total, and the total within its quota.
use mathlib.Core.Path.{subst}
use lcloud.Base.{
  ℕ, ◌≤◌, ◌≡◌, refl, Bool, true, false, not, Option, none, some, List, arith, if◌then◌else◌, length,
}
use lcloud.Base.Int.{ℤ, pos, ◌+ℤ◌, ◌≤ℤ◌, ltb_ℤ, eq_ℤ}
use lcloud.Storage.Rows.{UserRow, File, live_bytes, add_used}
use lcloud.Storage.Session.{Env, user_missing}
use lcloud.Storage.Quota.{
  find_user, get_used_and_quota, assert_can_store, used_of, add_and_read, increment_used,
}
use lcloud.Storage.Quota.Bounds.{
  WithinQuota, HasRoom, Uncounted, Uncounted-zero, Uncounted-added, inserted,
  live_bytes-mark_deleted,
}
use lcloud.Storage.Upload.{NewFile, SentFile, file_row, supersede, insert_file, account_upload}
use lcloud.Storage.Rules.{
  Core, core, Meets, Meets-bind, Meets-Quiet, Meets-weaken, Meets-assume, Meets-pure, Meets-guard,
  Meets-or_fail, Meets-gets, Meets-modify,
}
use lcloud.Storage.Rules.Unchanged.{
  Quiet-bind, Quiet-pure, Quiet-or_fail, Quiet-gets, modify_cache-Quiet,
}
use lcloud.Storage.Rules.Steps.{get_used_and_quota-Quiet}

-- The pair is the user's total and quota.
abbrev AreTotals : ℕ → ℤ × ℕ → Core → Type 0
AreTotals user t c =
    WithinQuota c
    × ((u : UserRow)
        → find_user user c.users ≡ some u
        → (u.storage_used_bytes ≡ t.0) × (u.storage_quota_bytes ≡ t.1))

get_used_and_quota-Meets :
    (user : ℕ) → Meets WithinQuota WithinQuota (AreTotals user) (get_used_and_quota user)
unfolding get_used_and_quota
get_used_and_quota-Meets user =
    Meets-bind WithinQuota (Meets-gets WithinQuota (λ c. find_user user c.users)) λ row.
      Meets-bind WithinQuota (Meets-or_fail WithinQuota row user_missing (λ c p. p.0))
        λ u. Meets-pure WithinQuota _ λ c p. (p.0.0, λ v e. ground (arith, p.0.1, p.1))

-- An upload of so many bytes that is let through has room.
pub assert_can_store-Meets :
    (user n : ℕ)
    → Meets WithinQuota WithinQuota
        (λ _ c. WithinQuota c × HasRoom user n c)
        (assert_can_store user n)
unfolding assert_can_store
assert_can_store-Meets user n = Meets-bind WithinQuota (get_used_and_quota-Meets user) λ t.
    Meets-weaken WithinQuota (Meets-guard WithinQuota _ _ λ c p. p.0)
      λ _ c p. (p.0.0, λ u e. room u.storage_used_bytes u.storage_quota_bytes t (p.0.1 u e) p.1)
  where
    room :
        (used : ℤ) (quota : ℕ) (t : ℤ × ℕ)
        → (used ≡ t.0) × (quota ≡ t.1)
        → not (ltb_ℤ (pos t.1) (t.0 +ℤ pos n)) ≡ true
        → used +ℤ pos n ≤ℤ pos quota
    room used quota t same fits = ground (arith, same)

pub increment_used-Meets :
    (P : Core → Type 0) (user : ℕ) (d : ℤ)
    → (eq_ℤ d (pos 0) ≡ true → (c : Core) → P c → WithinQuota c)
    → ((c : Core) → P c → WithinQuota (record c { users = add_used user d c.users }))
    → Meets WithinQuota P (λ _. WithinQuota) (increment_used user d)
unfolding increment_used used_of add_and_read
increment_used-Meets P user d same added = after (eq_ℤ d (pos 0)) same
  where
    after :
        (b : Bool)
        → (b ≡ true → (c : Core) → P c → WithinQuota c)
        → Meets WithinQuota P (λ _. WithinQuota) (if b then used_of user else add_and_read user d)
    after true h =
        Meets-assume WithinQuota
          (Meets-Quiet WithinQuota (Quiet-bind (get_used_and_quota-Quiet user) λ _. Quiet-pure _)
            λ c p. p)
          (h refl)
    after false h = Meets-bind WithinQuota (Meets-modify WithinQuota _ λ w p. added (core w) p) λ _.
        Meets-Quiet WithinQuota
          (Quiet-bind (Quiet-gets _) λ _. Quiet-bind (Quiet-or_fail _ _) λ _. Quiet-pure _) λ c p. p

live_bytes-supersede :
    (id now : ℕ) (replaces : Option ℕ) (fs : List File)
    → live_bytes id (supersede now replaces fs) ≤ live_bytes id fs
unfolding supersede
live_bytes-supersede id now none fs = omega arith
live_bytes-supersede id now (some file_id) fs = live_bytes-mark_deleted id now file_id fs

-- The row is that of a new file of the user, who has room for it.
IsNewOf : ℕ → File → Core → Type 0
IsNewOf user row c = WithinQuota c × HasRoom user row.size_bytes c × (row.owner_user_id ≡ some user)

-- The row that is added is counted next.
pub insert_file-Meets :
    (env : Env) (replaces : Option ℕ) (n : NewFile)
    → Meets WithinQuota
        (λ c. WithinQuota c × HasRoom n.owner_user_id (length n.file.contents) c)
        (λ row. Uncounted n.owner_user_id row.size_bytes)
        (insert_file env replaces n)
unfolding insert_file file_row IsNewOf
insert_file-Meets env replaces n =
    Meets-bind WithinQuota
      (Meets-weaken WithinQuota {R = IsNewOf n.owner_user_id}
        (Meets-gets WithinQuota (λ c. file_row env.now replaces n c.files)) λ row c p. new row c p)
      λ row. Meets-bind WithinQuota (Meets-Quiet WithinQuota (Quiet-gets _) (λ c p. p.0)) λ taken.
        Meets-bind WithinQuota (Meets-guard WithinQuota _ _ (λ c p. p.0)) λ _.
          Meets-bind WithinQuota
            (Meets-modify WithinQuota {Q = Uncounted n.owner_user_id row.size_bytes} _ λ w p.
              inserted n.owner_user_id row.size_bytes (supersede env.now replaces w.files) row
                (core w) (λ id. live_bytes-supersede id env.now replaces w.files) p.0.2 refl p.0.0
                p.0.1)
            λ _. Meets-pure WithinQuota row λ c p. p
  where
    new :
        (row : File) (c : Core)
        → (WithinQuota c × HasRoom n.owner_user_id (length n.file.contents) c)
          × (file_row env.now replaces n c.files ≡ row)
        → IsNewOf n.owner_user_id row c
    new row c ((within, room), made) =
        subst (λ row. IsNewOf n.owner_user_id row c) made (within, room, refl)

pub account_upload-Meets :
    (user : ℕ) (sent : SentFile) (row : File)
    → Meets WithinQuota
        (Uncounted user row.size_bytes)
        (λ _. WithinQuota)
        (account_upload user sent row)
unfolding account_upload
account_upload-Meets user sent row =
    Meets-bind WithinQuota
      (increment_used-Meets (Uncounted user row.size_bytes) user (pos row.size_bytes)
        (λ none_new c. after row.size_bytes none_new c) (Uncounted-added user row.size_bytes))
      λ _.
        Meets-Quiet WithinQuota
          (Quiet-bind (modify_cache-Quiet _)
            λ _. Quiet-bind (modify_cache-Quiet _) λ _. Quiet-pure _)
          λ c p. p
  where
    after : (n : ℕ) → eq_ℤ (pos n) (pos 0) ≡ true → (c : Core) → Uncounted user n c → WithinQuota c
    after n e c h = Uncounted-zero user c (subst (λ n. Uncounted user n c) (ground arith) h)
