-- ===== src/Storage/Quota.antt =====
-- lcloud/auth/storage_quota.py: the running total of a user's files, and its limit.
pub mod Bounds
pub mod Kept
pub mod Handlers
pub mod Runs
use lcloud.Base.{ℕ, List, Option, none, some, ◌==◌, if◌then◌else◌, find_if, not}
use lcloud.Base.Int.{ℤ, pos, ◌+ℤ◌, ltb_ℤ, eq_ℤ}
use lcloud.Storage.Rows.{UserRow, has_user_id, add_used, set_used, live_bytes}
use lcloud.Storage.Session.{
  Handler, pure, fail, gets, guard, modify, or_fail, ◌>>=◌, ◌>>◌, user_missing, quota_exceeded,
  no_result_found,
}

-- The id is the primary key.
abbrev pub find_user : ℕ → List UserRow → Option UserRow
find_user id = find_if (has_user_id id)

unfoldable pub get_used_and_quota : ℕ → Handler (ℤ × ℕ)
get_used_and_quota user_id = do
  row ← or_fail (← gets (λ w. find_user user_id w.users)) user_missing
  pure (row.storage_used_bytes, row.storage_quota_bytes)

-- A size is never negative, so that the `ValueError` is not raised.
unfoldable pub assert_can_store : ℕ → ℕ → Handler (Unit {0})
assert_can_store user_id additional_bytes = do
  totals ← get_used_and_quota user_id
  guard (not (ltb_ℤ (pos totals.1) (totals.0 +ℤ pos additional_bytes)))
      (quota_exceeded totals.0 totals.1 additional_bytes)

unfoldable pub used_of : ℕ → Handler ℤ
used_of user_id = do totals ← get_used_and_quota user_id; pure totals.0

-- The update, and the total after it.
unfoldable pub add_and_read : ℕ → ℤ → Handler ℤ
add_and_read user_id delta = do
  modify λ w. record w { users = add_used user_id delta w.users }
  row ← or_fail (← gets (λ w. find_user user_id w.users)) no_result_found
  pure row.storage_used_bytes

unfoldable pub increment_used : ℕ → ℤ → Handler ℤ
increment_used user_id delta =
    if eq_ℤ delta (pos 0) then used_of user_id else add_and_read user_id delta

unfoldable pub recompute_used : ℕ → Handler ℕ
recompute_used user_id = do
  total ← gets (λ w. live_bytes user_id w.files)
  modify λ w. record w { users = set_used user_id (pos total) w.users }
  pure total
