-- ===== src/Restore/Segments.antt =====
-- `_dedupe_segments` of lcloud/userbot/db_restore.py.
pub mod Newest
use lcloud.Base.{ℕ, Bool, ◌&&◌, ◌||◌, List, [], ◌∷◌, ltb, ◌==◌, if◌then◌else◌}

-- `TelegramBackupSegment`: the message and the range of operations that it holds.
pub record TelegramBackupSegment : Type 0 where
  pub message_id : ℕ
  pub source_owner_user_id : ℕ
  pub first_operation_id : ℕ
  pub last_operation_id : ℕ

-- The keys of two segments are equal.
unfoldable pub same_range : TelegramBackupSegment → TelegramBackupSegment → Bool
same_range a b =
    a.source_owner_user_id == b.source_owner_user_id
    && a.first_operation_id == b.first_operation_id
    && a.last_operation_id == b.last_operation_id

-- One round of the loop over the segments, on the values of `by_range`.
unfoldable pub keep_newest :
    TelegramBackupSegment → List TelegramBackupSegment → List TelegramBackupSegment
unfolding same_range
keep_newest s [] = s ∷ []
keep_newest s (t ∷ kept) =
    if same_range s t
    then (if ltb t.message_id s.message_id then s else t) ∷ kept
    else t ∷ keep_newest s kept

unfoldable pub newest_from :
    List TelegramBackupSegment → List TelegramBackupSegment → List TelegramBackupSegment
unfolding keep_newest
newest_from [] kept = kept
newest_from (s ∷ segments) kept = newest_from segments (keep_newest s kept)

-- The order of the sort's keys.
unfoldable pub range_before : TelegramBackupSegment → TelegramBackupSegment → Bool
range_before a b =
    ltb a.source_owner_user_id b.source_owner_user_id
    || (a.source_owner_user_id == b.source_owner_user_id
        && (ltb a.first_operation_id b.first_operation_id
            || (a.first_operation_id == b.first_operation_id
                && ltb a.last_operation_id b.last_operation_id)))

unfoldable pub insert_sorted :
    TelegramBackupSegment → List TelegramBackupSegment → List TelegramBackupSegment
unfolding range_before
insert_sorted s [] = s ∷ []
insert_sorted s (t ∷ sorted) =
    if range_before t s then t ∷ insert_sorted s sorted else s ∷ t ∷ sorted

-- `sorted(…, key=…)`
unfoldable pub sorted : List TelegramBackupSegment → List TelegramBackupSegment
unfolding insert_sorted
sorted [] = []
sorted (s ∷ segments) = insert_sorted s (sorted segments)

unfoldable pub dedupe_segments : List TelegramBackupSegment → List TelegramBackupSegment
unfolding newest_from sorted
dedupe_segments segments = sorted (newest_from segments [])
