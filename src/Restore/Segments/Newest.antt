-- ===== src/Restore/Segments/Newest.antt =====
-- Which segments `_dedupe_segments` of lcloud/userbot/db_restore.py keeps.
use lcloud.Base.{
  ◌≤◌, ◌<◌, ◌≡◌, refl, ◌∙◌, Bool, true, false, ◌&&◌, ◌||◌, List, [], ◌∷◌, ◌++◌, arith, leb, ltb,
  any_of, if◌then◌else◌, ◌==◌, Bool-cases, inl, inr,
}
use lcloud.Restore.Segments.{
  TelegramBackupSegment, same_range, range_before, keep_newest, newest_from, insert_sorted, sorted,
  dedupe_segments,
}

-- The second segment has the range of the first, and is no older.
abbrev pub covers : TelegramBackupSegment → TelegramBackupSegment → Bool
covers s t = same_range s t && leb s.message_id t.message_id

any_of-insert_sorted :
    (p : TelegramBackupSegment → Bool) (s : TelegramBackupSegment) (ts : List TelegramBackupSegment)
    → any_of p (insert_sorted s ts) ≡ (p s || any_of p ts)
unfolding insert_sorted
any_of-insert_sorted p s [] = ground arith
any_of-insert_sorted p s (t ∷ ts) = ground (arith, any_of-insert_sorted p s ts)

any_of-sorted :
    (p : TelegramBackupSegment → Bool) (ts : List TelegramBackupSegment)
    → any_of p (sorted ts) ≡ any_of p ts
unfolding sorted
any_of-sorted p [] = refl
any_of-sorted p (t ∷ ts) = ground (arith, any_of-insert_sorted p t (sorted ts), any_of-sorted p ts)

same_range_comm : (s t : TelegramBackupSegment) → same_range s t ≡ same_range t s
unfolding same_range
same_range_comm s t = ground arith

same_range_of :
    (s t u : TelegramBackupSegment) → same_range s t ≡ true → same_range s u ≡ same_range t u
unfolding same_range
same_range_of s t u e = ground arith

-- Segments of one range are told from the others by it.
same_range_trans :
    (s t : TelegramBackupSegment) (ts : List TelegramBackupSegment)
    → same_range s t ≡ true
    → any_of (same_range s) ts ≡ any_of (same_range t) ts
same_range_trans s t [] e = refl
same_range_trans s t (u ∷ ts) e = ground (arith, same_range_of s t u e, same_range_trans s t ts e)

covers-replaced :
    (s t u : TelegramBackupSegment)
    → covers s t ≡ true
    → same_range u t ≡ true
    → covers s (if ltb t.message_id u.message_id then u else t) ≡ true
unfolding same_range
covers-replaced s t u h k = ground arith

covers-keep_newest :
    (s u : TelegramBackupSegment) (kept : List TelegramBackupSegment)
    → any_of (covers s) kept ≡ true
    → any_of (covers s) (keep_newest u kept) ≡ true
unfolding keep_newest
covers-keep_newest s u [] h = ground arith
covers-keep_newest s u (t ∷ kept) h =
    ground (arith, covers-keep_newest s u kept, covers-replaced s t u)

covers-keep_newest_self :
    (s : TelegramBackupSegment) (kept : List TelegramBackupSegment)
    → any_of (covers s) (keep_newest s kept) ≡ true
unfolding keep_newest same_range
covers-keep_newest_self s [] = ground arith
covers-keep_newest_self s (t ∷ kept) = ground (arith, covers-keep_newest_self s kept)

covers-newest_from :
    (s : TelegramBackupSegment) (segments kept : List TelegramBackupSegment)
    → any_of (covers s) kept ≡ true
    → any_of (covers s) (newest_from segments kept) ≡ true
unfolding newest_from
covers-newest_from s [] kept h = h
covers-newest_from s (t ∷ segments) kept h =
    covers-newest_from s segments (keep_newest t kept) (covers-keep_newest s t kept h)

covers-newest_from_self :
    (s : TelegramBackupSegment) (before after kept : List TelegramBackupSegment)
    → any_of (covers s) (newest_from (before ++ s ∷ after) kept) ≡ true
unfolding newest_from
covers-newest_from_self s [] after kept =
    covers-newest_from s after (keep_newest s kept) (covers-keep_newest_self s kept)
covers-newest_from_self s (t ∷ before) after kept =
    covers-newest_from_self s before after (keep_newest t kept)

-- Before by owner, then by first and then by last operation.
abbrev pub IsBefore : TelegramBackupSegment → TelegramBackupSegment → Type 0
IsBefore s t =
    (s.source_owner_user_id ≤ t.source_owner_user_id)
    × (s.source_owner_user_id ≡ t.source_owner_user_id
        → (s.first_operation_id ≤ t.first_operation_id)
          × (s.first_operation_id ≡ t.first_operation_id
              → s.last_operation_id < t.last_operation_id))

abbrev pub FollowAll : TelegramBackupSegment → List TelegramBackupSegment → Type 0
FollowAll s [] = Unit {0}
FollowAll s (t ∷ ts) = IsBefore s t × FollowAll t ts

-- Each segment is before the next: no two have one range.
abbrev pub AreOrdered : List TelegramBackupSegment → Type 0
AreOrdered [] = Unit {0}
AreOrdered (s ∷ ss) = FollowAll s ss

abbrev NoTwins : List TelegramBackupSegment → Type 0
NoTwins [] = Unit {0}
NoTwins (s ∷ ss) = (any_of (same_range s) ss ≡ false) × NoTwins ss

fresh-keep_newest :
    (x u : TelegramBackupSegment) (kept : List TelegramBackupSegment)
    → any_of (same_range x) kept ≡ false
    → same_range x u ≡ false
    → any_of (same_range x) (keep_newest u kept) ≡ false
unfolding keep_newest
fresh-keep_newest x u [] h e = ground arith
fresh-keep_newest x u (t ∷ kept) h e = ground (arith, fresh-keep_newest x u kept)

NoTwins-keep_newest :
    (u : TelegramBackupSegment) (kept : List TelegramBackupSegment)
    → NoTwins kept
    → NoTwins (keep_newest u kept)
unfolding keep_newest
NoTwins-keep_newest u [] h = (refl, tt)
NoTwins-keep_newest u (t ∷ kept) h = ground (
  arith,
  NoTwins-keep_newest u kept h.1,
  fresh-keep_newest t u kept h.0,
  same_range_comm u t,
  same_range_trans u t kept,
)

NoTwins-newest_from :
    (segments kept : List TelegramBackupSegment)
    → NoTwins kept
    → NoTwins (newest_from segments kept)
unfolding newest_from
NoTwins-newest_from [] kept h = h
NoTwins-newest_from (s ∷ segments) kept h =
    NoTwins-newest_from segments (keep_newest s kept) (NoTwins-keep_newest s kept h)

insert_sorted-FollowAll :
    (x s : TelegramBackupSegment) (ts : List TelegramBackupSegment)
    → FollowAll x ts
    → IsBefore x s
    → any_of (same_range s) ts ≡ false
    → FollowAll x (insert_sorted s ts)
unfolding insert_sorted same_range range_before
insert_sorted-FollowAll x s [] h b e = (b, tt)
insert_sorted-FollowAll x s (t ∷ ts) h b e = ground (arith, insert_sorted-FollowAll t s ts h.1)

insert_sorted-AreOrdered :
    (s : TelegramBackupSegment) (ts : List TelegramBackupSegment)
    → AreOrdered ts
    → any_of (same_range s) ts ≡ false
    → AreOrdered (insert_sorted s ts)
unfolding insert_sorted same_range range_before
insert_sorted-AreOrdered s [] h e = tt
insert_sorted-AreOrdered s (t ∷ ts) h e = ground (arith, insert_sorted-FollowAll t s ts h)

sorted-AreOrdered : (ts : List TelegramBackupSegment) → NoTwins ts → AreOrdered (sorted ts)
unfolding sorted
sorted-AreOrdered [] h = tt
sorted-AreOrdered (t ∷ ts) h =
    insert_sorted-AreOrdered t (sorted ts) (sorted-AreOrdered ts h.1)
      (any_of-sorted (same_range t) ts ∙ h.0)

-- A test that some of the segments that are kept pass, some of those that are found pass.
kept_from :
    (p : TelegramBackupSegment → Bool) (s : TelegramBackupSegment)
    (kept : List TelegramBackupSegment)
    → p s ≡ false
    → any_of p kept ≡ false
    → any_of p (keep_newest s kept) ≡ false
unfolding keep_newest
kept_from p s [] e h = ground arith
kept_from p s (t ∷ kept) e h = ground (arith, kept_from p s kept e)

newest_from-none :
    (p : TelegramBackupSegment → Bool) (segments kept : List TelegramBackupSegment)
    → any_of p segments ≡ false
    → any_of p kept ≡ false
    → any_of p (newest_from segments kept) ≡ false
unfolding newest_from
newest_from-none p [] kept e h = h
newest_from-none p (s ∷ segments) kept e h =
    newest_from-none p segments (keep_newest s kept) (ground arith)
      (kept_from p s kept (ground arith) h)

abbrev pub is_segment : TelegramBackupSegment → TelegramBackupSegment → Bool
is_segment s t = same_range s t && s.message_id == t.message_id

-- Each of the second list is in the first.
abbrev pub AreFound : List TelegramBackupSegment → List TelegramBackupSegment → Type 0
AreFound segments [] = Unit {0}
AreFound segments (t ∷ ts) = (any_of (is_segment t) segments ≡ true) × AreFound segments ts

is_segment_self : (s : TelegramBackupSegment) → is_segment s s ≡ true
unfolding same_range
is_segment_self s = ground arith

AreFound-none :
    (segments ts : List TelegramBackupSegment)
    → ((p : TelegramBackupSegment → Bool) → any_of p segments ≡ false → any_of p ts ≡ false)
    → AreFound segments ts
AreFound-none segments [] h = tt
AreFound-none segments (t ∷ ts) h = (here, AreFound-none segments ts λ p e. rest p (h p e))
  where
    here : any_of (is_segment t) segments ≡ true
    here = elim (Bool-cases (any_of (is_segment t) segments)) [
      | inl e ↦ e
      | inr e ↦ ground (arith, h (is_segment t) e, is_segment_self t)
    ]

    rest : (p : TelegramBackupSegment → Bool) → any_of p (t ∷ ts) ≡ false → any_of p ts ≡ false
    rest p e = ground (arith, e)

-- The segments that are kept are in the order of owner, first and last operation, so that no two have one
-- range, each of them is one of those found, and each one found, in any order, has one among them with its
-- owner and range of operations and a message id that is not lower.
pub dedupe_segments-newest :
    (s : TelegramBackupSegment) (before after : List TelegramBackupSegment)
    → AreOrdered (dedupe_segments (before ++ s ∷ after))
      × (AreFound (before ++ s ∷ after) (dedupe_segments (before ++ s ∷ after))
          × (any_of (covers s) (dedupe_segments (before ++ s ∷ after)) ≡ true))
unfolding dedupe_segments
dedupe_segments-newest s before after =
    let segments = before ++ s ∷ after in
    (
      sorted-AreOrdered (newest_from segments []) (NoTwins-newest_from segments [] tt),
      (
        AreFound-none segments (sorted (newest_from segments [])) λ p e.
            any_of-sorted p (newest_from segments []) ∙ newest_from-none p segments [] e refl,
        any_of-sorted (covers s) (newest_from segments [])
            ∙ covers-newest_from_self s before after [],
      ),
    )
