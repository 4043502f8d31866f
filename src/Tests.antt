-- ===== src/Tests.antt =====
-- Runs at fixed inputs.
pub mod Documents
pub mod Backup
pub mod Accounts
pub mod Mtproto
pub mod Lists
pub mod Storage
use lcloud.Base.{
  ◌||◌, any_of, ◌++◌, ℕ, ◌+◌, ◌-◌, ◌*◌, ◌≤◌, String, ◌≡◌, ◌≢◌, refl, Bool, true, false, Option,
  none, some, List, [], ◌∷◌, arith, length, ltb, str_eq, if◌then◌else◌, starts_with, eq_iff,
}
use lcloud.Base.Assoc
use lcloud.Base.Text.{len}
use mathlib.Core.Bool.{false≢true}
use lcloud.RateLimiter.{Bucket, RateLimiter, try_acquire}
use lcloud.RateLimiter.Bounds.{passed, passed_window, try_acquire_after_refill}
use lcloud.Cache
use lcloud.Cache.{TtlCache, create, delete_prefix, delete_namespace}
use lcloud.Cache.Accounting.{IsAccounted}
use lcloud.Cache.Calls.{Call, run, run-IsAccounted}
use lcloud.Cache.Contents.{unless, fresh_value, lookup-delete_prefix, lookup-delete_namespace}
use lcloud.Cache.Limits.{set-WithinLimits}
use lcloud.Cache.Retention.{get-set_self}
use lcloud.Restore.Segments.{TelegramBackupSegment, dedupe_segments}
use lcloud.Restore.Segments.Newest.{covers, AreOrdered, AreFound, dedupe_segments-newest}
use lcloud.Cache.Keys.{k_json_document, list_prefix, query_prefix}
use lcloud.Cache.Invalidators.{invalidate_json_document}
use lcloud.Cache.Invalidators.Laws.{page, key_of, is_stale, lookup-invalidate_json_document}
use lcloud.Json
use lcloud.Json.{Fields, end, field, str, bool, update}
use lcloud.Json.Laws.{or_else, lookup_last, lookup-update}

-- Three calls of one token in two ticks, at two tokens for each ten ticks.
abbrev limiter : RateLimiter
limiter = record { capacity = 2; refill = 10; buckets = [] }

abbrev three_calls : List (String × ℕ)
three_calls = ("a", 1) ∷ ("b", 1) ∷ ("a", 2) ∷ ("a", 3) ∷ []

passed_test : passed "a" three_calls limiter ≡ 2
unfolding passed try_acquire lcloud.RateLimiter.level Assoc.lookup Assoc.insert
passed_test = refl

passed_window_example : passed "a" three_calls limiter * 10 ≤ (2 * 10) + (3 - 1) * 2
unfolding Assoc.lookup
passed_window_example =
    passed_window "a" three_calls 1 3 limiter tt
      (omega arith, (omega arith, (omega arith, (omega arith, omega arith))))

abbrev used_limiter : RateLimiter
used_limiter = record {
  capacity = 2;
  refill = 10;
  buckets = ("a", record { tokens = 0; last = 5 }) ∷ ("b", record { tokens = 1; last = 4 }) ∷ [];
}

b≢a : ◌≢◌ {A = String} "b" "a"
b≢a e = false≢true ((eq_iff "b" "a").1 e)

idle_bucket : (b : Bucket) → Assoc.lookup "b" used_limiter.buckets ≡ some b → b.last + 10 ≤ 15
unfolding Assoc.lookup
idle_bucket b h = ground arith

try_acquire_after_refill_example : (try_acquire "b" 2 15 used_limiter).0 ≡ true
try_acquire_after_refill_example =
    try_acquire_after_refill "b" 2 15 used_limiter (omega arith) idle_bucket

-- A cache of at most two entries, and the writes of three.
abbrev writes : List (Call ℕ)
writes =
    Call.set "json_doc:1:a" 10 4 none none 0
    ∷ Call.set "json_list:1:20:0" 20 4 (some 3) none 0
    ∷ Call.get "json_doc:1:a" 1
    ∷ Call.set "json_doc:2:b" 30 4 none (some "json_doc") 2
    ∷ []

abbrev cache : TtlCache ℕ
cache = run writes (create {V = ℕ} 5 2 100 true)

cache_test : (cache.evictions ≡ 1) × (length cache.items ≡ 2)
unfolding run Cache.get Cache.get_enabled Cache.set Cache.evict_locked Cache.evict_rounds
    Cache.put_entry Cache.remove_locked Cache.pop_found Cache.account_remove Cache.account_add
    Cache.is_over Cache.note_removal Assoc.lookup Assoc.insert lcloud.Cache.Entries.first_key len
    lcloud.Cache.Entries.remove
cache_test = (refl, refl)

cache_settings :
    (cache.enabled ≡ true)
    × (cache.max_entries ≡ 2)
    × (cache.max_bytes ≡ 100)
    × (cache.default_ttl ≡ 5)
unfolding run Cache.get Cache.get_enabled Cache.set Cache.evict_locked Cache.evict_rounds
    Cache.put_entry Cache.remove_locked Cache.pop_found Cache.account_remove Cache.account_add
    Cache.is_over Cache.note_removal Assoc.lookup Assoc.insert lcloud.Cache.Entries.first_key len
    lcloud.Cache.Entries.remove
cache_settings = (refl, refl, refl, refl)

fits : 20 + len "json_doc:3:c" ≤ cache.max_bytes
unfolding len
fits = omega (arith, cache_settings)

run-IsAccounted_example : IsAccounted (run writes (create {V = ℕ} 5 2 100 true))
run-IsAccounted_example = run-IsAccounted writes 5 2 100 true

cache-IsAccounted : IsAccounted cache
cache-IsAccounted = run-IsAccounted writes 5 2 100 true

set-WithinLimits_example :
    let c = Cache.set "json_doc:3:c" 50 20 none none 4 cache in
    (length c.items ≤ cache.max_entries) × (c.bytes ≤ cache.max_bytes)
set-WithinLimits_example =
    set-WithinLimits "json_doc:3:c" 50 20 none none 4 cache cache-IsAccounted
      (ground (arith, cache_settings))

get-set_self_example :
    (Cache.get "json_doc:3:c" 9 (Cache.set "json_doc:3:c" 50 20 (some 5) none 4 cache)).0
    ≡ (if ltb (4 + 5) 9 then none else some 50)
get-set_self_example =
    get-set_self "json_doc:3:c" 50 20 5 none 4 9 cache cache-IsAccounted cache_settings.0
      (omega arith) (omega (arith, cache_settings)) fits

lookup-delete_prefix_example :
    Assoc.lookup "json_list:1:20:0" (delete_prefix "json_doc:" cache).1.items ≡ (
      if starts_with "json_list:1:20:0" "json_doc:"
      then none
      else Assoc.lookup "json_list:1:20:0" cache.items)
lookup-delete_prefix_example =
    lookup-delete_prefix "json_doc:" "json_list:1:20:0" cache cache-IsAccounted

lookup-delete_namespace_example :
    Assoc.lookup "json_doc:2:b" (delete_namespace "json_doc" cache).1.items
    ≡ unless (λ e. str_eq e.namespace "json_doc") (Assoc.lookup "json_doc:2:b" cache.items)
lookup-delete_namespace_example =
    lookup-delete_namespace "json_doc" "json_doc:2:b" cache cache-IsAccounted

-- A patch of a document.
abbrev old_fields : Fields
old_fields = field "title" (str "a") (field "done" (bool false) end)

update_test :
    Json.lookup "done" (update old_fields (field "done" (bool true) end))
    ≡ or_else (lookup_last "done" (field "done" (bool true) end)) (Json.lookup "done" old_fields)
update_test = lookup-update "done" old_fields (field "done" (bool true) end)

-- Two uploads of one range of operations.
abbrev first_upload : TelegramBackupSegment
first_upload = record {
  message_id = 5;
  source_owner_user_id = 9;
  first_operation_id = 1;
  last_operation_id = 40;
}

abbrev second_upload : TelegramBackupSegment
second_upload = record first_upload { message_id = 8 }

abbrev later_range : TelegramBackupSegment
later_range = record first_upload {
  message_id = 6;
  first_operation_id = 41;
  last_operation_id = 50;
}

dedupe_test :
    dedupe_segments (later_range ∷ second_upload ∷ first_upload ∷ [])
    ≡ second_upload ∷ later_range ∷ []
unfolding dedupe_segments
dedupe_test = refl

abbrev found_segments : List TelegramBackupSegment
found_segments = (later_range ∷ second_upload ∷ []) ++ first_upload ∷ []

dedupe_segments-newest_example :
    AreOrdered (dedupe_segments found_segments)
    × (AreFound found_segments (dedupe_segments found_segments)
        × (any_of (covers first_upload) (dedupe_segments found_segments) ≡ true))
dedupe_segments-newest_example =
    dedupe_segments-newest first_upload (later_range ∷ second_upload ∷ []) []

lookup-invalidate_json_document_example :
    Assoc.lookup (key_of (page 1 20 0)) (invalidate_json_document 1 "a" cache).items ≡ (
      if is_stale 1 "a" (page 1 20 0)
      then none
      else Assoc.lookup (key_of (page 1 20 0)) cache.items)
lookup-invalidate_json_document_example =
    lookup-invalidate_json_document 1 "a" (page 1 20 0) cache cache-IsAccounted
