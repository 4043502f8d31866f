-- ===== src/Cache/Limits.antt =====
-- The eviction of lcloud/cache.py.

use lcloud.Base.{
  ℕ, zero, suc, ◌≤◌, String, ◌≡◌, refl, ap, false, Option, none, some, [], ◌∷◌, arith, if-intro,
  eq_iff, length, Option-cases, inl, inr,
}
use lcloud.Base.Assoc.{lookup}
use lcloud.Cache.Entries.{Entry, Items, remove, first_key}
use lcloud.Cache.Entries.Laws.{total}
use lcloud.Cache.Accounting.{
  IsAccounted, size_of, remove_locked-IsAccounted, pop-IsAccounted, put_entry-IsAccounted,
}
use lcloud.Cache.Methods.{pop-gone}
use lcloud.Cache.Contents.{items-remove_locked}
use lcloud.Cache.{
  Reason, TtlCache, account_remove, pop_found, note_removal, remove_locked, is_over, evict_rounds,
  evict_locked, put_entry, skips, new_entry, set,
}

module _ {V : Type 0} where
  abbrev pub WithinLimits : TtlCache V → Type 0
  WithinLimits c = (length c.items ≤ c.max_entries) × (c.bytes ≤ c.max_bytes)

  -- Removing leaves the limits as they are.
  pub limits-remove_locked :
      (k : String) (reason : Reason) (c : TtlCache V)
      → ((remove_locked k reason c).1.max_entries ≡ c.max_entries)
        × ((remove_locked k reason c).1.max_bytes ≡ c.max_bytes)
  unfolding remove_locked pop_found account_remove note_removal
  limits-remove_locked k Reason.evict c = ground arith
  limits-remove_locked k Reason.expired c = ground arith
  limits-remove_locked k Reason.delete c = ground arith

  length-remove :
      (k : String) (e : Entry V) (m : Items V)
      → lookup k m ≡ some e
      → suc (length (remove k m)) ≡ length m
  unfolding lookup remove
  length-remove k e [] h = cc
  length-remove k e ((j, x) ∷ m) h = ground (arith, length-remove k e m)

  -- The first key is one that is there.
  lookup-first_key :
      (k : String) (m : Items V) → first_key m ≡ some k → (e : Entry V) × (lookup k m ≡ some e)
  unfolding lookup first_key
  lookup-first_key k [] h = cc
  lookup-first_key k ((j, x) ∷ m) h = (x, ground (arith, eq_iff j k))

  first_key-none : (m : Items V) → first_key m ≡ none → m ≡ []
  unfolding first_key
  first_key-none [] h = refl
  first_key-none ((j, x) ∷ m) h = cc

  within_of_not_over : (c : TtlCache V) → is_over c ≡ false → WithinLimits c
  unfolding is_over
  within_of_not_over c h = ground arith

  empty-WithinLimits : (c : TtlCache V) → IsAccounted c → c.items ≡ [] → WithinLimits c
  empty-WithinLimits c a h = omega (arith, ap length h, a.bytes, ap (total size_of) h)

  empty_of_length : (m : Items V) → length m ≤ 0 → total size_of m ≡ 0
  empty_of_length [] h = refl
  empty_of_length (x ∷ m) h = absurd (omega arith)

  -- As many rounds as there are items bring the cache within its limits.
  pub evict_rounds-WithinLimits :
      (rounds : ℕ) (c : TtlCache V)
      → IsAccounted c
      → length c.items ≤ rounds
      → WithinLimits (evict_rounds rounds c)
  unfolding evict_rounds
  evict_rounds-WithinLimits zero c a h = omega (arith, a.bytes, empty_of_length c.items h)
  evict_rounds-WithinLimits (suc rounds) c a h = elim (Option-cases (first_key c.items)) [
    | inl empty ↦ rw (empty, evict_rounds) (empty-WithinLimits c a (first_key-none c.items empty))
    | inr (key, first) ↦
        (let (e, found) = lookup-first_key key c.items first in
          rw (first, evict_rounds)
            (if-intro WithinLimits (is_over c) _ _
              (λ over.
                evict_rounds-WithinLimits rounds (remove_locked key Reason.evict c).1
                  (remove_locked-IsAccounted key Reason.evict c a)
                  (omega (
                    arith,
                    ap length (items-remove_locked key Reason.evict c e found),
                    length-remove key e c.items found,
                  )))
              (within_of_not_over c)))
  ]

  abbrev pub SameLimits : TtlCache V → TtlCache V → Type 0
  SameLimits c d = (c.max_entries ≡ d.max_entries) × (c.max_bytes ≡ d.max_bytes)

  limits-evict_rounds : (rounds : ℕ) (c : TtlCache V) → SameLimits (evict_rounds rounds c) c
  unfolding evict_rounds
  limits-evict_rounds zero c = (refl, refl)
  limits-evict_rounds (suc rounds) c = elim (Option-cases (first_key c.items)) [
    | inl empty ↦ rw (empty, evict_rounds) (refl, refl)
    | inr (key, first) ↦
        rw (first, evict_rounds)
          (if-intro (λ d. SameLimits d c) (is_over c) _ _
            (λ over. omega (
              arith,
              limits-evict_rounds rounds (remove_locked key Reason.evict c).1,
              limits-remove_locked key Reason.evict c,
            ))
            (λ fits. (refl, refl)))
  ]

  pub limits-put_pop :
      (key : String) (e : Entry V) (o : Option (Entry V)) (c : TtlCache V)
      → SameLimits (put_entry key e (pop_found key o c)) c
  unfolding put_entry pop_found account_remove
  limits-put_pop key e none c = (refl, refl)
  limits-put_pop key e (some x) c = (refl, refl)

  -- A write to a cache whose keys are distinct and whose counters are right, by a cache that is enabled
  -- with a time to live above 0, leaves the cache within the two limits that it had.
  pub set-WithinLimits :
      (key : String) (v : V) (size : ℕ) (ttl : Option ℕ) (ns : Option String) (now : ℕ)
      (c : TtlCache V)
      → IsAccounted c
      → skips ttl c ≡ false
      → let c' = set key v size ttl ns now c in
        (length c'.items ≤ c.max_entries) × (c'.bytes ≤ c.max_bytes)
  unfolding set evict_locked
  set-WithinLimits key v size ttl ns now c a go =
      let e : Entry V = new_entry key v size ttl ns now c in
      let d : TtlCache V = put_entry key e (pop_found key (lookup key c.items) c) in
      rw go (
        omega (
          arith,
          evict_rounds-WithinLimits (length d.items) d
              (put_entry-IsAccounted key e (pop_found key (lookup key c.items) c)
                (pop-gone key (lookup key c.items) c refl a.distinct)
                (pop-IsAccounted key (lookup key c.items) c refl a))
              (omega arith),
          limits-evict_rounds (length d.items) d,
          limits-put_pop key e (lookup key c.items) c,
        ))
