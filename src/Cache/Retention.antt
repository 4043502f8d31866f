-- ===== src/Cache/Retention.antt =====
-- `set` of lcloud/cache.py, and `get` after it.
use mathlib.Core.Path.{subst}
use lcloud.Base.{
  ℕ, zero, suc, ◌+◌, ◌≤◌, String, ◌≡◌, refl, ap, ◌∙◌, true, false, Option, none, some, [], ◌∷◌,
  ◌++◌, arith, if◌then◌else◌, if-intro, str_eq_refl, eq_iff, ltb, length, Option-cases, inl, inr,
}
use lcloud.Base.Assoc.{lookup}
use lcloud.Cache.Entries.{Entry, Items, remove, first_key}
use lcloud.Cache.Entries.Laws.{Distinct, total}
use lcloud.Base.Text.{len}
use lcloud.Cache.Accounting.{
  IsAccounted, size_of, remove_locked-IsAccounted, pop-IsAccounted, put_entry-IsAccounted,
}
use lcloud.Cache.Methods.{pop-gone}
use lcloud.Cache.Contents.{items-remove_locked, fresh_value, get-value}
use lcloud.Cache.Limits.{limits-remove_locked, limits-put_pop}
use lcloud.Cache.{
  Reason, TtlCache, account_remove, pop_found, note_removal, remove_locked, is_over, evict_rounds,
  evict_locked, get, put_entry, skips, new_entry, set,
}

module _ {V : Type 0} where
  first_key-cons : (j : String) (x : Entry V) (m : Items V) → first_key ((j, x) ∷ m) ≡ some j
  unfolding first_key
  first_key-cons j x m = refl

  remove-first : (j : String) (x : Entry V) (m : Items V) → remove j ((j, x) ∷ m) ≡ m
  unfolding remove
  remove-first j x m = rw (str_eq_refl j)

  lookup-first : (j : String) (x : Entry V) (m : Items V) → lookup j ((j, x) ∷ m) ≡ some x
  unfolding lookup
  lookup-first j x m = rw (str_eq_refl j)

  lookup-last :
      (key : String) (e : Entry V) (m : Items V)
      → Distinct (m ++ (key, e) ∷ [])
      → lookup key (m ++ (key, e) ∷ []) ≡ some e
  unfolding lookup
  lookup-last key e [] d = rw (str_eq_refl key)
  lookup-last key e ((j, x) ∷ m) d = ground (arith, lookup-last key e m d.1, eq_iff j key)

  lookup-last_of :
      (key : String) (e : Entry V) (m : Items V) (c : TtlCache V)
      → c.items ≡ m ++ (key, e) ∷ []
      → IsAccounted c
      → lookup key c.items ≡ some e
  lookup-last_of key e m c h a =
      ap (lookup key) h ∙ lookup-last key e m (subst Distinct h a.distinct)

  -- An entry that fits is not over the limits where it is alone.
  alone-fits :
      (key : String) (e : Entry V) (c : TtlCache V)
      → c.items ≡ (key, e) ∷ []
      → IsAccounted c
      → 1 ≤ c.max_entries
      → e.size_bytes ≤ c.max_bytes
      → is_over c ≡ true
      → ⊥
  unfolding is_over
  alone-fits key e c h a n s over = ground (arith, ap length h, ap (total size_of) h, a.bytes)

  -- The last item, if it fits, is still there after an eviction.
  pub lookup-evict_rounds_last :
      (rounds : ℕ) (m : Items V) (key : String) (e : Entry V) (c : TtlCache V)
      → c.items ≡ m ++ (key, e) ∷ []
      → IsAccounted c
      → 1 ≤ c.max_entries
      → e.size_bytes ≤ c.max_bytes
      → lookup key (evict_rounds rounds c).items ≡ some e
  unfolding evict_rounds
  lookup-evict_rounds_last zero m key e c h a n s = lookup-last_of key e m c h a
  lookup-evict_rounds_last (suc rounds) [] key e c h a n s =
      rw (ap first_key h ∙ first_key-cons key e [], evict_rounds)
        (if-intro (λ (d : TtlCache V). lookup key d.items ≡ some e) (is_over c) _ _
          (λ over. absurd (alone-fits key e c h a n s over))
          (λ fits. lookup-last_of key e [] c h a))
  lookup-evict_rounds_last (suc rounds) ((j, x) ∷ m) key e c h a n s =
      let found = ap (lookup j) h ∙ lookup-first j x (m ++ (key, e) ∷ []) in
      let c' : TtlCache V = (remove_locked j Reason.evict c).1 in
      rw (ap first_key h ∙ first_key-cons j x (m ++ (key, e) ∷ []), evict_rounds)
        (if-intro (λ (d : TtlCache V). lookup key d.items ≡ some e) (is_over c) _ _
          (λ over.
            lookup-evict_rounds_last rounds m key e c'
              (items-remove_locked j Reason.evict c x found
                ∙ ap (remove j) h
                ∙ remove-first j x (m ++ (key, e) ∷ []))
              (remove_locked-IsAccounted j Reason.evict c a)
              (omega (arith, limits-remove_locked j Reason.evict c))
              (omega (arith, limits-remove_locked j Reason.evict c)))
          (λ fits. lookup-last_of key e ((j, x) ∷ m) c h a))

  items-put_entry :
      (key : String) (e : Entry V) (c : TtlCache V)
      → (put_entry key e c).items ≡ c.items ++ (key, e) ∷ []
  unfolding put_entry
  items-put_entry key e c = refl

  -- What a write stores is there after it, if it fits into the cache on its own.
  pub lookup-set_self :
      (key : String) (v : V) (size : ℕ) (ttl : Option ℕ) (ns : Option String) (now : ℕ)
      (c : TtlCache V)
      → IsAccounted c
      → skips ttl c ≡ false
      → 1 ≤ c.max_entries
      → size + len key ≤ c.max_bytes
      → lookup key (set key v size ttl ns now c).items ≡ some (new_entry key v size ttl ns now c)
  unfolding set evict_locked
  lookup-set_self key v size ttl ns now c a go n s =
      let e : Entry V = new_entry key v size ttl ns now c in
      let d : TtlCache V = pop_found key (lookup key c.items) c in
      rw go (
        lookup-evict_rounds_last _ d.items key e (put_entry key e d) (items-put_entry key e d)
          (put_entry-IsAccounted key e d (pop-gone key (lookup key c.items) c refl a.distinct)
            (pop-IsAccounted key (lookup key c.items) c refl a))
          (omega (arith, limits-put_pop key e (lookup key c.items) c))
          (omega (arith, limits-put_pop key e (lookup key c.items) c)))

  enabled-remove_locked :
      (k : String) (reason : Reason) (c : TtlCache V)
      → (remove_locked k reason c).1.enabled ≡ c.enabled
  unfolding remove_locked pop_found account_remove note_removal
  enabled-remove_locked k Reason.evict c = ground arith
  enabled-remove_locked k Reason.expired c = ground arith
  enabled-remove_locked k Reason.delete c = ground arith

  enabled-evict_rounds : (rounds : ℕ) (c : TtlCache V) → (evict_rounds rounds c).enabled ≡ c.enabled
  unfolding evict_rounds
  enabled-evict_rounds zero c = refl
  enabled-evict_rounds (suc rounds) c = elim (Option-cases (first_key c.items)) [
    | inl empty ↦ rw (empty, evict_rounds) refl
    | inr (key, first) ↦
        rw (first, evict_rounds)
          (if-intro (λ (d : TtlCache V). d.enabled ≡ c.enabled) (is_over c) _ _
            (λ over.
              enabled-evict_rounds rounds (remove_locked key Reason.evict c).1
              ∙ enabled-remove_locked key Reason.evict c)
            (λ fits. refl))
  ]

  enabled-put_pop :
      (key : String) (e : Entry V) (o : Option (Entry V)) (c : TtlCache V)
      → (put_entry key e (pop_found key o c)).enabled ≡ c.enabled
  unfolding put_entry pop_found account_remove
  enabled-put_pop key e none c = refl
  enabled-put_pop key e (some x) c = refl

  pub enabled-set :
      (key : String) (v : V) (size : ℕ) (ttl : Option ℕ) (ns : Option String) (now : ℕ)
      (c : TtlCache V)
      → (set key v size ttl ns now c).enabled ≡ c.enabled
  unfolding set evict_locked
  enabled-set key v size ttl ns now c =
      if-intro (λ (d : TtlCache V). d.enabled ≡ c.enabled) (skips ttl c) _ _ (λ skip. refl)
        (λ go. enabled-evict_rounds _ _ ∙ enabled-put_pop key _ (lookup key c.items) c)

  -- In an enabled cache whose keys are distinct and whose counters are right, after a write of a value that fits into it on its own and with a time to live above
  -- 0, a `get` of its key returns the value until that time has passed, and nothing after.
  pub get-set_self :
      (key : String) (v : V) (size ttl : ℕ) (ns : Option String) (now later : ℕ) (c : TtlCache V)
      → IsAccounted c
      → c.enabled ≡ true
      → 1 ≤ ttl
      → 1 ≤ c.max_entries
      → size + len key ≤ c.max_bytes
      → (get key later (set key v size (some ttl) ns now c)).0
        ≡ (if ltb (now + ttl) later then none else some v)
  get-set_self key v size ttl ns now later c a on p n s =
      let go : skips (some ttl) c ≡ false = ground arith in
      get-value key later (set key v size (some ttl) ns now c)
        (enabled-set key v size (some ttl) ns now c ∙ on)
      ∙ ap (fresh_value later) (lookup-set_self key v size (some ttl) ns now c a go n s)
