-- ===== src/Cache/Contents.antt =====
-- The items of lcloud/cache.py after a removal, and what `get` returns.
use lcloud.Base.{
  ℕ, String, ◌≡◌, refl, Bool, true, false, Option, none, some, List, [], ◌∷◌, arith, if◌then◌else◌,
  str_eq, eq_iff, ltb, Option-cases, inl, inr, any_of, starts_with,
}
use lcloud.Base.Assoc.{lookup}
use lcloud.Cache.Entries.{Entry, Items, remove, keys_if}
use lcloud.Cache.Entries.Laws.{Distinct, lookup-remove}
use lcloud.Cache.Accounting.{IsAccounted, remove_locked-IsAccounted}
use lcloud.Cache.{
  Reason, TtlCache, account_remove, pop_found, note_removal, remove_locked, get_enabled, get,
  delete_key, remove_all, delete_prefix, delete_namespace,
}

module _ {V : Type 0} where
  items-note_removal : (reason : Reason) (c : TtlCache V) → (note_removal reason c).items ≡ c.items
  unfolding note_removal
  items-note_removal Reason.evict c = refl
  items-note_removal Reason.expired c = refl
  items-note_removal Reason.delete c = refl

  pub items-remove_locked :
      (k : String) (reason : Reason) (c : TtlCache V) (e : Entry V)
      → lookup k c.items ≡ some e
      → (remove_locked k reason c).1.items ≡ remove k c.items
  unfolding remove_locked pop_found account_remove
  items-remove_locked k reason c e found =
      rw (found, remove_locked) (items-note_removal reason (pop_found k (some e) c))

  -- Removing a key takes away its item, and no other.
  pub lookup-remove_locked :
      (k j : String) (reason : Reason) (c : TtlCache V)
      → Distinct c.items
      → lookup j (remove_locked k reason c).1.items
        ≡ (if str_eq k j then none else lookup j c.items)
  lookup-remove_locked k j reason c d = elim (Option-cases (lookup k c.items)) [
    | inl gone ↦ unfold remove_locked in rw (gone, remove_locked) (ground (arith, eq_iff k j))
    | inr (e, found) ↦ rw (items-remove_locked k reason c e found) (lookup-remove k j c.items d)
  ]

  pub lookup-remove_all :
      (keys : List String) (j : String) (reason : Reason) (c : TtlCache V)
      → IsAccounted c
      → lookup j (remove_all keys reason c).items
        ≡ (if any_of (λ k. str_eq k j) keys then none else lookup j c.items)
  unfolding remove_all
  lookup-remove_all [] j reason c a = refl
  lookup-remove_all (k ∷ keys) j reason c a = ground (
    arith,
    lookup-remove_all keys j reason (remove_locked k reason c).1
        (remove_locked-IsAccounted k reason c a),
    lookup-remove_locked k j reason c a.distinct,
  )

  keys_if-none :
      (p : String → Entry V → Bool) (j : String) (m : Items V)
      → lookup j m ≡ none
      → any_of (λ k. str_eq k j) (keys_if p m) ≡ false
  unfolding lookup keys_if
  keys_if-none p j [] h = refl
  keys_if-none p j ((k, e) ∷ m) h = ground (arith, keys_if-none p j m)

  -- The keys that a test selects are those of the items that pass it.
  keys_if-some :
      (p : String → Entry V → Bool) (j : String) (e : Entry V) (m : Items V)
      → Distinct m
      → lookup j m ≡ some e
      → any_of (λ k. str_eq k j) (keys_if p m) ≡ p j e
  unfolding lookup keys_if
  keys_if-some p j e [] d h = cc
  keys_if-some p j e ((k, x) ∷ m) d h =
      ground (arith, keys_if-some p j e m d.1, keys_if-none p j m, eq_iff k j)

  -- The entry of a key, unless it passes the test.
  abbrev pub unless : (Entry V → Bool) → Option (Entry V) → Option (Entry V)
  unless p none = none
  unless p (some e) = if p e then none else some e

  remove_all-keys_if :
      (p : String → Entry V → Bool) (j : String) (reason : Reason) (c : TtlCache V)
      → IsAccounted c
      → lookup j (remove_all (keys_if p c.items) reason c).items ≡ unless (p j) (lookup j c.items)
  remove_all-keys_if p j reason c a = elim (Option-cases (lookup j c.items)) [
    | inl gone ↦ rw (lookup-remove_all (keys_if p c.items) j reason c a, gone) (ground arith)
    | inr (e, found) ↦
        rw (lookup-remove_all (keys_if p c.items) j reason c a)
          (ground (arith, keys_if-some p j e c.items a.distinct found))
  ]

  -- In a cache whose keys are distinct and whose counters are right, `delete_prefix` removes the items
  -- whose keys start with the text, and leaves every other.
  pub lookup-delete_prefix :
      (prefix j : String) (c : TtlCache V)
      → IsAccounted c
      → lookup j (delete_prefix prefix c).1.items
        ≡ (if starts_with j prefix then none else lookup j c.items)
  unfolding delete_prefix
  lookup-delete_prefix prefix j c a =
      rw (remove_all-keys_if (λ key e. starts_with key prefix) j Reason.delete c a) (ground arith)

  -- In a cache whose keys are distinct and whose counters are right, `delete_namespace` removes the
  -- items of the namespace, and leaves every other.
  pub lookup-delete_namespace :
      (ns j : String) (c : TtlCache V)
      → IsAccounted c
      → lookup j (delete_namespace ns c).1.items
        ≡ unless (λ e. str_eq e.namespace ns) (lookup j c.items)
  unfolding delete_namespace
  lookup-delete_namespace ns j c a =
      remove_all-keys_if (λ key e. str_eq e.namespace ns) j Reason.delete c a

  pub lookup-delete_key :
      (k j : String) (c : TtlCache V)
      → IsAccounted c
      → lookup j (delete_key k c).items ≡ (if str_eq k j then none else lookup j c.items)
  unfolding delete_key
  lookup-delete_key k j c a = ground (arith, lookup-remove_locked k j Reason.delete c a.distinct)

  abbrev pub fresh_value : ℕ → Option (Entry V) → Option V
  fresh_value now none = none
  fresh_value now (some e) = if ltb e.expires_at now then none else some e.value

  get_enabled-value :
      (key : String) (now : ℕ) (o : Option (Entry V)) (c : TtlCache V)
      → (get_enabled key now o c).0 ≡ fresh_value now o
  unfolding get_enabled
  get_enabled-value key now none c = refl
  get_enabled-value key now (some e) c = ground arith

  -- `get` of an enabled cache returns the value of the key's entry, if there is one that has not
  -- expired at `now`, and nothing otherwise.
  pub get-value :
      (key : String) (now : ℕ) (c : TtlCache V)
      → c.enabled ≡ true
      → (get key now c).0 ≡ fresh_value now (lookup key c.items)
  unfolding get
  get-value key now c on = ground (arith, get_enabled-value key now (lookup key c.items) c)
