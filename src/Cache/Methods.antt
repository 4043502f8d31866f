-- ===== src/Cache/Methods.antt =====
-- The methods of lcloud/cache.py and its counters.
use mathlib.Core.Path.{subst}
use lcloud.Base.{
  ℕ, String, ◌≡◌, refl, sym, ap, ◌∙◌, str_eq_refl, Bool, Option, none, some, List, [], ◌∷◌, ◌++◌,
  arith, if-intro, ltb,
}
use lcloud.Base.Assoc.{lookup}
use lcloud.Cache.Entries.{Entry, remove}
use lcloud.Cache.Entries.Laws.{
  Distinct, total, total-remove, total-append, remove-Distinct, append-Distinct, lookup-remove,
}
use lcloud.Cache.{
  Reason, TtlCache, count_at, account_remove, pop_found, remove_locked, evict_locked, get_enabled,
  get, skips, set, delete_key, remove_all, clear, create,
}
use lcloud.Cache.Accounting.{
  IsAccounted, size_of, one_in, bytes_in, evict_rounds-IsAccounted, if-IsAccounted, pop-IsAccounted,
  put_entry-IsAccounted, remove_locked-IsAccounted,
}

module _ {V : Type 0} where
  get_found-IsAccounted :
      (key : String) (e : Entry V) (c : TtlCache V)
      → lookup key c.items ≡ some e
      → IsAccounted c
      → IsAccounted (record c { items = remove key c.items ++ (key, e) ∷ [] })
  get_found-IsAccounted key e c h a = record {
    distinct =
        append-Distinct key e (remove key c.items)
          (rw (lookup-remove key key c.items a.distinct, str_eq_refl key))
          (remove-Distinct key c.items a.distinct);
    bytes = omega (
      arith,
      a.bytes,
      total-append size_of key e (remove key c.items),
      total-remove size_of key e c.items h,
    );
    entries_in = λ ns. omega (
      arith,
      a.entries_in ns,
      total-append (one_in ns) key e (remove key c.items),
      total-remove (one_in ns) key e c.items h,
    );
    size_in = λ ns. omega (
      arith,
      a.size_in ns,
      total-append (bytes_in ns) key e (remove key c.items),
      total-remove (bytes_in ns) key e c.items h,
    );
  }

  -- Only what the counters of the invariant are about matters to it.
  pub same-IsAccounted :
      (c c' : TtlCache V)
      → c'.items ≡ c.items
      → c'.bytes ≡ c.bytes
      → c'.namespace_entries ≡ c.namespace_entries
      → c'.namespace_bytes ≡ c.namespace_bytes
      → IsAccounted c
      → IsAccounted c'
  same-IsAccounted c c' p q r s a = record {
    distinct = subst Distinct (sym p) a.distinct;
    bytes = q ∙ a.bytes ∙ ap (total size_of) (sym p);
    entries_in = λ ns. ap (count_at ns) r ∙ a.entries_in ns ∙ ap (total (one_in ns)) (sym p);
    size_in = λ ns. ap (count_at ns) s ∙ a.size_in ns ∙ ap (total (bytes_in ns)) (sym p);
  }

  get_enabled-IsAccounted :
      (key : String) (now : ℕ) (c : TtlCache V) (o : Option (Entry V))
      → lookup key c.items ≡ o
      → IsAccounted c
      → IsAccounted (get_enabled key now o c).1
  unfolding get_enabled
  get_enabled-IsAccounted key now c none h a = same-IsAccounted c _ refl refl refl refl a
  get_enabled-IsAccounted key now c (some e) h a =
      if-intro (λ (r : Option V × TtlCache V). IsAccounted r.1) (ltb e.expires_at now) _ _
        (λ late.
          same-IsAccounted (remove_locked key Reason.expired c).1 _ refl refl refl refl
            (remove_locked-IsAccounted key Reason.expired c a))
        (λ fresh.
          same-IsAccounted (record c { items = remove key c.items ++ (key, e) ∷ [] }) _ refl refl
            refl refl (get_found-IsAccounted key e c h a))

  pub get-IsAccounted :
      (key : String) (now : ℕ) (c : TtlCache V) → IsAccounted c → IsAccounted (get key now c).1
  unfolding get
  get-IsAccounted key now c a =
      if-intro (λ (r : Option V × TtlCache V). IsAccounted r.1) c.enabled _ _
        (λ on. get_enabled-IsAccounted key now c (lookup key c.items) refl a)
        (λ off. same-IsAccounted c _ refl refl refl refl a)

  pub pop-gone :
      (key : String) (o : Option (Entry V)) (c : TtlCache V)
      → lookup key c.items ≡ o
      → Distinct c.items
      → lookup key (pop_found key o c).items ≡ none
  unfolding pop_found account_remove
  pop-gone key none c h d = h
  pop-gone key (some e) c h d = rw (lookup-remove key key c.items d, str_eq_refl key)

  pub set-IsAccounted :
      (key : String) (v : V) (size : ℕ) (ttl : Option ℕ) (ns : Option String) (now : ℕ)
      (c : TtlCache V)
      → IsAccounted c
      → IsAccounted (set key v size ttl ns now c)
  unfolding set evict_locked
  set-IsAccounted key v size ttl ns now c a =
      if-intro IsAccounted (skips ttl c) _ _ (λ skip. a)
        λ go. evict_rounds-IsAccounted _ _ (
          put_entry-IsAccounted key _ (pop_found key (lookup key c.items) c)
            (pop-gone key (lookup key c.items) c refl a.distinct)
            (pop-IsAccounted key (lookup key c.items) c refl a))

  pub delete_key-IsAccounted :
      (key : String) (c : TtlCache V) → IsAccounted c → IsAccounted (delete_key key c)
  unfolding delete_key
  delete_key-IsAccounted key c a =
      if-IsAccounted (remove_locked key Reason.delete c).0 _ _
        (same-IsAccounted (remove_locked key Reason.delete c).1 _ refl refl refl refl
          (remove_locked-IsAccounted key Reason.delete c a))
        (remove_locked-IsAccounted key Reason.delete c a)

  pub remove_all-IsAccounted :
      (keys : List String) (reason : Reason) (c : TtlCache V)
      → IsAccounted c
      → IsAccounted (remove_all keys reason c)
  unfolding remove_all
  remove_all-IsAccounted [] reason c a = a
  remove_all-IsAccounted (key ∷ keys) reason c a =
      remove_all-IsAccounted keys reason (remove_locked key reason c).1
        (remove_locked-IsAccounted key reason c a)

  pub clear-IsAccounted : (c : TtlCache V) → IsAccounted (clear c)
  unfolding clear count_at lookup
  clear-IsAccounted c = record {
    distinct = tt;
    bytes = refl;
    entries_in = λ ns. refl;
    size_in = λ ns. refl;
  }

  pub create-IsAccounted :
      (ttl entries bytes : ℕ) (enabled : Bool)
      → IsAccounted (create {V = V} ttl entries bytes enabled)
  unfolding count_at lookup
  create-IsAccounted ttl entries bytes enabled = record {
    distinct = tt;
    bytes = refl;
    entries_in = λ ns. refl;
    size_in = λ ns. refl;
  }
