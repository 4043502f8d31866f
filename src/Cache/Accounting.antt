-- ===== src/Cache/Accounting.antt =====
-- The counters of lcloud/cache.py and the items that they count.

use lcloud.Base.{
  ℕ, zero, suc, ◌+◌, ◌-◌, String, ◌≡◌, Bool, true, false, Option, none, some, arith, if◌then◌else◌,
  str_eq, eq_iff, Option-cases, inl, inr,
}
use lcloud.Base.Assoc.{Assoc, lookup, lookup-insert}
use lcloud.Cache.Entries.{Entry, first_key}
use lcloud.Cache.Entries.Laws.{
  Distinct, total, total-remove, total-append, remove-Distinct, append-Distinct,
}
use lcloud.Cache.{
  Reason, TtlCache, count_at, add_at, sub_at, account_remove, pop_found, note_removal,
  remove_locked, is_over, evict_rounds, put_entry,
}

count_at-add_at :
    (k j : String) (n : ℕ) (d : Assoc ℕ)
    → count_at j (add_at k n d) ≡ (if str_eq k j then count_at j d + n else count_at j d)
unfolding count_at add_at
count_at-add_at k j n d = ground (arith, lookup-insert k j (count_at k d + n) d, eq_iff k j)

count_at-sub_at :
    (k j : String) (n : ℕ) (d : Assoc ℕ)
    → count_at j (sub_at k n d) ≡ (if str_eq k j then count_at j d - n else count_at j d)
unfolding count_at sub_at
count_at-sub_at k j n d = ground (arith, lookup-insert k j (count_at k d - n) d, eq_iff k j)

module _ {V : Type 0} where
  abbrev pub size_of : Entry V → ℕ
  size_of e = e.size_bytes

  abbrev pub one_in : String → Entry V → ℕ
  one_in ns e = if str_eq e.namespace ns then 1 else 0

  abbrev pub bytes_in : String → Entry V → ℕ
  bytes_in ns e = if str_eq e.namespace ns then e.size_bytes else 0

  -- Every key is there once, and each counter is the total over the items that it stands for.
  pub record IsAccounted (c : TtlCache V) : Type 0 where
    pub distinct : Distinct c.items
    pub bytes : c.bytes ≡ total size_of c.items
    pub entries_in : (ns : String) → count_at ns c.namespace_entries ≡ total (one_in ns) c.items
    pub size_in : (ns : String) → count_at ns c.namespace_bytes ≡ total (bytes_in ns) c.items

  pop_found-IsAccounted :
      (key : String) (e : Entry V) (c : TtlCache V)
      → lookup key c.items ≡ some e
      → IsAccounted c
      → IsAccounted (pop_found key (some e) c)
  unfolding pop_found account_remove
  pop_found-IsAccounted key e c h a = record {
    distinct = remove-Distinct key c.items a.distinct;
    bytes = omega (arith, a.bytes, total-remove size_of key e c.items h);
    entries_in = λ ns.
        rw count_at-sub_at
          (ground (arith, a.entries_in ns, total-remove (one_in ns) key e c.items h));
    size_in = λ ns.
        rw count_at-sub_at
          (ground (arith, a.size_in ns, total-remove (bytes_in ns) key e c.items h));
  }

  pub put_entry-IsAccounted :
      (key : String) (e : Entry V) (c : TtlCache V)
      → lookup key c.items ≡ none
      → IsAccounted c
      → IsAccounted (put_entry key e c)
  unfolding put_entry
  put_entry-IsAccounted key e c h a = record {
    distinct = append-Distinct key e c.items h a.distinct;
    bytes = omega (arith, a.bytes, total-append size_of key e c.items);
    entries_in = λ ns.
        rw count_at-add_at
          (ground (arith, a.entries_in ns, total-append (one_in ns) key e c.items));
    size_in = λ ns.
        rw count_at-add_at (ground (arith, a.size_in ns, total-append (bytes_in ns) key e c.items));
  }

  note-IsAccounted :
      (reason : Reason) (c : TtlCache V) → IsAccounted c → IsAccounted (note_removal reason c)
  unfolding note_removal
  note-IsAccounted Reason.evict c a = ground arith
  note-IsAccounted Reason.expired c a = ground arith
  note-IsAccounted Reason.delete c a = a

  pub if-IsAccounted :
      (b : Bool) (c d : TtlCache V)
      → IsAccounted c
      → IsAccounted d
      → IsAccounted (if b then c else d)
  if-IsAccounted true c d p q = p
  if-IsAccounted false c d p q = q

  pub remove_locked-IsAccounted :
      (key : String) (reason : Reason) (c : TtlCache V)
      → IsAccounted c
      → IsAccounted (remove_locked key reason c).1
  unfolding remove_locked
  remove_locked-IsAccounted key reason c a = elim (Option-cases (lookup key c.items)) [
    | inl gone ↦ rw (gone, remove_locked) a
    | inr (e, found) ↦
        rw (found, remove_locked)
          (note-IsAccounted reason (pop_found key (some e) c)
            (pop_found-IsAccounted key e c found a))
  ]

  pub evict_rounds-IsAccounted :
      (rounds : ℕ) (c : TtlCache V) → IsAccounted c → IsAccounted (evict_rounds rounds c)
  unfolding evict_rounds
  evict_rounds-IsAccounted zero c a = a
  evict_rounds-IsAccounted (suc rounds) c a = elim (Option-cases (first_key c.items)) [
    | inl empty ↦ rw (empty, evict_rounds) a
    | inr (key, first) ↦
        rw (first, evict_rounds)
          (if-IsAccounted (is_over c) _ c
            (evict_rounds-IsAccounted rounds (remove_locked key Reason.evict c).1
              (remove_locked-IsAccounted key Reason.evict c a))
            a)
  ]

  pub pop-IsAccounted :
      (key : String) (o : Option (Entry V)) (c : TtlCache V)
      → lookup key c.items ≡ o
      → IsAccounted c
      → IsAccounted (pop_found key o c)
  pop-IsAccounted key none c h a = unfold pop_found in a
  pop-IsAccounted key (some e) c h a = pop_found-IsAccounted key e c h a
