-- ===== src/Cache.antt =====
-- lcloud/cache.py: `TTLCache`, the in-process cache with expiry and least-recently-used eviction.
--
-- Time is read in ticks of the monotonic clock, and so is a time to live: the code ignores one that is
-- zero or negative, and a negative one is 0 here. `_data` is an `OrderedDict`: the list of its items,
-- the least recently used first. The lock serialises the methods, so each is one step. The size that
-- `_estimate_size` measures on a value's JSON text or `repr` is an argument of `set`.
pub mod Entries
pub mod Keys
pub mod Accounting
pub mod Methods
pub mod Contents
pub mod Limits
pub mod Retention
pub mod Calls
pub mod Invalidators
use lcloud.Base.{
  ℕ, zero, suc, ◌+◌, ◌-◌, String, Bool, true, false, none, some, List, [], ◌∷◌, ◌++◌, ltb, ◌==◌,
  ◌||◌, not, Option, if◌then◌else◌, length, starts_with, str_eq,
}
use lcloud.Base.Assoc.{Assoc, lookup, insert}
use Entries.{Entry, Items, remove, first_key, keys_if}
use lcloud.Base.Text.{len}
use Keys.{namespace_of}

pub data Reason : Type 0 where
  evict expired delete : Reason

-- The fields of the object that its methods read or write.
pub record TtlCache (V : Type 0) : Type 0 where
  pub items : Items V
  pub default_ttl : ℕ
  pub max_entries : ℕ
  pub max_bytes : ℕ
  pub enabled : Bool
  pub bytes : ℕ
  pub hits : ℕ
  pub misses : ℕ
  pub sets : ℕ
  pub deletes : ℕ
  pub evictions : ℕ
  pub expirations : ℕ
  pub namespace_hits : Assoc ℕ
  pub namespace_misses : Assoc ℕ
  pub namespace_entries : Assoc ℕ
  pub namespace_bytes : Assoc ℕ

-- `d[k]` of a `defaultdict(int)`
unfoldable pub count_at : String → Assoc ℕ → ℕ
count_at k d = elim (lookup k d) [ none ↦ 0 | some n ↦ n ]

-- `d[k] += n`
unfoldable pub add_at : String → ℕ → Assoc ℕ → Assoc ℕ
add_at k n d = insert k (count_at k d + n) d

-- `d[k] = max(0, d[k] - n)`
unfoldable pub sub_at : String → ℕ → Assoc ℕ → Assoc ℕ
sub_at k n d = insert k (count_at k d - n) d

-- `__init__`
abbrev pub create : {V : Type 0} → ℕ → ℕ → ℕ → Bool → TtlCache V
create default_ttl max_entries max_bytes enabled = record {
  items = [];
  default_ttl = default_ttl;
  max_entries = max_entries;
  max_bytes = max_bytes;
  enabled = enabled;
  bytes = 0;
  hits = 0;
  misses = 0;
  sets = 0;
  deletes = 0;
  evictions = 0;
  expirations = 0;
  namespace_hits = [];
  namespace_misses = [];
  namespace_entries = [];
  namespace_bytes = [];
}

-- `namespace or _namespace(key)`: an empty text counts as none.
unfoldable pub namespace_or : String → Option String → String
namespace_or key none = namespace_of key
namespace_or key (some ns) = if str_eq ns "" then namespace_of key else ns

abbrev pub given : {A : Type 0} → Option A → A → A
given none old = old
given (some new) old = new

-- `configure` changes the fields that are given, and evicts nothing.
unfoldable pub configure :
    {V : Type 0} → Option Bool → Option ℕ → Option ℕ → Option ℕ → TtlCache V → TtlCache V
configure enabled default_ttl max_entries max_bytes c = record c {
  enabled = given enabled c.enabled;
  default_ttl = given default_ttl c.default_ttl;
  max_entries = given max_entries c.max_entries;
  max_bytes = given max_bytes c.max_bytes;
}

module _ {V : Type 0} where
  unfoldable pub account_add : Entry V → TtlCache V → TtlCache V
  account_add e c = record c {
    bytes = c.bytes + e.size_bytes;
    namespace_entries = add_at e.namespace 1 c.namespace_entries;
    namespace_bytes = add_at e.namespace e.size_bytes c.namespace_bytes;
  }

  unfoldable pub account_remove : Entry V → TtlCache V → TtlCache V
  account_remove e c = record c {
    bytes = c.bytes - e.size_bytes;
    namespace_entries = sub_at e.namespace 1 c.namespace_entries;
    namespace_bytes = sub_at e.namespace e.size_bytes c.namespace_bytes;
  }

  -- `self._data.pop(key, None)` and the accounting of an entry that was there
  unfoldable pub pop_found : String → Option (Entry V) → TtlCache V → TtlCache V
  pop_found key none c = c
  pop_found key (some e) c = account_remove e (record c { items = remove key c.items })

  unfoldable pub note_removal : Reason → TtlCache V → TtlCache V
  note_removal evict c = record c { evictions = c.evictions + 1 }
  note_removal expired c = record c { expirations = c.expirations + 1 }
  note_removal delete c = c

  -- `_remove_locked`, which says whether the key was there
  unfoldable pub remove_locked : String → Reason → TtlCache V → Bool × TtlCache V
  unfolding pop_found note_removal
  remove_locked key reason c = elim (lookup key c.items) [
    | none ↦ (false, c)
    | some e ↦ (true, note_removal reason (pop_found key (some e) c))
  ]

  unfoldable pub is_over : TtlCache V → Bool
  is_over c = ltb c.max_entries (length c.items) || ltb c.max_bytes c.bytes

  -- The loop of `_evict_locked` removes the first key of `_data` while the cache is over a limit. Its
  -- first argument counts the rounds that are left.
  unfoldable pub evict_rounds : ℕ → TtlCache V → TtlCache V
  unfolding is_over
  evict_rounds zero c = c
  evict_rounds (suc rounds) c = elim (first_key c.items) [
    | none ↦ c
    | some key ↦
        (let next = evict_rounds rounds (remove_locked key evict c).1 in
          if is_over c then next else c)
  ]

  unfoldable pub evict_locked : TtlCache V → TtlCache V
  evict_locked c = evict_rounds (length c.items) c

  -- The part of `get` under the lock, for what `self._data.get(key)` found.
  unfoldable pub get_enabled : String → ℕ → Option (Entry V) → TtlCache V → Option V × TtlCache V
  get_enabled key now none c = (
    none,
    record c {
      misses = c.misses + 1;
      namespace_misses = add_at (namespace_of key) 1 c.namespace_misses;
    },
  )
  get_enabled key now (some e) c =
      if ltb e.expires_at now
      then (let (_, c') = remove_locked key expired c in
          (
            none,
            record c' {
              misses = c'.misses + 1;
              namespace_misses = add_at e.namespace 1 c'.namespace_misses;
            },
          ))
      else (
        some e.value,
        record c {
          items = remove key c.items ++ (key, e) ∷ [];
          hits = c.hits + 1;
          namespace_hits = add_at e.namespace 1 c.namespace_hits;
        },
      )

  -- `get`, at the time `now`
  unfoldable pub get : String → ℕ → TtlCache V → Option V × TtlCache V
  get key now c =
      if c.enabled
      then get_enabled key now (lookup key c.items) c
      else (none, record c { misses = c.misses + 1 })

  -- `self._data[key] = entry` for a key that was popped, the accounting and the count of writes
  unfoldable pub put_entry : String → Entry V → TtlCache V → TtlCache V
  unfolding account_add
  put_entry key e c =
      let c' = account_add e (record c { items = c.items ++ (key, e) ∷ [] }) in
      record c' { sets = c'.sets + 1 }

  -- `self._default_ttl if ttl is None else ttl`
  abbrev pub ttl_or : Option ℕ → TtlCache V → ℕ
  ttl_or none c = c.default_ttl
  ttl_or (some ttl) c = ttl

  -- The two early returns of `set`.
  abbrev pub skips : Option ℕ → TtlCache V → Bool
  skips ttl c = not c.enabled || ttl_or ttl c == 0

  -- `_Entry(…)`
  abbrev pub new_entry : String → V → ℕ → Option ℕ → Option String → ℕ → TtlCache V → Entry V
  new_entry key value size ttl ns now c = record {
    value = value;
    expires_at = now + ttl_or ttl c;
    size_bytes = size + len key;
    namespace = namespace_or key ns;
  }

  -- `set`: `size` is what `_estimate_size` makes of the value, and `ns` the namespace, if one is given.
  unfoldable pub set : String → V → ℕ → Option ℕ → Option String → ℕ → TtlCache V → TtlCache V
  set key value size ttl ns now c =
      if skips ttl c
      then c
      else (evict_locked (
          put_entry key (new_entry key value size ttl ns now c)
            (pop_found key (lookup key c.items) c)))

  -- `delete` counts the keys that were there.
  unfoldable pub delete_key : String → TtlCache V → TtlCache V
  unfolding remove_locked
  delete_key key c =
      let (there, c') = remove_locked key delete c in
      if there then record c' { deletes = c'.deletes + 1 } else c'

  -- `for key in keys: self._remove_locked(key, …)`
  unfoldable pub remove_all : List String → Reason → TtlCache V → TtlCache V
  unfolding remove_locked
  remove_all [] reason c = c
  remove_all (key ∷ keys) reason c = remove_all keys reason (remove_locked key reason c).1

  abbrev pub count_deletes : ℕ → TtlCache V → TtlCache V
  count_deletes n c = record c { deletes = c.deletes + n }

  unfoldable pub delete_prefix : String → TtlCache V → ℕ × TtlCache V
  delete_prefix prefix c =
      let keys = keys_if (λ key e. starts_with key prefix) c.items in
      (length keys, count_deletes (length keys) (remove_all keys delete c))

  unfoldable pub delete_namespace : String → TtlCache V → ℕ × TtlCache V
  delete_namespace ns c =
      let keys = keys_if (λ key e. str_eq e.namespace ns) c.items in
      (length keys, count_deletes (length keys) (remove_all keys delete c))

  unfoldable pub clear : TtlCache V → TtlCache V
  clear c = record c { items = []; bytes = 0; namespace_entries = []; namespace_bytes = [] }

  unfoldable pub cleanup_expired : ℕ → TtlCache V → ℕ × TtlCache V
  cleanup_expired now c =
      let keys = keys_if (λ key e. ltb e.expires_at now) c.items in
      (length keys, remove_all keys expired c)
