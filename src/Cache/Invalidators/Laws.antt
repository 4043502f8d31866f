-- ===== src/Cache/Invalidators/Laws.antt =====
-- What the invalidators of lcloud/cache.py remove.
use Prim.Native.String.{◌++◌}
use lcloud.Base.{
  ℕ, String, ◌≡◌, refl, ap, ◌∙◌, Bool, true, false, none, ◌&&◌, ◌||◌, ◌==◌, leb, arith, str_eq,
  if◌then◌else◌, starts_with,
}
use lcloud.Base.Text.{show, len, prefix}
use lcloud.Base.Decimal.{starts_with-show, eq-show, eq-apart, starts_with-apart}
use lcloud.Base.Assoc.{lookup}
use lcloud.Cache.{Reason, TtlCache, delete_key, delete_prefix, remove_all}
use lcloud.Cache.Accounting.{IsAccounted}
use lcloud.Cache.Methods.{same-IsAccounted, delete_key-IsAccounted, remove_all-IsAccounted}
use lcloud.Cache.Contents.{lookup-delete_key, lookup-delete_prefix}
use lcloud.Cache.Keys.{
  k_json_document, k_json_list, k_json_query, k_json_collection, k_json_collection_name,
  k_json_public_key, k_json_database_key, k_json_storage_key, list_prefix, query_prefix,
}
use lcloud.Cache.Invalidators.{invalidate_json_document}

-- What is cached of the JSON databases: a document, a page of a list, a query, a collection, and the
-- collection, database or storage of a name or publishable key.
pub data Item : Type 0 where
  document : ℕ → String → Item
  page : ℕ → ℕ → ℕ → Item
  query : ℕ → String → Item
  collection : ℕ → Item
  collection_name : ℕ → String → String → Item
  public_key database_key storage_key : String → Item

abbrev pub key_of : Item → String
key_of (document c d) = k_json_document c d
key_of (page c limit offset) = k_json_list c limit offset
key_of (query c hash) = k_json_query c hash
key_of (collection c) = k_json_collection c
key_of (collection_name owner database name) = k_json_collection_name owner database name
key_of (public_key key) = k_json_public_key key
key_of (database_key key) = k_json_database_key key
key_of (storage_key key) = k_json_storage_key key

-- Stale when the document `d` of the collection `c` changes: the document, and every page and query of
-- the collection.
abbrev pub is_stale : ℕ → String → Item → Bool
is_stale c d (document c' d') = c == c' && str_eq d d'
is_stale c d (page c' limit offset) = c' == c
is_stale c d (query c' hash) = c' == c
is_stale c d (collection c') = false
is_stale c d (collection_name owner database name) = false
is_stale c d (public_key key) = false
is_stale c d (database_key key) = false
is_stale c d (storage_key key) = false

abbrev IsDeleted : ℕ → String → Item → Type 0
IsDeleted c d i =
    (starts_with (key_of i) (query_prefix c)
      || (starts_with (key_of i) (list_prefix c) || str_eq (k_json_document c d) (key_of i)))
    ≡ is_stale c d i

-- None of the three deletions meets the key.
left :
    (c : ℕ) (d : String) (k : ℕ) (p s : String)
    → leb k 9 ≡ true
    → leb k (len p) ≡ true
    → str_eq (prefix k p) (prefix k "json_query:") ≡ false
    → str_eq (prefix k p) (prefix k "json_list:") ≡ false
    → str_eq (prefix k "json_doc:") (prefix k p) ≡ false
    → (starts_with (p ++ s) (query_prefix c)
        || (starts_with (p ++ s) (list_prefix c) || str_eq (k_json_document c d) (p ++ s)))
      ≡ false
unfolding query_prefix list_prefix k_json_document len
left c d k p s h j q l e = ground (
  arith,
  starts_with-apart k p "json_query:" s (show c ++ ":") j (ground arith) q,
  starts_with-apart k p "json_list:" s (show c ++ ":") j (ground arith) l,
  eq-apart k "json_doc:" p (show c ++ (":" ++ d)) s (ground arith) j e,
)

key_of-IsDeleted : (c : ℕ) (d : String) (i : Item) → IsDeleted c d i
unfolding query_prefix list_prefix k_json_document k_json_list k_json_query k_json_collection
    k_json_collection_name k_json_public_key k_json_database_key k_json_storage_key prefix len
key_of-IsDeleted c d (document c' d') = ground (
  arith,
  eq-show "json_doc:" c c' d d',
  starts_with-apart 6 "json_doc:" "json_query:" (show c' ++ (":" ++ d')) (show c ++ ":") refl refl
      refl,
  starts_with-apart 6 "json_doc:" "json_list:" (show c' ++ (":" ++ d')) (show c ++ ":") refl refl
      refl,
)
key_of-IsDeleted c d (page c' limit offset) =
    let rest = show limit ++ (":" ++ show offset) in
    ground (
      arith,
      starts_with-show "json_list:" c' c rest,
      starts_with-apart 6 "json_list:" "json_query:" (show c' ++ (":" ++ rest)) (show c ++ ":") refl
          refl refl,
      eq-apart 6 "json_doc:" "json_list:" (show c ++ (":" ++ d)) (show c' ++ (":" ++ rest)) refl
          refl refl,
    )
key_of-IsDeleted c d (query c' hash) = ground (
  arith,
  starts_with-show "json_query:" c' c hash,
  starts_with-apart 6 "json_query:" "json_list:" (show c' ++ (":" ++ hash)) (show c ++ ":") refl
      refl refl,
  eq-apart 6 "json_doc:" "json_query:" (show c ++ (":" ++ d)) (show c' ++ (":" ++ hash)) refl refl
      refl,
)
key_of-IsDeleted c d (collection c') = left c d 6 "json_collection:id:" _ refl refl refl refl refl
key_of-IsDeleted c d (collection_name owner database name) =
    left c d 6 "json_collection:name:" _ refl refl refl refl refl
key_of-IsDeleted c d (public_key key) = left c d 6 "json_public_key:" _ refl refl refl refl refl
key_of-IsDeleted c d (database_key key) = left c d 8 "json_database:key:" _ refl refl refl refl refl
key_of-IsDeleted c d (storage_key key) = left c d 6 "json_storage_key:" _ refl refl refl refl refl

module _ {V : Type 0} where
  delete_prefix-IsAccounted :
      (prefix : String) (c : TtlCache V) → IsAccounted c → IsAccounted (delete_prefix prefix c).1
  unfolding delete_prefix
  delete_prefix-IsAccounted prefix c a =
      same-IsAccounted (remove_all _ Reason.delete c) _ refl refl refl refl
        (remove_all-IsAccounted _ Reason.delete c a)

  lookup-after :
      (collection_id : ℕ) (doc_id j : String) (c : TtlCache V)
      → IsAccounted c
      → lookup j (invalidate_json_document collection_id doc_id c).items ≡ (
          if starts_with j (query_prefix collection_id)
            || (starts_with j (list_prefix collection_id)
                || str_eq (k_json_document collection_id doc_id) j)
          then none
          else lookup j c.items)
  unfolding invalidate_json_document
  lookup-after collection_id doc_id j c a =
      let k = k_json_document collection_id doc_id in
      let b = delete_key-IsAccounted k c a in
      rw
        (
          lookup-delete_prefix (query_prefix collection_id) j _
              (delete_prefix-IsAccounted (list_prefix collection_id) (delete_key k c) b),
          lookup-delete_prefix (list_prefix collection_id) j (delete_key k c) b,
          lookup-delete_key k j c a,
        )
        (ground arith)

  -- In a cache whose keys are distinct and whose counters are right, `invalidate_json_document` removes
  -- the document, every page of its collection's lists and every query of its collection, and leaves every
  -- other document, page, query, collection, name and key of the JSON databases as it is.
  pub lookup-invalidate_json_document :
      (collection_id : ℕ) (doc_id : String) (i : Item) (c : TtlCache V)
      → IsAccounted c
      → lookup (key_of i) (invalidate_json_document collection_id doc_id c).items
        ≡ (if is_stale collection_id doc_id i then none else lookup (key_of i) c.items)
  lookup-invalidate_json_document collection_id doc_id i c a =
      lookup-after collection_id doc_id (key_of i) c a
      ∙ ap (λ (b : Bool). if b then none else lookup (key_of i) c.items)
          (key_of-IsDeleted collection_id doc_id i)
