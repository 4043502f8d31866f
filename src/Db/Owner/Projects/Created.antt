-- ===== src/Db/Owner/Projects/Created.antt =====
-- A collection that lcloud/api/json_db.py has created.
use lcloud.Base.{
  ℕ, suc, ◌≤◌, String, ◌≡◌, refl, Bool, true, false, not, ◌&&◌, none, some, List, [], ◌∷◌, ◌++◌,
  arith, ◌==◌, str_eq, str_eq_refl, find_if, any_of, max_of,
}
use lcloud.Db.Rows.{JsonCollection, Db}
use lcloud.Db.Errors.{Reply, ok, raise, HttpError, integrity_error, collection_exists}
use lcloud.Db.Store.{find_collection, find_collection_by_id, in_scope, add_operation}
use lcloud.Cache.{TtlCache}
use lcloud.Cache.Invalidators.{invalidate_json_collection}
use lcloud.Db.Session.{
  World, Env, Handler, Body, pure, gets, guard, modify_db, modify_cache, transaction, ◌>>=◌, ◌>>◌,
}
use lcloud.Db.Owner.Projects.{
  Account, Scope, is_named, collection_named, new_collection, add_collection, insert_named,
  insert_unique, insert_row, scoped_database, create_collection,
}

find_fresh :
    (p : JsonCollection → Bool) (cs : List JsonCollection) (c : JsonCollection)
    → any_of p cs ≡ false
    → p c ≡ true
    → find_if p (cs ++ c ∷ []) ≡ some c
find_fresh p [] c none_has has = ground arith
find_fresh p (x ∷ cs) c none_has has = ground (arith, find_fresh p cs c)

above_max :
    (n : ℕ) (cs : List JsonCollection)
    → max_of (λ (c : JsonCollection). c.id) cs ≤ n
    → any_of (λ (c : JsonCollection). c.id == suc n) cs ≡ false
above_max n [] h = refl
above_max n (x ∷ cs) h = ground (arith, above_max n cs)

fewer_named :
    (p q : JsonCollection → Bool) (cs : List JsonCollection)
    → ((c : JsonCollection) → p c ≡ true → q c ≡ true)
    → any_of q cs ≡ false
    → any_of p cs ≡ false
fewer_named p q [] h e = refl
fewer_named p q (x ∷ cs) h e = ground (arith, h x, fewer_named p q cs h)

-- The collection is found by its id, and by its owner, database and name.
pub record IsFound (user_id : ℕ) (name : String) (c : JsonCollection) (db : Db) : Type 0 where
  pub by_id : find_collection_by_id c.id db ≡ some c
  pub by_name : find_collection user_id (some c.database_id) none name db ≡ some c

add_collection-IsFound :
    (now user_id database_id : ℕ) (name : String) (db : Db)
    → any_of (is_named database_id name) db.collections ≡ false
    → let c = new_collection now user_id database_id name db in
      IsFound user_id name c (add_collection now c db)
unfolding add_collection new_collection add_operation find_collection find_collection_by_id in_scope
add_collection-IsFound now user_id database_id name db e = record {
  by_id = find_fresh _ db.collections _ (above_max _ db.collections (omega arith)) (ground arith);
  by_name =
      find_fresh _ db.collections _
        (fewer_named _ (is_named database_id name) db.collections (λ c h. named c h) e)
        (ground (arith, str_eq_refl name));
}
  where
    named :
        (c : JsonCollection)
        → (c.owner_user_id == user_id && str_eq c.name name && c.database_id == database_id) ≡ true
        → is_named database_id name c ≡ true
    named c h = ground arith

-- What holds of a reply that is no error.
abbrev pub Good : {A : Type 0} → (A → Db → Type 0) → Reply A × World → Type 0
Good Q (ok a, w) = Q a w.db
Good Q (raise e, w) = Unit {0}

record Yields {A : Type 0} (Q : A → Db → Type 0) (m : Handler A) : Type 0 where
  at : (w : World) → Good Q (m w)

Yields-bind :
    {A B : Type 0} (Q : B → Db → Type 0) (m : Handler A) (f : A → Handler B)
    → ((a : A) → Yields Q (f a))
    → Yields Q (m >>= f)
unfolding ◌>>=◌
Yields-bind {A} {B} Q m f h = record { at = λ w. after (m w) }
  where
    after :
        (r : Reply A × World)
        → Good Q (elim r.0 as (λ _. Reply B × World) [ ok a ↦ f a r.1 | raise e ↦ (raise e, r.1) ])
    after (ok a, w) = (h a).at w
    after (raise e, w) = tt

Yields-transaction :
    {A : Type 0} (Q : A → Db → Type 0) (m : Handler A) → Yields Q m → Yields Q (transaction m)
unfolding transaction
Yields-transaction {A} Q m h = record { at = λ w. after (m w) (h.at w) w.db }
  where
    after :
        (r : Reply A × World)
        → Good Q r
        → (db : Db)
        → Good Q (elim r.0 as (λ _. Reply A × World) [
          | ok a ↦ (ok a, r.1)
          | raise e ↦ (raise e, record r.1 { db = db })
        ])
    after (ok a, w) h db = h
    after (raise e, w) h db = tt

Good-guard :
    {A : Type 0} (Q : A → Db → Type 0) (b : Bool) (e : HttpError) (k : Handler A) (w : World)
    → (b ≡ false → Good Q (k w))
    → Good Q ((guard (not b) e >> k) w)
unfolding ◌>>=◌ guard
Good-guard Q true e k w h = tt
Good-guard Q false e k w h = h refl

insert_unique-Yields :
    (now user_id database_id : ℕ) (name : String)
    → Yields (IsFound user_id name) (insert_unique now user_id database_id name)
unfolding insert_unique insert_row ◌>>=◌ gets modify_db pure
insert_unique-Yields now user_id database_id name = record {
  at = λ w.
      Good-guard (IsFound user_id name) (any_of (is_named database_id name) w.db.collections)
        integrity_error (insert_row now user_id database_id name) w
        (λ f. add_collection-IsFound now user_id database_id name w.db f);
}

insert_named-Yields :
    (now user_id database_id : ℕ) (name : String)
    → Yields (IsFound user_id name) (insert_named now user_id database_id name)
unfolding insert_named ◌>>=◌ gets
insert_named-Yields now user_id database_id name = record {
  at = λ w.
      Good-guard (IsFound user_id name)
        (any_of (collection_named user_id database_id name) w.db.collections) collection_exists
        (insert_unique now user_id database_id name) w
        (λ e. (insert_unique-Yields now user_id database_id name).at w);
}

-- What only changes the cache keeps what a reply yields.
Yields-cache :
    {A : Type 0} (Q : A → Db → Type 0) (m : Handler A) (f : A → TtlCache Body → TtlCache Body)
    → Yields Q m
    → Yields Q (m >>= λ a. modify_cache (f a) >> pure a)
unfolding ◌>>=◌ modify_cache pure
Yields-cache {A} Q m f h = record { at = λ w. after (m w) (h.at w) }
  where
    after :
        (r : Reply A × World)
        → Good Q r
        → Good Q (elim r.0 as (λ _. Reply A × World) [
          | ok a ↦ (modify_cache (f a) >> pure a) r.1
          | raise e ↦ (raise e, r.1)
        ])
    after (ok a, w) h = h
    after (raise e, w) h = tt

-- A creation that is answered with a collection leaves tables in which the collection is found by its id,
-- and by its owner, its database and its name, with the row that the reply shows.
pub create_collection-IsFound :
    (env : Env) (fresh : List String → String) (user : Account) (body query : Scope) (name : String)
    (w : World)
    → Good (IsFound user.id name) (create_collection env fresh user body query name w)
unfolding create_collection
create_collection-IsFound env fresh user body query name w =
    (Yields-cache _ _ (λ row. invalidate_json_collection row.id)
        (Yields-transaction _ _ (
          Yields-bind _ (scoped_database fresh user body query) _
            (λ database. insert_named-Yields env.now user.id database.id name)))).at
      w
