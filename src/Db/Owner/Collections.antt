-- ===== src/Db/Owner/Collections.antt =====
-- The handlers of lcloud/api/json_db.py for the owner of the database, on a collection: its rules, its
-- validator and its deletion; and the revocation of a publishable key.
--
-- A reply's dict is a row here: `set_collection_rules` and the others take their fields from it. The
-- body of `set_collection_validator` is the dict that `WriteValidatorIn.model_dump` gives.
use lcloud.Base.{
  ℕ, String, Option, none, some, List, [], ◌∷◌, not, ◌==◌, ◌&&◌, keep_if, find_if, if◌then◌else◌,
}
use lcloud.Json.{Json, null, str, obj, Fields, end, field, json_dumps}
use lcloud.Db.Errors.{public_key_not_found}
use lcloud.Db.Rows.{JsonCollection, JsonDbPublicKey, Db}
use lcloud.Db.Store.{add_operation, update_collection}
use lcloud.Cache.Invalidators.{invalidate_json_collection, invalidate_json_public_keys}
use lcloud.Db.Session.{
  Env, Handler, pure, gets, or_fail, modify_db, modify_cache, ◌>>=◌, ◌>>◌, validate_collection_name,
  get_collection_or_404,
}
use lcloud.Db.Owner.{Target}

-- A change of the collection's row, with its operation.
unfoldable pub put_collection :
    ℕ → ℕ → (JsonCollection → JsonCollection) → String → Fields → Db → Db
put_collection now id f op payload db =
    add_operation id none op payload none now
      (record db { collections = update_collection id f db.collections })

unfoldable pub with_rules : ℕ → String → String → JsonCollection → JsonCollection
with_rules now read_rule write_rule c = record c {
  read_rule = read_rule;
  write_rule = write_rule;
  updated_at = now;
}

unfoldable pub get_collection_rules : Target → Handler JsonCollection
get_collection_rules t = do
  validate_collection_name t.collection
  get_collection_or_404 t.user_id t.database_id t.database_key t.collection

unfoldable pub set_collection_rules : Env → Target → String → String → Handler JsonCollection
set_collection_rules env t read_rule write_rule = do
  validate_collection_name t.collection
  row ← get_collection_or_404 t.user_id t.database_id t.database_key t.collection
  modify_db (
      put_collection env.now row.id (with_rules env.now read_rule write_rule) "rules"
        (field "read" (str read_rule) (field "write" (str write_rule) end)))
  modify_cache (invalidate_json_collection row.id)
  pure (with_rules env.now read_rule write_rule row)

unfoldable pub with_validator : ℕ → Option Fields → JsonCollection → JsonCollection
with_validator now none c = record c { write_validator_json = none; updated_at = now }
with_validator now (some v) c = record c {
  write_validator_json = some (json_dumps v);
  updated_at = now;
}

abbrev pub or_null : Option Fields → Json
or_null none = null
or_null (some v) = obj v

unfoldable pub get_collection_validator : Target → Handler JsonCollection
get_collection_validator t = do
  validate_collection_name t.collection
  get_collection_or_404 t.user_id t.database_id t.database_key t.collection

-- `set_collection_validator`, and `delete_collection_validator` with no validator
unfoldable pub set_collection_validator : Env → Target → Option Fields → Handler JsonCollection
set_collection_validator env t validator = do
  validate_collection_name t.collection
  row ← get_collection_or_404 t.user_id t.database_id t.database_key t.collection
  modify_db (
      put_collection env.now row.id (with_validator env.now validator) "validator"
        (field "validator" (or_null validator) end))
  modify_cache (invalidate_json_collection row.id)
  pure (with_validator env.now validator row)

-- `sess.delete(row)`: the foreign keys of the documents and of the operations cascade.
unfoldable pub drop_collection : ℕ → Db → Db
drop_collection id db = record db {
  collections = keep_if (λ c. not (c.id == id)) db.collections;
  documents = keep_if (λ row. not (row.collection_id == id)) db.documents;
  operations = keep_if (λ o. not (o.collection_id == id)) db.operations;
}

unfoldable pub delete_collection : Env → Target → Handler (Unit {0})
delete_collection env t = do
  validate_collection_name t.collection
  row ← get_collection_or_404 t.user_id t.database_id t.database_key t.collection
  modify_db (drop_collection row.id)
  modify_cache (invalidate_json_collection row.id)
  pure tt

unfoldable pub revoke_key : ℕ → ℕ → List JsonDbPublicKey → List JsonDbPublicKey
revoke_key id now [] = []
revoke_key id now (k ∷ ks) =
    let rest = revoke_key id now ks in
    if k.id == id
    then record k { revoked_at = elim k.revoked_at [ none ↦ some now | some t ↦ some t ] } ∷ rest
    else k ∷ rest

-- `revoke_public_key`, of the user `user_id`
unfoldable pub revoke_public_key : Env → ℕ → ℕ → Handler (Unit {0})
revoke_public_key env user_id key_id = do
  found ← gets (λ w. find_if (λ k. k.id == key_id && k.owner_user_id == user_id) w.db.public_keys)
  or_fail found public_key_not_found
  modify_db (λ db. record db { public_keys = revoke_key key_id env.now db.public_keys })
  modify_cache invalidate_json_public_keys
  pure tt
