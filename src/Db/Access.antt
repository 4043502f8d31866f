-- ===== src/Db/Access.antt =====
-- `_can_access_collection` of lcloud/api/json_db.py: who may read and write a collection.
pub mod Laws
use lcloud.Base.{
  ℕ, String, Bool, true, false, ◌&&◌, ◌||◌, not, Option, none, some, ◌==◌, if◌then◌else◌, is_some,
  str_eq, option_str_eq,
}
use lcloud.Db.Errors.{Action, read, write}
use lcloud.Db.Rows.{JsonCollection, JsonDocument}

-- `AppIdentity` (lcloud/api/app_auth.py): an end user of one database.
pub record AppIdentity : Type 0 where
  pub uid : String
  pub project_owner_user_id : ℕ
  pub database_id : ℕ

-- The `user` of a request: the id of a `User` or None, or a `PublicPrincipal`.
pub data Caller : Type 0 where
  user : Option ℕ → Caller
  principal : Option ℕ → Option AppIdentity → Caller

abbrev pub owner_user : Caller → Option ℕ
owner_user (user id) = id
owner_user (principal id app) = id

abbrev pub app_user : Caller → Option AppIdentity
app_user (user id) = none
app_user (principal id app) = app

-- `user.app_user.uid if user.app_user else None`
abbrev pub app_uid : Caller → Option String
app_uid caller = elim (app_user caller) [ none ↦ none | some app ↦ some app.uid ]

abbrev pub rule_of : Action → JsonCollection → String
rule_of read c = c.read_rule
rule_of write c = c.write_rule

abbrev pub is_user : Option ℕ → ℕ → Bool
is_user none id = false
is_user (some u) id = id == u

-- The app user belongs to the collection's project and database.
abbrev pub is_member : Option AppIdentity → JsonCollection → Bool
is_member none c = false
is_member (some app) c =
    app.project_owner_user_id == c.owner_user_id && app.database_id == c.database_id

-- `document is None or document.owner_uid == app_user.uid`
abbrev pub owns : Option AppIdentity → Option JsonDocument → Bool
owns none document = false
owns (some app) none = true
owns (some app) (some row) = option_str_eq row.owner_uid (some app.uid)

unfoldable pub can_access : JsonCollection → Caller → Action → Option JsonDocument → Bool
can_access c caller action document =
    if is_user (owner_user caller) c.owner_user_id
    then true
    else if str_eq (rule_of action c) "public"
    then true
    else if str_eq (rule_of action c) "authenticated"
    then is_some (owner_user caller) || is_member (app_user caller) c
    else if str_eq (rule_of action c) "document_owner"
    then is_member (app_user caller) c && owns (app_user caller) document
    else false
