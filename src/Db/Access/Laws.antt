-- ===== src/Db/Access/Laws.antt =====
-- Who `_can_access_collection` lets in, as a list of grounds.
use lcloud.Base.{
  ℕ, String, ◌≡◌, inl, inr, refl, Bool, true, false, ◌&&◌, ◌||◌, Option, none, some, arith, is_some,
  option_str_eq, eq_iff, str_eq_refl, if◌then◌else◌, Option-cases,
}
use mathlib.Core.Path.{subst}
use mathlib.Core.Logic.{◌↔◌}
use lcloud.Db.Errors.{Action}
use lcloud.Db.Rows.{JsonCollection, JsonDocument}
use lcloud.Db.Access.{
  AppIdentity, Caller, owner_user, app_user, rule_of, is_user, is_member, owns, can_access,
}

-- An app user of the collection's project and database.
pub record IsMember (app : AppIdentity) (c : JsonCollection) : Type 0 where
  pub project : app.project_owner_user_id ≡ c.owner_user_id
  pub database : app.database_id ≡ c.database_id

-- No document is asked for yet, or one that the uid owns.
abbrev pub OwnedBy : String → Option JsonDocument → Type 0
OwnedBy uid none = Unit {0}
OwnedBy uid (some row) = row.owner_uid ≡ some uid

pub data IsAllowed (c : JsonCollection) (caller : Caller) (action : Action)
    (row : Option JsonDocument) : Type 0 where
  as_owner : owner_user caller ≡ some c.owner_user_id → IsAllowed c caller action row
  to_all : rule_of action c ≡ "public" → IsAllowed c caller action row
  signed_in :
      (id : ℕ)
      → rule_of action c ≡ "authenticated"
      → owner_user caller ≡ some id
      → IsAllowed c caller action row
  as_member :
      (app : AppIdentity)
      → rule_of action c ≡ "authenticated"
      → app_user caller ≡ some app
      → IsMember app c
      → IsAllowed c caller action row
  as_document_owner :
      (app : AppIdentity)
      → rule_of action c ≡ "document_owner"
      → app_user caller ≡ some app
      → IsMember app c
      → OwnedBy app.uid row
      → IsAllowed c caller action row

is_user-owner : (o : Option ℕ) (id : ℕ) → is_user o id ≡ true → o ≡ some id
is_user-owner none id h = cc
is_user-owner (some u) id h = ground arith

owner-is_user : (o : Option ℕ) (id : ℕ) → o ≡ some id → is_user o id ≡ true
owner-is_user o id h = rw h (ground arith)

is_member-IsMember :
    (o : Option AppIdentity) (c : JsonCollection)
    → is_member o c ≡ true
    → (app : AppIdentity) × (o ≡ some app) × IsMember app c
is_member-IsMember none c h = cc
is_member-IsMember (some app) c h =
    (app, refl, record { project = ground arith; database = ground arith })

owner_same : (o : Option String) (uid : String) → option_str_eq o (some uid) ≡ true → o ≡ some uid
owner_same none uid h = cc
owner_same (some u) uid h = ground (arith, eq_iff u uid)

owns-OwnedBy :
    (app : AppIdentity) (row : Option JsonDocument)
    → owns (some app) row ≡ true
    → OwnedBy app.uid row
owns-OwnedBy app none h = tt
owns-OwnedBy app (some row) h = owner_same row.owner_uid app.uid h

IsMember-member :
    (app : AppIdentity) (c : JsonCollection) → IsMember app c → is_member (some app) c ≡ true
IsMember-member app c h = ground (arith, h.project, h.database)

OwnedBy-owns :
    (app : AppIdentity) (row : Option JsonDocument)
    → OwnedBy app.uid row
    → owns (some app) row ≡ true
OwnedBy-owns app none h = refl
OwnedBy-owns app (some row) h = rw h (str_eq_refl app.uid)

both_true : (a b : Bool) → a && b ≡ true → (a ≡ true) × (b ≡ true)
both_true true b h = (refl, h)
both_true false b h = cc

if_true :
    {P : Type 0} (b x : Bool) → (b ≡ true → P) → (x ≡ true → P) → (if b then true else x) ≡ true → P
if_true true x p q h = p refl
if_true false x p q h = q h

if_else :
    {P : Type 0} (b x y : Bool)
    → (b ≡ true → x ≡ true → P)
    → (y ≡ true → P)
    → (if b then x else y) ≡ true
    → P
if_else true x y p q h = p refl h
if_else false x y p q h = q h

authenticated_sound :
    (c : JsonCollection) (caller : Caller) (action : Action) (row : Option JsonDocument)
    → rule_of action c ≡ "authenticated"
    → is_some (owner_user caller) || is_member (app_user caller) c ≡ true
    → IsAllowed c caller action row
authenticated_sound c caller action row r h = elim (Option-cases (owner_user caller)) [
  | inr (id, e) ↦ signed_in id r e
  | inl e ↦
      (let member : is_member (app_user caller) c ≡ true =
          subst (λ o. is_some o || is_member (app_user caller) c ≡ true) e h in
        let (app, f, m) = is_member-IsMember _ _ member in as_member app r f m)
]

document_owner_sound :
    (c : JsonCollection) (caller : Caller) (action : Action) (row : Option JsonDocument)
    → rule_of action c ≡ "document_owner"
    → is_member (app_user caller) c && owns (app_user caller) row ≡ true
    → IsAllowed c caller action row
document_owner_sound c caller action row r h =
    let both = both_true _ _ h in
    let (app, e, m) = is_member-IsMember _ _ both.0 in
    as_document_owner app r e m (owns-OwnedBy app row (subst (λ o. owns o row ≡ true) e both.1))

-- Whoever gets in has a ground to.
can_access_sound :
    (c : JsonCollection) (caller : Caller) (action : Action) (row : Option JsonDocument)
    → can_access c caller action row ≡ true
    → IsAllowed c caller action row
unfolding can_access
can_access_sound c caller action row h =
    if_true _ _ (λ e. as_owner (is_user-owner _ _ e))
      (if_true _ _ (λ e. to_all ((eq_iff (rule_of action c) "public").0 e))
        (if_else _ _ _
          (λ e.
            authenticated_sound c caller action row
              ((eq_iff (rule_of action c) "authenticated").0 e))
          (if_else _ _ _
            (λ e.
              document_owner_sound c caller action row
                ((eq_iff (rule_of action c) "document_owner").0 e))
            (λ h. cc))))
      h

-- Whoever has a ground gets in.
can_access_complete :
    (c : JsonCollection) (caller : Caller) (action : Action) (row : Option JsonDocument)
    → IsAllowed c caller action row
    → can_access c caller action row ≡ true
unfolding can_access
can_access_complete c caller action row (as_owner e) = ground (arith, owner-is_user _ _ e)
can_access_complete c caller action row (to_all e) =
    ground (arith, eq_iff (rule_of action c) "public")
can_access_complete c caller action row (signed_in id r e) = rw (r, e) (ground arith)
can_access_complete c caller action row (as_member app r e m) =
    rw (r, e, IsMember-member app c m) (ground arith)
can_access_complete c caller action row (as_document_owner app r e m o) =
    rw (r, e, IsMember-member app c m, OwnedBy-owns app row o) (ground arith)

-- A caller may read or write a collection, with the document at hand if there is one, exactly on one of
-- these grounds: it is the owner of the collection; the rule is "public"; the rule is "authenticated",
-- and it is any signed-in user or an app user of the collection's project and database; or the rule is
-- "document_owner", and it is such an app user, with no document at hand or one of its own.
pub can_access-IsAllowed :
    (c : JsonCollection) (caller : Caller) (action : Action) (row : Option JsonDocument)
    → (can_access c caller action row ≡ true) ↔ IsAllowed c caller action row
can_access-IsAllowed c caller action row =
    (can_access_sound c caller action row, can_access_complete c caller action row)
