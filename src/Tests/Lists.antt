-- ===== src/Tests/Lists.antt =====
-- Lists and streams of a collection, at fixed inputs.
use lcloud.Base.{
  ℕ, String, ◌≡◌, refl, true, false, ◌&&◌, none, some, List, [], ◌∷◌, ◌++◌, ◌-◌, take, drop, arith,
  ◌==◌,
}
use lcloud.Db.Rows.{JsonCollection, JsonDocument, JsonOperation, Db}
use lcloud.Db.Errors.{read}
use lcloud.Db.Access.{Caller, principal, can_access}
use lcloud.Db.Store.{find_collection_by_id}
use lcloud.Db.Lists.{is_listed, listed_rows}
use lcloud.Db.Lists.Pages.{AllOf, listed_rows-can_access}
use lcloud.Db.Events.{is_shown, stream_events}
use lcloud.Db.Events.Order.{delivered, after_id, Seen, stream_events-start}
use lcloud.Db.Errors.{raise, integrity_error}
use lcloud.Db.Owner.Projects.{Account, Scope, create_collection}
use lcloud.Db.Owner.Projects.Created.{Good, IsFound, create_collection-IsFound}
use lcloud.Tests.Documents.{notes, titled, env, world}
use lcloud.Tests.Backup.{logged_db}

abbrev app_caller : Caller
app_caller =
    principal none (some (record { uid = "app_1"; project_owner_user_id = 9; database_id = 4 }))

abbrev own_notes : JsonCollection
own_notes = record notes { read_rule = "document_owner" }

abbrev row : ℕ → String → JsonDocument
row id uid = record {
  id = id;
  collection_id = 1;
  doc_id = "a";
  owner_uid = some uid;
  data_json = lcloud.Json.json_dumps (titled "one");
  version = 1;
  created_at = 0;
  updated_at = 10 - id;
  deleted_at = none;
}

abbrev rows : List JsonDocument
rows = row 1 "app_2" ∷ row 2 "app_1" ∷ row 3 "app_1" ∷ []

may_read_own : can_access own_notes app_caller read none ≡ true
unfolding can_access
may_read_own = refl

listed_rows-can_access_example :
    AllOf
      (λ r. can_access own_notes app_caller read (some r))
      (listed_rows own_notes (is_listed own_notes app_caller) rows)
listed_rows-can_access_example = listed_rows-can_access own_notes app_caller rows may_read_own

abbrev rows_db : Db
rows_db = record logged_db { documents = rows }

-- The tables before the last two operations, and with them.
abbrev earlier_db : Db
earlier_db = record logged_db { operations = take 1 logged_db.operations }

abbrev anyone : Caller
anyone = principal none none

public_notes : can_access notes anyone read none ≡ true
unfolding can_access
public_notes = refl

there : find_collection_by_id 1 logged_db ≡ some notes
unfolding find_collection_by_id
there = refl

there_before : find_collection_by_id 1 earlier_db ≡ some notes
unfolding find_collection_by_id
there_before = refl

shown_all :
    (o : JsonOperation)
    → (o.collection_id == 1 && is_shown notes anyone o) ≡ (o.collection_id == 1 && true)
unfolding is_shown
shown_all o = refl

abbrev seen :
    (db : Db) (new : List JsonOperation)
    → logged_db.operations ≡ db.operations ++ new
    → find_collection_by_id 1 db ≡ some notes
    → Seen anyone 1 (λ o. o.collection_id == 1 && true) logged_db.operations db
seen db new e f = record {
  new = new;
  starts = e;
  coll = notes;
  found = f;
  may_read = public_notes;
  shown = shown_all;
}

stream_events-start_example :
    (rest : List JsonOperation) × (delivered
          (stream_events anyone 1 false 0 (earlier_db ∷ logged_db ∷ []))
        ++ rest
      ≡ after_id (λ o. o.collection_id == 1 && true) 0 logged_db.operations)
stream_events-start_example =
    stream_events-start anyone 1 false 0 (λ o. o.collection_id == 1 && true) logged_db.operations
      (earlier_db ∷ logged_db ∷ []) (omega arith)
      (
        seen earlier_db (drop 1 logged_db.operations) refl there_before,
        (seen logged_db [] refl there, tt),
      )

abbrev owner_account : Account
owner_account = record { id = 9; is_admin = false }

abbrev no_scope : Scope
no_scope = record { database_id = none; database_key = none }

create_collection-IsFound_example :
    Good
      (IsFound 9 "tasks")
      (create_collection (env 7) (λ taken. "lcdb_b") owner_account no_scope no_scope "tasks" world)
create_collection-IsFound_example =
    create_collection-IsFound (env 7) (λ taken. "lcdb_b") owner_account no_scope no_scope "tasks"
      world

-- An admin is refused a name that the owner of the database has taken, and not by `collection_exists`.
admin_test :
    (create_collection
      (env 7)
      (λ taken. "lcdb_b")
      (record { id = 1; is_admin = true })
      (record { database_id = some 4; database_key = none })
      no_scope
      "notes"
      world).0
    ≡ raise integrity_error
unfolding create_collection lcloud.Db.Session.◌>>=◌ lcloud.Db.Session.transaction
    lcloud.Db.Owner.Projects.scoped_database lcloud.Db.Owner.Projects.resolve_database
    lcloud.Db.Owner.Projects.get_database_or_404 lcloud.Db.Owner.Projects.found_for
    lcloud.Db.Owner.Projects.insert_named lcloud.Db.Session.guard
    lcloud.Db.Owner.Projects.insert_unique
admin_test = refl
