-- ===== src/Tests/Backup.antt =====
-- Rounds of the backup, at fixed inputs.
use lcloud.Base.{
  ℕ, String, ◌≡◌, ◌≤◌, refl, none, some, List, [], ◌∷◌, ◌++◌, true, false, arith, ◌==◌, length, map,
}
use lcloud.Db.Rows.{JsonOperation, Db}
use lcloud.Db.Store.{find_document, next_operation_id}
use lcloud.Db.Session.{World, Env}
use lcloud.Db.Owner.{create_document}
use lcloud.Db.Requests.{owner, create, serve, serve_all}
use lcloud.Restore.Replay.{replay_all, of_collection, Returns, SameRow}
use lcloud.Backup.{Row, Segment, Sent, Send, Ready, Vault, pending_rows, last_uploaded, backup_once}
use lcloud.Backup.Cursor.{IsAscending}
use lcloud.Backup.Invariant.{sent_rows}
use lcloud.Backup.Runs.{Call, backup_rounds, empty_vault, empty_vault-IsBacked}
use lcloud.Backup.Drained.{Sends, backup_turns, backup_turns-drained}
use lcloud.Backup.Restored.{operation_of, replay_all-sent_rows}
use lcloud.Tests.Documents.{
  notes, empty_db, notes_db, world, env, to_notes, titled, shown, no_document,
}

abbrev ready : Ready
ready = record { enabled = true; is_started = true; is_admin_authorized = true }

-- The client that takes every file, and the one that is out of reach.
abbrev takes : Send
takes s ms = some (length ms)

abbrev loses : Send
loses s ms = none

abbrev round : Send → ℕ → Call
round send now = record { send = send; ready = ready; now = now; batch_limit = 2 }

abbrev written : ℕ → String → JsonOperation
written id doc_id = record {
  id = id;
  collection_id = 1;
  doc_id = some doc_id;
  owner_uid = none;
  op = "create";
  payload_json = lcloud.Json.json_dumps (titled "one");
  created_at = id;
}

-- Three operations of the collection.
abbrev pub logged_db : Db
logged_db = record notes_db { operations = written 1 "a" ∷ written 2 "b" ∷ written 5 "c" ∷ [] }

logged_db-IsAscending : IsAscending logged_db
logged_db-IsAscending = omega arith

abbrev calls : List Call
calls = round takes 10 ∷ round loses 20 ∷ []

takes-Sends : Sends takes
takes-Sends s ms e = cc

three_fit : length (pending_rows 4 0 logged_db) ≤ 4
unfolding pending_rows lcloud.Backup.join_rows lcloud.Base.Ascending.sort_by
    lcloud.Base.Ascending.insert_by
three_fit = omega arith

last_of_none : last_uploaded 4 [] ≡ 0
unfolding last_uploaded
last_of_none = refl

backup_turns-drained_example :
    pending_rows 4
      (last_uploaded 4 (backup_turns takes 2 logged_db 4 (10 ∷ 20 ∷ []) (empty_vault [])).states)
      logged_db
    ≡ []
backup_turns-drained_example =
    backup_turns-drained takes 2 logged_db 4 (10 ∷ 20 ∷ []) (empty_vault []) _ logged_db-IsAscending
      (empty_vault-IsBacked [] logged_db logged_db-IsAscending) takes-Sends refl
      (rw last_of_none three_fit)

abbrev served : World
served = serve_all ((env 1, create (owner to_notes) (some "a") (titled "one")) ∷ []) world

abbrev uploaded : Vault
uploaded = backup_rounds (round takes 10 ∷ []) served.db (empty_vault [])

nothing_left : pending_rows 4 (last_uploaded 4 uploaded.states) served.db ≡ []
unfolding serve_all serve create_document lcloud.Db.Session.◌>>=◌
    lcloud.Db.Session.validate_collection_name lcloud.Db.Session.guard
    lcloud.Db.Names.is_collection_name lcloud.Db.Session.transaction
    lcloud.Db.Session.get_collection_or_404 lcloud.Db.Store.find_collection
    lcloud.Db.Session.validate_doc_id lcloud.Db.Names.doc_id_re lcloud.Db.Session.modify_db
    find_document lcloud.Db.Writes.log_row lcloud.Db.Store.add_operation
    lcloud.Db.Store.save_document lcloud.Db.Writes.chosen_id lcloud.Db.Session.modify_cache
    lcloud.Db.Writes.put_row lcloud.Db.Store.touch_collection lcloud.Db.Writes.upserted
    next_operation_id pending_rows lcloud.Backup.join_rows lcloud.Base.Ascending.sort_by
    lcloud.Base.Ascending.insert_by last_uploaded backup_rounds backup_once lcloud.Backup.backup_all
    lcloud.Backup.backup_database lcloud.Backup.build_segment lcloud.Backup.segment_of
    lcloud.Backup.upload_segment lcloud.Backup.mark_uploaded lcloud.Backup.marked
    lcloud.Backup.move_cursor lcloud.Backup.is_recorded lcloud.Backup.databases_with_pending
    lcloud.Backup.distinct lcloud.Backup.all_rows lcloud.Backup.telegram_chat
nothing_left = refl

kept :
    lcloud.Base.find_if (λ x. x.id == 1) served.db.collections
    ≡ some (record notes { updated_at = 1 })
unfolding serve_all serve create_document lcloud.Db.Session.◌>>=◌
    lcloud.Db.Session.validate_collection_name lcloud.Db.Session.guard
    lcloud.Db.Names.is_collection_name lcloud.Db.Session.transaction
    lcloud.Db.Session.get_collection_or_404 lcloud.Db.Store.find_collection
    lcloud.Db.Session.validate_doc_id lcloud.Db.Names.doc_id_re lcloud.Db.Session.modify_db
    find_document lcloud.Db.Writes.log_row lcloud.Db.Store.add_operation
    lcloud.Db.Store.save_document lcloud.Db.Writes.chosen_id lcloud.Db.Session.modify_cache
    lcloud.Db.Writes.put_row lcloud.Db.Store.touch_collection lcloud.Db.Writes.upserted
    next_operation_id
kept = refl

replay_all-sent_rows_example :
    Returns
      (replay_all shown 7 (of_collection 1 (map operation_of (sent_rows 4 uploaded.sent))) empty_db)
      (λ r.
        (d : String)
        → SameRow (find_document 7 d r.documents) (find_document 1 d served.db.documents))
replay_all-sent_rows_example =
    replay_all-sent_rows shown ((env 1, create (owner to_notes) (some "a") (titled "one")) ∷ [])
      world (round takes 10 ∷ []) [] empty_db 7 1 4 (record notes { updated_at = 1 }) refl refl
      no_document refl kept refl nothing_left
