-- ===== src/Backup.antt =====
-- lcloud/userbot/db_backup.py: the upload of the operation logs to Telegram, in segments.
--
-- A segment is what the gzipped JSON file holds: its sha256, its size and its file's name are made from
-- it by other libraries and are not kept. `send_file` of the Telegram client is an argument: for a
-- segment and what was sent before, the id of the message, or none where it raises. `sent` is the
-- messages that Telegram has. `now` is the time of `sa.func.now()`. Each round sees the tables of the
-- document database as they are.
mod Rows
pub mod Cursor
pub mod Invariant
pub mod Rounds
pub mod Runs
pub mod Drained
pub mod Restored
pub use Rows.{JsonBackupState, Chat, JsonBackupSegment, Cloud, Row, Segment, Sent, Vault, me, chat}
use lcloud.Base.{
  ℕ, suc, ◌+◌, ◌-◌, String, Bool, true, false, ◌&&◌, ◌||◌, not, Option, none, some, List, [], ◌∷◌,
  ◌++◌, ltb, ◌==◌, if◌then◌else◌, find_if, any_of, keep_if, take, length, max, max_of, map,
}
use lcloud.Base.Ascending.{sort_by}
use lcloud.Base.Int.{ℤ}
use lcloud.Db.Rows.{JsonDatabase, JsonCollection, JsonOperation, Db}

abbrev pub row_id : Row → ℕ
row_id r = r.operation.id

-- `state.last_operation_id if state is not None else 0`
unfoldable pub last_uploaded : ℕ → List JsonBackupState → ℕ
last_uploaded database_id [] = 0
last_uploaded database_id (s ∷ states) =
    if s.database_id == database_id then s.last_operation_id else last_uploaded database_id states

-- The join of the operations with the collections of one database.
unfoldable pub join_rows : ℕ → List JsonCollection → List JsonOperation → List Row
join_rows database_id collections [] = []
join_rows database_id collections (o ∷ ops) =
    let rest = join_rows database_id collections ops in
    elim (find_if (λ c. c.id == o.collection_id) collections) [
      | none ↦ rest
      | some c ↦
          if c.database_id == database_id
          then record { operation = o; collection = c } ∷ rest
          else rest
    ]

-- The rows of the query in `_build_segment_file`, before its limit.
unfoldable pub pending_rows : ℕ → ℕ → Db → List Row
pending_rows database_id last db =
    keep_if (λ r. ltb last (row_id r))
      (sort_by row_id (join_rows database_id db.collections db.operations))

unfoldable pub telegram_chat : JsonDatabase → List Cloud → Chat
telegram_chat database clouds = elim database.cloud_id [
  | none ↦ me
  | some id ↦ elim (find_if (λ c. c.id == id) clouds) [
    | none ↦ me
    | some cloud ↦ chat cloud.chat_id
  ]
]

-- What `_build_segment_file` comes to: `scalar_one` raises where the database has no row.
pub data Built : Type 0 where
  raised nothing : Built
  built : Segment → Built

-- `rows[-1][0].id`
abbrev pub last_row_id : Row → List Row → ℕ
last_row_id r [] = row_id r
last_row_id r (s ∷ rows) = last_row_id s rows

unfoldable pub segment_of : JsonDatabase → Chat → List Row → Built
segment_of database to [] = nothing
segment_of database to (r ∷ rows) = built (record {
  database_id = database.id;
  owner_user_id = database.owner_user_id;
  telegram_chat = to;
  first_operation_id = row_id r;
  last_operation_id = last_row_id r rows;
  operation_count = length (r ∷ rows);
  operations = r ∷ rows;
})

unfoldable pub build_segment : ℕ → ℕ → Db → Vault → Built
build_segment database_id batch_limit db v =
    let rows =
      take batch_limit (pending_rows database_id (last_uploaded database_id v.states) db) in
    elim (find_if (λ d. d.id == database_id) db.databases) [
      | none ↦ raised
      | some database ↦ segment_of database (telegram_chat database v.clouds) rows
    ]

-- The state's row is added, or its cursor moves up.
unfoldable pub move_cursor : Segment → ℕ → List JsonBackupState → List JsonBackupState
move_cursor s now [] =
    record {
      database_id = s.database_id;
      owner_user_id = s.owner_user_id;
      last_operation_id = s.last_operation_id;
      updated_at = now;
    }
    ∷ []
move_cursor s now (state ∷ states) =
    if state.database_id == s.database_id
    then record state {
      last_operation_id = max state.last_operation_id s.last_operation_id;
      updated_at = now;
    }
      ∷ states
    else state ∷ move_cursor s now states

-- The unique constraint on the database and the range.
unfoldable pub is_recorded : ℕ → ℕ → ℕ → List JsonBackupSegment → Bool
is_recorded database_id first last segments =
    any_of
      (λ row.
        row.database_id == database_id
        && (row.first_operation_id == first && row.last_operation_id == last))
      segments

-- The segment's row, and the state.
unfoldable pub marked : Segment → ℕ → ℕ → Vault → Vault
marked s message_id now v = record v {
  segments =
      v.segments
      ++ record {
        database_id = s.database_id;
        owner_user_id = s.owner_user_id;
        first_operation_id = s.first_operation_id;
        last_operation_id = s.last_operation_id;
        operation_count = s.operation_count;
        telegram_chat = s.telegram_chat;
        telegram_message_id = message_id;
        uploaded_at = now;
      }
        ∷ [];
  states = move_cursor s now v.states;
}

-- `_mark_segment_uploaded`; none where the commit breaks the constraint.
unfoldable pub mark_uploaded : Segment → ℕ → ℕ → Vault → Option Vault
mark_uploaded s message_id now v =
    if is_recorded s.database_id s.first_operation_id s.last_operation_id v.segments
    then none
    else some (marked s message_id now v)

abbrev pub Send : Type 0
Send = Segment → List Sent → Option ℕ

-- How a round ends: with the count of uploads, or by an exception that leaves what it found.
pub data Round : Type 0 where
  returned : ℕ → Vault → Round
  failed : Vault → Round

abbrev pub vault_of : Round → Vault
vault_of (returned n v) = v
vault_of (failed v) = v

-- The upload of one segment and its mark.
unfoldable pub upload_segment : Send → ℕ → Segment → Vault → Round
upload_segment send now s v = elim (send s v.sent) [
  | none ↦ failed v
  | some message_id ↦
      (let sent : Vault = record v {
        sent = v.sent ++ record { message_id = message_id; segment = s } ∷ [];
      } in
        elim (mark_uploaded s message_id now sent) [ none ↦ failed sent | some v' ↦ returned 1 v' ])
]

-- One turn of the loop of `backup_once`.
unfoldable pub backup_database : Send → ℕ → ℕ → Db → ℕ → Vault → Round
backup_database send now batch_limit db database_id v =
    elim (build_segment database_id batch_limit db v) [
      | raised ↦ failed v
      | nothing ↦ returned 0 v
      | built s ↦ upload_segment send now s v
    ]

unfoldable pub backup_all : Send → ℕ → ℕ → Db → List ℕ → ℕ → Vault → Round
backup_all send now batch_limit db [] uploaded v = returned uploaded v
backup_all send now batch_limit db (d ∷ ds) uploaded v =
    elim (backup_database send now batch_limit db d v) [
      | returned n v' ↦ backup_all send now batch_limit db ds (uploaded + n) v'
      | failed v' ↦ failed v'
    ]

-- Each number once, where it first stands.
unfoldable pub distinct : List ℕ → List ℕ
distinct [] = []
distinct (n ∷ ns) = let rest = distinct ns in n ∷ keep_if (λ m. not (m == n)) rest

-- The join of all operations with their collections.
unfoldable pub all_rows : List JsonCollection → List JsonOperation → List Row
all_rows collections [] = []
all_rows collections (o ∷ ops) =
    let rest = all_rows collections ops in
    elim (find_if (λ c. c.id == o.collection_id) collections) [
      | none ↦ rest
      | some c ↦ record { operation = o; collection = c } ∷ rest
    ]

-- `_databases_with_pending_operations`: grouped by database, by the least pending operation.
unfoldable pub databases_with_pending : ℕ → Db → Vault → List ℕ
databases_with_pending limit db v = take limit (
    distinct (
      map (λ r. r.collection.database_id)
        (keep_if (λ r. ltb (last_uploaded r.collection.database_id v.states) (row_id r))
          (sort_by row_id (all_rows db.collections db.operations)))))

-- What `backup_once` asks of the settings and the Telegram manager.
pub record Ready : Type 0 where
  pub enabled : Bool
  pub is_started : Bool
  pub is_admin_authorized : Bool

unfoldable pub backup_once : Send → Ready → ℕ → ℕ → Db → Vault → Round
backup_once send ready now batch_limit db v =
    if ready.enabled && (ready.is_started && ready.is_admin_authorized)
    then backup_all send now batch_limit db (databases_with_pending batch_limit db v) 0 v
    else returned 0 v

-- `get_json_db_backup_status`: the counters of its reply.
pub record BackupStatus : Type 0 where
  pub last_local_operation_id : ℕ
  pub last_backed_up_operation_id : ℕ
  pub lag_operations : ℕ

unfoldable pub backup_status : ℕ → ℕ → Db → Vault → BackupStatus
backup_status owner_user_id database_id db v =
    let latest = max_of row_id (
      keep_if (λ r. r.collection.owner_user_id == owner_user_id)
        (join_rows database_id db.collections db.operations)) in
    record {
      last_local_operation_id = latest;
      last_backed_up_operation_id = last_uploaded database_id v.states;
      lag_operations = latest - last_uploaded database_id v.states;
    }
