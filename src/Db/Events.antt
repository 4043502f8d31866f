-- ===== src/Db/Events.antt =====
-- lcloud/api/json_db.py: the streams of the changes of a collection.
pub mod Order
use lcloud.Base.{
  ℕ, ◌+◌, String, Bool, true, false, ◌&&◌, Option, none, some, List, [], ◌∷◌, ◌++◌, ltb, ◌==◌,
  str_eq, option_str_eq, if◌then◌else◌, keep_if, take,
}
use lcloud.Base.Ascending.{sort_by, last_key}
use lcloud.Db.Rows.{JsonCollection, JsonOperation, Db}
use lcloud.Db.Errors.{read, collection_not_found, access_denied, Reply, ok, raise}
use lcloud.Db.Access.{Caller, can_access, app_uid, user}
use lcloud.Db.Store.{find_collection_by_id}
use lcloud.Db.Owner.{Target}
use lcloud.Db.PublicKey.{get_collection_by_public_key_or_404}
use lcloud.Db.Session.{
  Env, Handler, pure, ◌>>=◌, ◌>>◌, validate_collection_name, get_collection_or_404,
  get_collection_by_id_or_404, enforce_public_rate, require_collection_access,
}

-- `EVENT_STREAM_BATCH_LIMIT`
abbrev pub event_stream_batch_limit : ℕ
event_stream_batch_limit = 100

-- An app user of a collection whose documents have owners is shown the operations of its own.
unfoldable pub is_shown : JsonCollection → Caller → JsonOperation → Bool
is_shown coll caller o = elim (app_uid caller) [
  | none ↦ true
  | some uid ↦
      if str_eq coll.read_rule "document_owner" then option_str_eq o.owner_uid (some uid) else true
]

-- The rows of one turn of the loop.
unfoldable pub events_after : JsonCollection → Caller → ℕ → ℕ → Db → List JsonOperation
events_after coll caller collection_id last_id db = take event_stream_batch_limit (
    keep_if (λ o. ltb last_id o.id && (o.collection_id == collection_id && is_shown coll caller o))
      (sort_by (λ (o : JsonOperation). o.id) db.operations))

unfoldable pub poll : Caller → ℕ → ℕ → Db → Reply (List JsonOperation)
poll caller collection_id last_id db = elim (find_collection_by_id collection_id db) [
  | none ↦ raise collection_not_found
  | some coll ↦
      if can_access coll caller read none
      then ok (events_after coll caller collection_id last_id db)
      else raise access_denied
]

-- A frame of the stream.
pub data SseFrame : Type 0 where
  change : JsonOperation → SseFrame
  keepalive : SseFrame

abbrev pub changes : List JsonOperation → List SseFrame → List SseFrame
changes [] rest = rest
changes (o ∷ ops) rest = change o ∷ changes ops rest

abbrev pub turn_frames : List JsonOperation → List SseFrame → List SseFrame
turn_frames [] rest = keepalive ∷ rest
turn_frames (o ∷ ops) rest = changes (o ∷ ops) rest

-- `_stream_collection_events`: each turn of the loop sees the tables as they are then, until the client
-- has gone. An error ends the stream.
unfoldable pub stream_events : Caller → ℕ → Bool → ℕ → List Db → List SseFrame
stream_events caller collection_id once last_id [] = []
stream_events caller collection_id once last_id (db ∷ dbs) =
    elim (poll caller collection_id last_id db) [
      | raise e ↦ []
      | ok rows ↦
          (let rest =
              stream_events caller collection_id once
                (last_key (λ (o : JsonOperation). o.id) last_id rows) dbs in
            if once then changes rows [] else turn_frames rows rest)
    ]

-- The handlers that open a stream, up to the id of its collection.
unfoldable pub stream_collection_events : Target → Handler ℕ
stream_collection_events t = do
  validate_collection_name t.collection
  coll ← get_collection_or_404 t.user_id t.database_id t.database_key t.collection
  pure coll.id

unfoldable pub public_stream_collection_events : Env → ℕ → Option ℕ → Handler ℕ
public_stream_collection_events env collection_id user_id = do
  enforce_public_rate env read
  coll ← get_collection_by_id_or_404 collection_id
  require_collection_access coll (user user_id) read none
  pure collection_id

unfoldable pub public_key_stream_collection_events : Env → String → String → Caller → Handler ℕ
public_key_stream_collection_events env key name caller = do
  enforce_public_rate env read
  validate_collection_name name
  coll ← get_collection_by_public_key_or_404 env key name
  require_collection_access coll caller read none
  pure coll.id
