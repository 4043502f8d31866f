-- ===== src/Tests/Documents.antt =====
-- Requests on the documents of one collection, at fixed inputs.
use mathlib.Core.Logic.{◌↔◌}
use lcloud.Base.Int
use lcloud.Base.{
  not, ◌||◌, is_some, ℕ, String, ◌≡◌, ◌≢◌, refl, true, false, none, some, List, [], ◌∷◌, ◌++◌,
}
use lcloud.Db.Validator.{validate_public_write, texts, is_nil}
use lcloud.Db.Validator.Laws.{is_among, validate_public_write-fields}
use lcloud.Json.{
  Items, cons, nil, arr, lookup, keys, json_dumps, Json, Fields, JsonText, end, field, str, int,
}
use lcloud.RateLimiter.{RateLimiter}
use lcloud.Cache
use lcloud.Db.Errors.{raise, document_not_found, write}
use lcloud.Db.Rows.{JsonCollection, JsonDocument, JsonOperation, Db}
use lcloud.Db.Store.{find_document}
use lcloud.Db.Access.{Caller, principal, can_access}
use lcloud.Db.Access.Laws.{IsAllowed, can_access-IsAllowed}
use lcloud.Db.Session.{World, Env}
use lcloud.Db.Owner.{Target}
use lcloud.Db.Owner.Batch
use lcloud.Db.Owner.Batch.{batch_documents}
use lcloud.Db.Changes.History.{Continues}
use lcloud.Db.Requests.{
  Request, owner, by_id, create, set, patch, delete, drop_collection, serve, serve_all,
}
use lcloud.Db.Requests
use lcloud.Db.Requests.History.{serve-history}
use lcloud.Restore.Replay.{replay_all, of_collection, Returns, SameRow}
use lcloud.Restore.Requests.{replay_all-serve_all}

abbrev pub notes : JsonCollection
notes = record {
  id = 1;
  database_id = 4;
  owner_user_id = 9;
  name = "notes";
  read_rule = "public";
  write_rule = "document_owner";
  write_validator_json = none;
  created_at = 0;
  updated_at = 0;
}

abbrev pub empty_db : Db
empty_db = record {
  databases = [];
  public_keys = [];
  collections = [];
  documents = [];
  operations = [];
}

abbrev pub notes_db : Db
notes_db = record empty_db {
  databases =
      record {
        id = 4;
        owner_user_id = 9;
        cloud_id = none;
        database_key = "lcdb_a";
        is_default = true;
      }
      ∷ [];
  collections = notes ∷ [];
}

abbrev limiter : RateLimiter
limiter = record { capacity = 5; refill = 60; buckets = [] }

abbrev pub world : World
world = record {
  db = notes_db;
  cache = Cache.create 60 100 10000 true;
  read_rate = limiter;
  write_rate = limiter;
}

abbrev pub env : ℕ → Env
env now = record {
  now = now;
  tick = now;
  client_ip = "10.0.0.1";
  new_doc_id = λ n. "doc_new";
  estimate_size = λ body. 50;
  document_ttl = 30;
  query_ttl = 10;
  public_key_ttl = 60;
}

abbrev pub to_notes : Target
to_notes = record { user_id = 9; database_id = none; database_key = none; collection = "notes" }

abbrev pub titled : String → Fields
titled title = field "title" (str title) end

-- The third is by a visitor, whom the rule of the collection keeps out.
abbrev requests : List (Env × Request)
requests =
    (env 1, create (owner to_notes) (some "a") (titled "one"))
    ∷ (env 2, patch (by_id 1 (some 9)) "a" (field "n" (int (Int.pos 2)) end))
    ∷ (env 3, set (by_id 1 none) "a" (titled "two"))
    ∷ (env 4, set (owner to_notes) "b" (titled "three"))
    ∷ (env 5, Requests.batch to_notes (Batch.create none (titled "four") ∷ Batch.delete "b" ∷ []))
    ∷ (env 6, delete (owner to_notes) "a")
    ∷ []

-- `str` on the texts, and nothing on the other values.
abbrev pub shown : Json → String
shown (str s) = s
shown _ = ""

pub no_document : (d : String) → find_document 7 d empty_db.documents ≡ none
unfolding find_document
no_document d = refl

replay_all-serve_all_example :
    let db = (serve_all requests world).db in
    Returns
      (replay_all shown 7 (of_collection 1 db.operations) empty_db)
      (λ r. (d : String) → SameRow (find_document 7 d r.documents) (find_document 1 d db.documents))
replay_all-serve_all_example =
    replay_all-serve_all shown requests world empty_db 7 1 refl refl no_document refl

not_drop : (t : Target) → set (owner to_notes) "a" (titled "four") ≢ Requests.drop_collection t
not_drop t e = cc

abbrev served : World
served = serve_all requests world

serve-history_example :
    let w = serve (env 6) (set (owner to_notes) "a" (titled "four")) served in
    Continues (find_document 1 "a" served.db.documents) (find_document 1 "a" w.db.documents)
    × ((ops : List JsonOperation) × (w.db.operations ≡ served.db.operations ++ ops))
serve-history_example =
    serve-history (env 6) (set (owner to_notes) "a" (titled "four")) served 1 "a" not_drop

-- An app user of the collection's database, and a document of another one.
abbrev visitor : Caller
visitor =
    principal none (some (record { uid = "app_1"; project_owner_user_id = 9; database_id = 4 }))

abbrev other_row : JsonDocument
other_row = record {
  id = 1;
  collection_id = 1;
  doc_id = "a";
  owner_uid = some "app_2";
  data_json = lcloud.Json.json_dumps (titled "one");
  version = 1;
  created_at = 0;
  updated_at = 0;
  deleted_at = none;
}

can_access_test : can_access notes visitor write (some other_row) ≡ false
unfolding can_access
can_access_test = refl

can_access-IsAllowed_example :
    (can_access notes visitor write (some other_row) ≡ true)
    ↔ IsAllowed notes visitor write (some other_row)
can_access-IsAllowed_example = can_access-IsAllowed notes visitor write (some other_row)

-- The first write is done in the session, and the second finds no document.
abbrev failing : List Batch.BatchWrite
failing = Batch.set "a" (titled "one") ∷ Batch.delete "b" ∷ []

failing_test : (batch_documents (env 1) to_notes failing world).0 ≡ raise document_not_found
unfolding batch_documents Batch.batch_session Batch.write_all Batch.write_one
    lcloud.Db.Session.◌>>=◌ lcloud.Db.Session.validate_collection_name lcloud.Db.Session.guard
    lcloud.Db.Names.is_collection_name lcloud.Db.Session.transaction
    lcloud.Db.Session.get_collection_or_404 lcloud.Db.Store.find_collection
    lcloud.Db.Session.validate_doc_id lcloud.Db.Names.doc_id_re lcloud.Db.Session.modify_db
    lcloud.Db.Session.get_document_or_404 find_document lcloud.Db.Writes.log_row
    lcloud.Db.Store.add_operation lcloud.Db.Store.save_document lcloud.Db.Writes.upserted
failing_test = refl

-- A validator that asks for a title and allows nothing else.
abbrev title_only : Items
title_only = cons (str "title") nil

abbrev title_validator : Fields
title_validator =
    field "required_fields" (arr title_only) (field "allowed_fields" (arr title_only) end)

title_required : lookup "required_fields" title_validator ≡ some (arr title_only)
unfolding lookup
title_required = refl

title_allowed : lookup "allowed_fields" title_validator ≡ some (arr title_only)
unfolding lookup
title_allowed = refl

title_passes : validate_public_write (some (json_dumps title_validator)) (titled "one") ≡ none
unfolding validate_public_write lookup
title_passes = refl

validate_public_write-fields_example :
    ((not (is_among "title" (texts title_only)) || is_some (lookup "title" (titled "one"))) ≡ true)
    × ((is_nil title_only
          || (not (is_among "title" (keys (titled "one"))) || is_among "title" (texts title_only)))
        ≡ true)
validate_public_write-fields_example =
    validate_public_write-fields (json_dumps title_validator) (titled "one") title_only title_only
      "title" title_required title_allowed title_passes
