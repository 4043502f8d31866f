-- ===== src/Restore/Requests.antt =====
-- The requests of lcloud/api/json_db.py and the replay of lcloud/userbot/db_restore.py together.
use lcloud.Base.{
  ℕ, refl, String, ◌≡◌, sym, Bool, true, false, not, Option, none, List, [], ◌∷◌, arith, ◌==◌,
  keep_if, if◌then◌else◌,
}
use mathlib.Core.Path.{subst}
use lcloud.Db.Rows.{JsonDocument, JsonOperation, Db}
use lcloud.Db.Store.{find_document}
use lcloud.Db.Session.{World, Env}
use lcloud.Db.Owner.Collections.{drop_collection}
use lcloud.Db.Requests.{Request, serve_all}
use lcloud.Db.Requests.Preserved.{serve_all-preserves}
use lcloud.Json.{Json}
use lcloud.Restore.{find_operation}
use lcloud.Restore.Recorded.{Matches, Fresh}
use lcloud.Restore.Replay.{of_collection, replay_all, Returns, SameRow}
use lcloud.Restore.Faithful.{Returns-map}
use lcloud.Restore.Logged.{IsLogged, Change-IsLogged}

of_collection-dropped :
    (c id : ℕ) (ops : List JsonOperation)
    → of_collection c (keep_if (λ o. not (o.collection_id == id)) ops)
      ≡ (if c == id then [] else of_collection c ops)
of_collection-dropped c id [] = ground arith
of_collection-dropped c id (o ∷ ops) = ground (arith, of_collection-dropped c id ops)

find_document-dropped :
    (c id : ℕ) (d : String) (rows : List JsonDocument)
    → find_document c d (keep_if (λ row. not (row.collection_id == id)) rows)
      ≡ (if c == id then none else find_document c d rows)
unfolding find_document
find_document-dropped c id d [] = ground arith
find_document-dropped c id d (row ∷ rows) = ground (arith, find_document-dropped c id d rows)

-- The log of a dropped collection is empty, and so is the collection.
dropped-ReplaysTo :
    (shown : Json → String) (start : Db) (target c : ℕ) (b : Bool) (ops : List JsonOperation)
    (rows : String → Option JsonDocument) (left : List JsonDocument)
    → ((d : String) → find_document target d start.documents ≡ none)
    → start.operations ≡ []
    → ((d : String) → find_document c d left ≡ (if b then none else rows d))
    → Returns
        (replay_all shown target ops start)
        (λ r. ((d : String) → SameRow (find_document target d r.documents) (rows d)) × Fresh ops r)
    → let l : List JsonOperation = if b then [] else ops in
      Returns (replay_all shown target l start) (Matches target c l left)
unfolding replay_all find_operation
dropped-ReplaysTo shown start target c true ops rows left e f g h = record {
  same = λ d. rw (e d, g d) tt;
  fresh = λ n p. rw f refl;
}
dropped-ReplaysTo shown start target c false ops rows left e f g h =
    Returns-map (replay_all shown target ops start) h
      (λ r m. record { same = λ d. rw (g d) (m.0 d); fresh = m.1 })

drop-IsLogged :
    (shown : Json → String) (id : ℕ) (db : Db)
    → IsLogged shown db
    → IsLogged shown (drop_collection id db)
unfolding drop_collection
drop-IsLogged shown id db h = record {
  at = λ start target c e f.
      subst
        (λ ops.
          Returns (replay_all shown target ops start)
            (Matches target c ops (keep_if (λ row. not (row.collection_id == id)) db.documents)))
        (sym (of_collection-dropped c id db.operations))
        (dropped-ReplaysTo shown start target c (c == id) _ (λ d. find_document c d db.documents) _
          e f (λ d. find_document-dropped c id d db.documents)
          (Returns-map (replay_all shown target _ start) (h.at start target c e f)
            (λ r m. (m.same, m.fresh))));
}

empty-IsLogged :
    (shown : Json → String) (db : Db) → db.operations ≡ [] → db.documents ≡ [] → IsLogged shown db
unfolding find_document replay_all find_operation
empty-IsLogged shown db ops rows = record {
  at = λ start target c e f.
      rw (ops, rows) (record { same = λ d. rw (e d) tt; fresh = λ n p. rw f refl });
}

-- From tables that hold no document and no operation, serve any sequence of create, set, patch and delete
-- requests (of the owner, by a collection's id or by a publishable key), of batches and reads of the
-- owner, and of changes of a collection's rules or validator and deletions of it, whatever each replies.
-- Then the operations of any collection, replayed in order into a collection that has no documents, in tables
-- that hold no operation, are all accepted, whatever `str` makes of a JSON value, and leave for every
-- document id a row exactly when the source has one, equal in owner, data, version and whether it is
-- deleted.
pub replay_all-serve_all :
    (shown : Json → String) (rs : List (Env × Request)) (w : World) (start : Db) (target c : ℕ)
    → w.db.operations ≡ []
    → w.db.documents ≡ []
    → ((d : String) → find_document target d start.documents ≡ none)
    → start.operations ≡ []
    → let db = (serve_all rs w).db in
      Returns (replay_all shown target (of_collection c db.operations) start) (λ r.
        (d : String)
        → SameRow (find_document target d r.documents) (find_document c d db.documents))
replay_all-serve_all shown rs w start target c ops rows e f =
    Returns-map (replay_all shown target (of_collection c (serve_all rs w).db.operations) start)
      ((serve_all-preserves (IsLogged shown) (λ s t. Change-IsLogged shown) (drop-IsLogged shown) rs
          w (empty-IsLogged shown w.db ops rows)).at
        start target c e f)
      (λ r m. m.same)
