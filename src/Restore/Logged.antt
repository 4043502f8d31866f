-- ===== src/Restore/Logged.antt =====
-- The logs of the collections of lcloud/api/json_db.py, for the replay of lcloud/userbot/db_restore.py.

use lcloud.Base.{ℕ, String, refl, ◌≡◌, inl, inr, Option, none, List, [], arith, ◌==◌, Bool-cases}
use lcloud.Json.{Json, Fields}
use lcloud.Db.Rows.{Db, JsonOperation, JsonDocument}
use lcloud.Db.Store.{add_operation, find_document}
use lcloud.Db.Changes.{Change, done, log, note, touch, IsCollectionOp}
use lcloud.Restore.{Outcome, ok, error, ◌>>=◌, replay_effect}
use lcloud.Restore.Replay.{Returns, replay_all, of_collection}
use lcloud.Restore.Recorded.{Matches}
use lcloud.Restore.Faithful.{ReplaysTo, log_row-ReplaysTo, next-Matches, other-Matches}

-- The log of every collection, replayed into one that has no documents and with no operation's id taken,
-- gives back its documents.
pub record IsLogged (shown : Json → String) (db : Db) : Type 0 where
  pub at :
      (start : Db) (target c : ℕ)
      → ((d : String) → find_document target d start.documents ≡ none)
      → start.operations ≡ []
      → ReplaysTo shown start target c db.operations db.documents

-- An operation on the collection itself replays, and changes no document.
collection_effect :
    (shown : Json → String) (target c : ℕ) (o : JsonOperation) (ops : List JsonOperation)
    (rows : List JsonDocument) (m : Outcome Db)
    → IsCollectionOp o.op
    → Returns m (Matches target c ops rows)
    → Returns (m >>= replay_effect shown target o) (Matches target c ops rows)
unfolding replay_effect
collection_effect shown target c o ops rows (ok r) (inl e) h =
    rw (e, replay_effect) (record { same = h.same; fresh = h.fresh })
collection_effect shown target c o ops rows (ok r) (inr e) h =
    rw (e, replay_effect) (record { same = h.same; fresh = h.fresh })
collection_effect shown target c o ops rows (error x) e h = absurd h

note-ReplaysTo :
    (c k : ℕ) (op : String) (payload : Fields) (uid : Option String) (now : ℕ)
    (shown : Json → String) (start : Db) (target : ℕ) (db : Db)
    → IsCollectionOp op
    → ReplaysTo shown start target c db.operations db.documents
    → let db' = add_operation k none op payload uid now db in
      ReplaysTo shown start target c db'.operations db'.documents
unfolding add_operation
note-ReplaysTo c k op payload uid now shown start target db n h = elim (Bool-cases (k == c)) [
  | inl own ↦ next-Matches shown start target c db.operations db.documents _ (omega arith) own (
      collection_effect shown target c _ _ _
        (replay_all shown target (of_collection c db.operations) start) n h)
  | inr other ↦
      other-Matches shown start target c db.operations db.documents _ _ other (λ d. refl) h
]

pub Change-IsLogged :
    {s t : Db} (shown : Json → String) → Change s t → IsLogged shown s → IsLogged shown t
Change-IsLogged shown done h = h
Change-IsLogged shown (log {t} p st at) h = record {
  at = λ start target c e f.
      log_row-ReplaysTo shown start target c t st at
        ((Change-IsLogged shown p h).at start target c e f);
}
Change-IsLogged shown (note {t} k op payload uid now n p) h = record {
  at = λ start target c e f.
      note-ReplaysTo c k op payload uid now shown start target t n
        ((Change-IsLogged shown p h).at start target c e f);
}
Change-IsLogged shown (touch cs p) h = record {
  at = λ start target c e f. (Change-IsLogged shown p h).at start target c e f;
}
