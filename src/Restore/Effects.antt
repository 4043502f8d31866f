-- ===== src/Restore/Effects.antt =====
-- The effect of one operation, as the replay of lcloud/userbot/db_restore.py has it.
use mathlib.Core.Path.{subst}
use lcloud.Base.{
  ℕ, String, ◌≡◌, refl, sym, Bool, true, false, Option, some, List, arith, ◌==◌, ◌&&◌,
  if◌then◌else◌, str_eq, eq_iff, inl, inr,
}
use lcloud.Json.{Json, Fields, json_dumps}
use lcloud.Db.Rows.{JsonDocument, JsonOperation, Db}
use lcloud.Db.Store.{find_document, save_document, touch_collection}
use lcloud.Db.Store.Laws.{find-save}
use lcloud.Db.Changes.{RowStep, write_new, rewrite, patch, delete, IsAt, find_document-IsAt}
use lcloud.Restore.{Outcome, ok, error, ◌>>=◌, replay_effect, replay_document_operation}
use lcloud.Restore.Replay.{SameRow, Returns, replay_row-SameRow}
use lcloud.Restore.Recorded.{Matches}

same_doc_test :
    (c : ℕ) (d e : String) (row : JsonDocument)
    → IsAt c d row
    → (row.collection_id == c && str_eq row.doc_id e) ≡ str_eq d e
same_doc_test c d e row at = ground (arith, eq_iff row.doc_id e, eq_iff d e)

SameRow-if :
    (b : Bool) (x y x' y' : Option JsonDocument)
    → SameRow x y
    → SameRow x' y'
    → SameRow (if b then x else x') (if b then y else y')
SameRow-if true x y x' y' p q = p
SameRow-if false x y x' y' p q = q

-- Saving rows that agree keeps the tables in agreement.
saved-SameRow :
    (target c : ℕ) (d e : String) (row' row : JsonDocument) (rows' rows : List JsonDocument)
    → IsAt c d row
    → IsAt target d row'
    → SameRow (some row') (some row)
    → SameRow (find_document target e rows') (find_document c e rows)
    → SameRow
        (find_document target e (save_document row' rows'))
        (find_document c e (save_document row rows))
saved-SameRow target c d e row' row rows' rows at at' same h =
    rw (find-save, find-save, same_doc_test target d e row' at', same_doc_test c d e row at)
      (SameRow-if (str_eq d e) _ _ _ _ same h)

save_result :
    (target now c : ℕ) (d : String) (row : JsonDocument) (ops : List JsonOperation)
    (rows : List JsonDocument) (r : Db) (m : Outcome JsonDocument)
    → IsAt c d row
    → Matches target c ops rows r
    → Returns m (λ row'. SameRow (some row') (some row) × IsAt target d row')
    → Returns
        (m >>= λ row'.
          ok
            (touch_collection target now (record r { documents = save_document row' r.documents })))
        (Matches target c ops (save_document row rows))
unfolding touch_collection
save_result target now c d row ops rows r (error x) at h q = absurd q
save_result target now c d row ops rows r (ok row') at h q = record {
  same = λ e. saved-SameRow target c d e row' row r.documents rows at q.1 q.0 (h.same e);
  fresh = h.fresh;
}

-- A change of a document is logged under a name that the replay takes for one.
pub document_effect :
    {now c : ℕ} {d : String} {old : Option JsonDocument} {row : JsonDocument} {op : String}
    {payload : Fields} {uid : Option String} (shown : Json → String) (target k id : ℕ) (r : Db)
    → RowStep now c d old row op payload uid
    → replay_effect shown target
        (record {
          id = id;
          collection_id = k;
          doc_id = some d;
          owner_uid = uid;
          op = op;
          payload_json = json_dumps payload;
          created_at = now;
        })
        r
      ≡ replay_document_operation now target d op payload uid r
unfolding replay_effect
document_effect shown target k id r (write_new uid contents db) = refl
document_effect shown target k id r (rewrite row op contents uid h e) = elim h [
  | inl create ↦ rw create refl
  | inr set ↦ rw set refl
]
document_effect shown target k id r (patch row contents uid) = refl
document_effect shown target k id r (delete row uid) = refl

-- The effect of one more operation, for the result of replaying those before it.
pub effect-Matches :
    (shown : Json → String) (target now c k id : ℕ) (d : String) (row : JsonDocument) (op : String)
    (payload : Fields) (uid : Option String) (ops : List JsonOperation) (rows : List JsonDocument)
    (m : Outcome Db)
    → RowStep now c d (find_document c d rows) row op payload uid
    → IsAt c d row
    → Returns m (Matches target c ops rows)
    → Returns
        (m
          >>= replay_effect shown target (record {
            id = id;
            collection_id = k;
            doc_id = some d;
            owner_uid = uid;
            op = op;
            payload_json = json_dumps payload;
            created_at = now;
          }))
        (Matches target c ops (save_document row rows))
unfolding replay_document_operation
effect-Matches shown target now c k id d row op payload uid ops rows (error e) st at h = absurd h
effect-Matches shown target now c k id d row op payload uid ops rows (ok r) st at h =
    subst (λ m. Returns m (Matches target c ops (save_document row rows)))
      (sym (document_effect shown target k id r st))
      (save_result target now c d row ops rows r _ at h (
        replay_row-SameRow target (find_document target d r.documents) r st (h.same d)
          (find_document-IsAt target d r.documents)))
