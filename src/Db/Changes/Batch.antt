-- ===== src/Db/Changes/Batch.antt =====
-- The changes of `batch_documents` of lcloud/api/json_db.py.
use mathlib.Core.Path.{subst, sym}
use lcloud.Base.{ℕ, suc, String, ◌≡◌, refl, Option, none, some, List, [], ◌∷◌}
use lcloud.Json.{Fields}
use lcloud.Db.Errors.{Reply, ok, raise}
use lcloud.Db.Rows.{JsonDocument, Db}
use lcloud.Db.Store.{find_document, touch_collection}
use lcloud.Db.Writes.{upserted, patched, deleted, set_op, data_payload, log_row}
use lcloud.Db.Session.{World, Env, Handler, modify_db, ◌>>=◌, ◌>>◌, transaction}
use lcloud.Db.Owner.{Target}
use lcloud.Db.Owner.Batch.{
  BatchWrite, create, set, update, delete, write_one, write_all, batch_session, batch_documents,
}
use lcloud.Db.Changes.{
  RowStep, patch, Change, Change-trans, done, log, touch, IsAt, IsAtIfFound, find_document-IsAt,
  Changes, Always, Frame,
}
use lcloud.Db.Changes.Tails.{frames}
use lcloud.Db.Changes.Rules.{
  Frame-guard, Frame-collection, Frame-validate_name, Frame-validate_doc_id, Changes-bind,
  Changes-gets, Changes-Frame,
}
use lcloud.Db.Changes.RowRules.{Changes-document, upserted-IsAt, create-RowStep, set-RowStep}

continue-both :
    {A B : Type 0} (s : Db) (f : A → Handler B) (r : Reply A) (w : World)
    → ((a : A) → Changes Always (f a))
    → Change s w.db
    → Change s (elim r as (λ _. Reply B × World) [ ok a ↦ f a w | raise e ↦ (raise e, w) ]).1.db
continue-both s f (ok a) w k p = Change-trans p ((k a).at w tt)
continue-both s f (raise e) w k p = p

-- Changes, and then more of them.
Changes-then :
    {A B : Type 0} (m : Handler A) (f : A → Handler B)
    → Changes Always m
    → ((a : A) → Changes Always (f a))
    → Changes Always (m >>= f)
unfolding ◌>>=◌
Changes-then m f c k = record { at = λ w p. continue-both w.db f (m w).0 (m w).1 k (c.at w tt) }

-- A change of the tables, and then nothing but the reply.
Changes-modify :
    {A : Type 0} {P : Db → Type 0} (g : Db → Db) (k : Handler A)
    → ((db : Db) → P db → Change db (g db))
    → Frame k
    → Changes P (modify_db g >> k)
unfolding ◌>>=◌ modify_db
Changes-modify g k c fr = record {
  at = λ w p. subst (λ db. Change w.db db) (sym (fr.at _)) (c w.db p);
}

end_transaction :
    {A : Type 0} (s : Db) (r : Reply A) (w : World)
    → Change s w.db
    → Change s
        (elim r as (λ _. Reply A × World) [
          | ok a ↦ (ok a, w)
          | raise e ↦ (raise e, record w { db = s })
        ]).1.db
end_transaction s (ok a) w p = p
end_transaction s (raise e) w p = done

transaction-Changes :
    {A : Type 0} (m : Handler A) → Changes Always m → Changes Always (transaction m)
unfolding transaction
transaction-Changes m c = record { at = λ w p. end_transaction w.db (m w).0 (m w).1 (c.at w tt) }

-- The row of a `create` or a `set`, logged.
upsert_logged :
    (now c : ℕ) (d : String) (contents : Fields) (o : Option JsonDocument) (op : String)
    (row : JsonDocument) (db : Db)
    → find_document c d db.documents ≡ o
    → upserted now c d none contents o db ≡ row
    → RowStep now c d o (upserted now c d none contents o db) op (data_payload contents) none
    → Change db (log_row now row op (data_payload contents) none db)
upsert_logged now c d contents o op row db found e st =
    log done
      (subst
        (λ r. RowStep now c d (find_document c d db.documents) r op (data_payload contents) none) e
        (subst
          (λ x.
            RowStep now c d x (upserted now c d none contents o db) op (data_payload contents) none)
          (sym found) st))
      (subst (IsAt c d) e (
        upserted-IsAt now c d none contents o db
          (subst (IsAtIfFound c d) found (find_document-IsAt c d db.documents))))

-- A change of the row that was found, logged.
found_logged :
    (now c : ℕ) (d : String) (old row : JsonDocument) (op : String) (payload : Fields) (db : Db)
    → find_document c d db.documents ≡ some old
    → RowStep now c d (some old) row op payload none
    → (IsAt c d old → IsAt c d row)
    → Change db (log_row now row op payload none db)
found_logged now c d old row op payload db found st at =
    log done (subst (λ x. RowStep now c d x row op payload none) (sym found) st)
      (at (subst (IsAtIfFound c d) found (find_document-IsAt c d db.documents)))

write_one-Changes :
    (env : Env) (c index : ℕ) (write : BatchWrite) → Changes Always (write_one env c index write)
unfolding write_one patched deleted
write_one-Changes env c index (create id contents) = Changes-bind _ _ (Frame-validate_doc_id _) λ _.
    Changes-gets _ (λ db. find_document c _ db.documents) _ (λ w. refl)
      λ o. Changes-bind _ _ (Frame-guard _ _) λ _.
        Changes-gets _ (λ db. upserted env.now c _ none contents o db) _ (λ w. refl)
          λ row.
            Changes-modify _ _
              (λ db p.
                upsert_logged env.now c _ contents o "create" row db p.0.1 p.1
                  (create-RowStep env.now c _ contents o db))
              (search frames)
write_one-Changes env c index (set doc_id contents) =
    Changes-bind _ _ (Frame-validate_doc_id _) λ _.
      Changes-gets _ (λ db. find_document c doc_id db.documents) _ (λ w. refl)
        λ o.
          Changes-gets _ (λ db. upserted env.now c doc_id none contents o db) _ (λ w. refl)
            λ row.
              Changes-modify _ _
                (λ db p.
                  upsert_logged env.now c doc_id contents o (set_op o) row db p.0.1 p.1
                    (set-RowStep env.now c doc_id contents o db))
                (search frames)
write_one-Changes env c index (update doc_id contents) =
    Changes-bind _ _ (Frame-validate_doc_id _) λ _. Changes-document c doc_id _ λ old.
      Changes-modify _ _
        (λ db p.
          found_logged env.now c doc_id old _ _ _ db p.1 (patch old contents none) (λ at. at))
        (search frames)
write_one-Changes env c index (delete doc_id) = Changes-bind _ _ (Frame-validate_doc_id _) λ _.
    Changes-document c doc_id _ λ old.
      Changes-modify _ _
        (λ db p.
          found_logged env.now c doc_id old _ _ _ db p.1 (RowStep.delete old none) (λ at. at))
        (search frames)

write_all-Changes :
    (env : Env) (c index : ℕ) (writes : List BatchWrite)
    → Changes Always (write_all env c index writes)
unfolding write_all
write_all-Changes env c index [] = Changes-Frame _ (search frames)
write_all-Changes env c index (write ∷ writes) =
    Changes-then _ _ (write_one-Changes env c index write) λ result.
      Changes-then _ _ (write_all-Changes env c (suc index) writes)
        λ results. Changes-Frame _ (search frames)

batch_session-Changes :
    (env : Env) (t : Target) (writes : List BatchWrite)
    → Changes Always (batch_session env t writes)
unfolding batch_session touch_collection
batch_session-Changes env t writes = Changes-bind _ _ (Frame-collection _ _ _ _) λ coll.
    Changes-then _ _ (write_all-Changes env coll.id 0 writes)
      λ results. Changes-modify _ _ (λ db p. touch _ done) (search frames)

pub batch_documents-Changes :
    (env : Env) (t : Target) (writes : List BatchWrite)
    → Changes Always (batch_documents env t writes)
unfolding batch_documents
batch_documents-Changes env t writes = Changes-bind _ _ (Frame-validate_name _) λ _.
    Changes-then _ _ (transaction-Changes _ (batch_session-Changes env t writes))
      λ result. Changes-Frame _ (search frames)
