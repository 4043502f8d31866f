-- ===== src/Db/Changes/RowRules.antt =====
-- The rules for a handler's steps on a document's row: the row that is found, and the row that is put.
use mathlib.Core.Path.{subst, sym}
use lcloud.Base.{ℕ, String, ◌≡◌, inl, inr, refl, Option, none, some, arith}
use lcloud.Json.{Fields}
use lcloud.Db.Rows.{JsonDocument, Db}
use lcloud.Db.Store.{find_document, if_live, touch_collection}
use lcloud.Db.Writes.{data_payload, upserted, set_op, put_row}
use lcloud.Db.Errors.{document_not_found}
use lcloud.Db.Session.{World, Handler, gets, or_fail, modify_db, ◌>>=◌, ◌>>◌, get_document_or_404}
use lcloud.Db.Changes.{
  RowStep, write_new, rewrite, IsAt, IsAtIfFound, find_document-IsAt, Change, done, log, touch,
  Changes, Frame,
}
use lcloud.Db.Changes.Rules.{Changes-gets}

live_found : (o : Option JsonDocument) (row : JsonDocument) → if_live o ≡ some row → o ≡ some row
live_found none row h = cc
live_found (some r) row h = ground arith

-- What follows `_get_document_or_404` knows the row.
pub Changes-document :
    {A : Type 0} {P : Db → Type 0} (c : ℕ) (d : String) (f : JsonDocument → Handler A)
    → ((row : JsonDocument)
        → Changes (λ db. P db × (find_document c d db.documents ≡ some row)) (f row))
    → Changes P (get_document_or_404 c d >>= f)
unfolding get_document_or_404 ◌>>=◌
Changes-document {P} c d f k = record {
  at = λ w p. go w p (if_live (find_document c d w.db.documents)) refl;
}
  where
    go :
        (w : World) (p : P w.db) (o : Option JsonDocument)
        → if_live (find_document c d w.db.documents) ≡ o
        → Change w.db ((or_fail o document_not_found >>= f) w).1.db
    go w p none e = done
    go w p (some row) e = (k row).at w (p, live_found _ row e)

-- A change of one row, by any handler of one document.
pub Change-put_row :
    {now c : ℕ} {d : String} {row : JsonDocument} {op : String} {payload : Fields}
    {uid : Option String} (db : Db)
    → RowStep now c d (find_document c d db.documents) row op payload uid
    → IsAt c d row
    → Change db (put_row now row op payload uid db)
unfolding put_row touch_collection
Change-put_row db st at = touch _ (log done st at)

pub upserted-IsAt :
    (now c : ℕ) (d : String) (uid : Option String) (contents : Fields) (o : Option JsonDocument)
    (db : Db)
    → IsAtIfFound c d o
    → IsAt c d (upserted now c d uid contents o db)
unfolding upserted
upserted-IsAt now c d uid contents none db at = (refl, refl)
upserted-IsAt now c d uid contents (some row) db at = at

-- `create` and `set` with no owner in the log, as the owner's and the public handlers write it
pub create-RowStep :
    (now c : ℕ) (d : String) (contents : Fields) (o : Option JsonDocument) (db : Db)
    → RowStep now c d o (upserted now c d none contents o db) "create" (data_payload contents) none
unfolding upserted
create-RowStep now c d contents none db = write_new none contents db
create-RowStep now c d contents (some row) db =
    rewrite row "create" contents none (inl refl) (inl refl)

pub set-RowStep :
    (now c : ℕ) (d : String) (contents : Fields) (o : Option JsonDocument) (db : Db)
    → RowStep now c d o
        (upserted now c d none contents o db)
        (set_op o)
        (data_payload contents)
        none
unfolding upserted
set-RowStep now c d contents none db = write_new none contents db
set-RowStep now c d contents (some row) db = rewrite row "set" contents none (inr refl) (inl refl)

-- The same with the row's owner in the log.
pub create-RowStep_owner :
    (now c : ℕ) (d : String) (uid : Option String) (contents : Fields) (o : Option JsonDocument)
    (db : Db)
    → RowStep now c d o
        (upserted now c d uid contents o db)
        "create"
        (data_payload contents)
        (upserted now c d uid contents o db).owner_uid
unfolding upserted
create-RowStep_owner now c d uid contents none db = write_new uid contents db
create-RowStep_owner now c d uid contents (some row) db =
    rewrite row "create" contents row.owner_uid (inl refl) (inr refl)

pub set-RowStep_owner :
    (now c : ℕ) (d : String) (uid : Option String) (contents : Fields) (o : Option JsonDocument)
    (db : Db)
    → RowStep now c d o
        (upserted now c d uid contents o db)
        (set_op o)
        (data_payload contents)
        (upserted now c d uid contents o db).owner_uid
unfolding upserted
set-RowStep_owner now c d uid contents none db = write_new uid contents db
set-RowStep_owner now c d uid contents (some row) db =
    rewrite row "set" contents row.owner_uid (inr refl) (inr refl)

-- The end of a handler: the row and its operation, and then nothing but the cache.
pub Changes-put_row :
    {A : Type 0} {P : Db → Type 0} (now c : ℕ) (d : String) (row : JsonDocument) (op : String)
    (payload : Fields) (uid : Option String) (k : Handler A)
    → ((db : Db)
        → P db
        → RowStep now c d (find_document c d db.documents) row op payload uid × IsAt c d row)
    → Frame k
    → Changes P (modify_db (put_row now row op payload uid) >> k)
unfolding ◌>>=◌ modify_db
Changes-put_row now c d row op payload uid k st fr = record {
  at = λ w p.
      let w' : World = record w { db = put_row now row op payload uid w.db } in
      subst (λ db. Change w.db db) (sym (fr.at w'))
        (Change-put_row w.db (st w.db p).0 (st w.db p).1);
}

-- The row of a `create` or a `set`, for the row `o` that was found.
pub Changes-upsert :
    {A : Type 0} {P : Db → Type 0} (now c : ℕ) (d : String) (uid : Option String)
    (contents : Fields) (o : Option JsonDocument) (op : String)
    (op_uid : JsonDocument → Option String) (k : JsonDocument → Handler A)
    → ((db : Db) → P db → find_document c d db.documents ≡ o)
    → ((db : Db)
        → RowStep now c d o
            (upserted now c d uid contents o db)
            op
            (data_payload contents)
            (op_uid (upserted now c d uid contents o db)))
    → ((row : JsonDocument) → Frame (k row))
    → Changes P (
        gets (λ w. upserted now c d uid contents o w.db) >>= λ row.
        modify_db (put_row now row op (data_payload contents) (op_uid row)) >> k row)
Changes-upsert {P = P} now c d uid contents o op op_uid k found st fr =
    Changes-gets (λ w. upserted now c d uid contents o w.db)
      (λ db. upserted now c d uid contents o db) _ (λ w. refl)
      λ row.
        Changes-put_row now c d row op (data_payload contents) (op_uid row) (k row)
          (λ db p.
            subst
              (λ r.
                RowStep now c d (find_document c d db.documents) r op (data_payload contents)
                  (op_uid r)
                × IsAt c d r)
              p.1
              (
                subst
                    (λ x.
                      RowStep now c d x (upserted now c d uid contents o db) op
                        (data_payload contents) (op_uid (upserted now c d uid contents o db)))
                    (sym (found db p.0)) (st db),
                upserted-IsAt now c d uid contents o db
                    (subst (IsAtIfFound c d) (found db p.0) (find_document-IsAt c d db.documents)),
              ))
          (fr row)
