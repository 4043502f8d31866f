-- ===== src/Db/Requests/History.antt =====
-- What a request of lcloud/api/json_db.py leaves of the past.
use lcloud.Base.{ℕ, String, ◌≡◌, ◌≢◌, inl, inr, List, ◌++◌}
use lcloud.Db.Rows.{JsonOperation}
use lcloud.Db.Store.{find_document}
use lcloud.Db.Session.{World, Env}
use lcloud.Db.Owner.{Target}
use lcloud.Db.Changes.{Change}
use lcloud.Db.Changes.History.{Continues, Change-Continues, Change-operations}
use lcloud.Db.Requests.{Request, drop_collection, serve}
use lcloud.Db.Requests.Changes.{serve-Change}

kept :
    (env : Env) (r : Request) (w : World)
    → ((t : Target) → r ≢ drop_collection t)
    → Change w.db (serve env r w).db
kept env r w h = elim (serve-Change env r w) [ inl change ↦ change | inr (t, e) ↦ absurd (h t e) ]

-- A request that does not delete a collection, whatever it replies, leaves every document row that was
-- there in the table, deleted or not, with the same owner and the same time of creation, and with a
-- version that is not lower; and it leaves the operations that were logged as they are, in their
-- order, and adds its own after them.
pub serve-history :
    (env : Env) (r : Request) (w : World) (c : ℕ) (d : String)
    → ((t : Target) → r ≢ drop_collection t)
    → Continues (find_document c d w.db.documents) (find_document c d (serve env r w).db.documents)
      × ((ops : List JsonOperation) × ((serve env r w).db.operations ≡ w.db.operations ++ ops))
serve-history env r w c d h =
    (Change-Continues c d (kept env r w h), Change-operations (kept env r w h))
