-- ===== src/Backup/Rounds.antt =====
-- The rounds of lcloud/userbot/db_backup.py, over any databases and with any failures.
use mathlib.Core.Path.{subst}
use lcloud.Base.{
  ℕ, ◌+◌, ◌≡◌, refl, sym, some, List, [], ◌∷◌, arith, ◌==◌, find_if, take, Option-cases, inl, inr,
}
use lcloud.Base.Ascending.{Above, last_key-le, Above-take}
use lcloud.Db.Rows.{JsonDatabase, Db}
use lcloud.Backup.{
  Row, row_id, Segment, Vault, Built, raised, nothing, built, Send, Round, returned, failed,
  vault_of, Chat, telegram_chat, last_uploaded, pending_rows, segment_of, build_segment,
  upload_segment, backup_database, backup_all, backup_once, Ready, databases_with_pending,
}
use lcloud.Backup.Cursor.{IsAscending, pending_rows-Above, last_row_id-last_key}
use lcloud.Backup.Invariant.{IsBacked, IsNext, upload_segment-IsBacked}

found_id :
    (d : ℕ) (ds : List JsonDatabase) (x : JsonDatabase)
    → find_if (λ e. e.id == d) ds ≡ some x
    → x.id ≡ d
found_id d [] x h = cc
found_id d (y ∷ ds) x h = ground (arith, found_id d ds x)

-- What is made of the next rows of a database.
pub data Made (n : ℕ) (db : Db) (v : Vault) (d : ℕ) : Built → Type 0 where
  by_raise : Made n db v d raised
  of_none : take n (pending_rows d (last_uploaded d v.states) db) ≡ [] → Made n db v d nothing
  of_rows : (s : Segment) → IsNext n db v s → s.database_id ≡ d → Made n db v d (built s)

segment_of-Made :
    (n : ℕ) (db : Db) (v : Vault) (database : JsonDatabase) (to : Chat) (rows : List Row)
    → rows ≡ take n (pending_rows database.id (last_uploaded database.id v.states) db)
    → Above row_id (last_uploaded database.id v.states) rows
    → Made n db v database.id (segment_of database to rows)
unfolding segment_of
segment_of-Made n db v database to [] e a = of_none (sym e)
segment_of-Made n db v database to (r ∷ rows) e a =
    of_rows _
      (record {
        operations = e;
        last = last_row_id-last_key (last_uploaded database.id v.states) r rows;
        above = omega (
          arith,
          last_row_id-last_key (last_uploaded database.id v.states) r rows,
          last_key-le row_id (row_id r) rows a.1,
          a.0,
        );
      })
      refl

pub build_segment-Made :
    (n : ℕ) (db : Db) (v : Vault) (d : ℕ) → IsAscending db → Made n db v d (build_segment d n db v)
unfolding build_segment
build_segment-Made n db v d asc = elim (Option-cases (find_if (λ e. e.id == d) db.databases)) [
  | inl e ↦ rw (e, build_segment) by_raise
  | inr (database, e) ↦
      rw (e, build_segment)
        (subst
          (λ k. Made n db v k (
            segment_of database (telegram_chat database v.clouds)
              (take n (pending_rows k (last_uploaded k v.states) db))))
          (found_id d db.databases database e)
          (segment_of-Made n db v database (telegram_chat database v.clouds) _ refl
            (Above-take row_id n _ _ (pending_rows-Above database.id _ db asc))))
]

pub backup_database-IsBacked :
    (send : Send) (now n : ℕ) (db : Db) (d : ℕ) (v : Vault)
    → IsAscending db
    → IsBacked db v
    → IsBacked db (vault_of (backup_database send now n db d v))
unfolding backup_database
backup_database-IsBacked send now n db d v asc h =
    after (build_segment d n db v) (build_segment-Made n db v d asc)
  where
    after :
        (b : Built)
        → Made n db v d b
        → IsBacked db (
            vault_of (elim b as (λ _. Round) [
              | raised ↦ failed v
              | nothing ↦ returned 0 v
              | built s ↦ upload_segment send now s v
            ]))
    after raised m = h
    after nothing m = h
    after (built s) (of_rows s' next e) = upload_segment-IsBacked send n now db v s asc h next

backup_all-IsBacked :
    (send : Send) (now n : ℕ) (db : Db) (ds : List ℕ) (uploaded : ℕ) (v : Vault)
    → IsAscending db
    → IsBacked db v
    → IsBacked db (vault_of (backup_all send now n db ds uploaded v))
unfolding backup_all
backup_all-IsBacked send now n db [] uploaded v asc h = h
backup_all-IsBacked send now n db (d ∷ ds) uploaded v asc h =
    after (backup_database send now n db d v) (backup_database-IsBacked send now n db d v asc h)
      (λ k v' b. backup_all-IsBacked send now n db ds k v' asc b)
  where
    after :
        (r : Round)
        → IsBacked db (vault_of r)
        → ((k : ℕ) (v' : Vault)
            → IsBacked db v'
            → IsBacked db (vault_of (backup_all send now n db ds k v')))
        → IsBacked db (
            vault_of (elim r as (λ _. Round) [
              | returned k v' ↦ backup_all send now n db ds (uploaded + k) v'
              | failed v' ↦ failed v'
            ]))
    after (returned k v') b next = next (uploaded + k) v' b
    after (failed v') b next = b

-- A round as it is called: when it may not run, nothing changes.
pub backup_once-IsBacked :
    (send : Send) (ready : Ready) (now n : ℕ) (db : Db) (v : Vault)
    → IsAscending db
    → IsBacked db v
    → IsBacked db (vault_of (backup_once send ready now n db v))
unfolding backup_once
backup_once-IsBacked send ready now n db v asc h =
    ground (arith, backup_all-IsBacked send now n db (databases_with_pending n db v) 0 v asc h)
