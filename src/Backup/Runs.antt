-- ===== src/Backup/Runs.antt =====
-- Runs of rounds of lcloud/userbot/db_backup.py.

use lcloud.Base.{ℕ, ◌≡◌, refl, ◌∙◌, List, [], ◌∷◌, ◌++◌}
use lcloud.Db.Rows.{Db}
use lcloud.Backup.{
  Vault, Cloud, Send, vault_of, last_uploaded, pending_rows, is_recorded, backup_once, Ready,
}
use lcloud.Backup.Cursor.{IsAscending, rows_of, pending_rows-keep_if, keep_all}
use lcloud.Backup.Invariant.{IsBacked, sent_rows}
use lcloud.Backup.Rounds.{backup_once-IsBacked}

-- A call of `backup_once`, by the loop of `run` or by `run_json_db_backup_once`.
pub record Call : Type 0 where
  pub send : Send
  pub ready : Ready
  pub now : ℕ
  pub batch_limit : ℕ

-- Calls one after the other, on tables that no request changes between them.
unfoldable pub backup_rounds : List Call → Db → Vault → Vault
backup_rounds [] db v = v
backup_rounds (c ∷ cs) db v =
    backup_rounds cs db (vault_of (backup_once c.send c.ready c.now c.batch_limit db v))

abbrev pub empty_vault : List Cloud → Vault
empty_vault clouds = record { clouds = clouds; states = []; segments = []; sent = [] }

pub empty_vault-IsBacked :
    (clouds : List Cloud) (db : Db) → IsAscending db → IsBacked db (empty_vault clouds)
unfolding last_uploaded is_recorded
empty_vault-IsBacked clouds db asc = record {
  whole = λ d. pending_rows-keep_if d 0 db asc ∙ keep_all d db asc;
  fresh = λ d f l lt. refl;
}

backup_rounds-IsBacked :
    (calls : List Call) (db : Db) (v : Vault)
    → IsAscending db
    → IsBacked db v
    → IsBacked db (backup_rounds calls db v)
unfolding backup_rounds
backup_rounds-IsBacked [] db v asc h = h
backup_rounds-IsBacked (c ∷ cs) db v asc h =
    backup_rounds-IsBacked cs db _ asc
      (backup_once-IsBacked c.send c.ready c.now c.batch_limit db v asc h)

-- Calls of `backup_once` on tables that do not change and whose operations have ascending ids, from no state and no segment,
-- at any times, with any limits, whatever uploads fail and whenever the account is not ready. At every
-- point what was sent to Telegram for a database, in the order of the messages, followed by what is
-- still pending there, is the log of the database.
pub backup_rounds-whole :
    (calls : List Call) (clouds : List Cloud) (db : Db) (d : ℕ)
    → IsAscending db
    → let v = backup_rounds calls db (empty_vault clouds) in
      sent_rows d v.sent ++ pending_rows d (last_uploaded d v.states) db ≡ rows_of d db
backup_rounds-whole calls clouds db d asc =
    (backup_rounds-IsBacked calls db _ asc (empty_vault-IsBacked clouds db asc)).whole d
