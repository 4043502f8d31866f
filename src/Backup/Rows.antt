-- ===== src/Backup/Rows.antt =====
-- lcloud/db/models.py and lcloud/userbot/db_backup.py: the tables of the backup, its segments and messages.
use lcloud.Base.{ℕ, List}
use lcloud.Base.Int.{ℤ}
use lcloud.Db.Rows.{JsonCollection, JsonOperation}

pub record JsonBackupState : Type 0 where
  pub database_id : ℕ
  pub owner_user_id : ℕ
  pub last_operation_id : ℕ
  pub updated_at : ℕ

-- The chat of a segment: the account's own, or that of a cloud.
pub data Chat : Type 0 where
  me : Chat
  chat : ℤ → Chat

pub record JsonBackupSegment : Type 0 where
  pub database_id : ℕ
  pub owner_user_id : ℕ
  pub first_operation_id : ℕ
  pub last_operation_id : ℕ
  pub operation_count : ℕ
  pub telegram_chat : Chat
  pub telegram_message_id : ℕ
  pub uploaded_at : ℕ

-- `Cloud`, with the columns that the backup reads.
pub record Cloud : Type 0 where
  pub id : ℕ
  pub chat_id : ℤ

-- An operation with the row of its collection.
pub record Row : Type 0 where
  pub operation : JsonOperation
  pub collection : JsonCollection

-- The payload of a segment: its `meta`, and its operations.
pub record Segment : Type 0 where
  pub database_id : ℕ
  pub owner_user_id : ℕ
  pub telegram_chat : Chat
  pub first_operation_id : ℕ
  pub last_operation_id : ℕ
  pub operation_count : ℕ
  pub operations : List Row

pub record Sent : Type 0 where
  pub message_id : ℕ
  pub segment : Segment

-- The tables of the backup, and what Telegram has.
pub record Vault : Type 0 where
  pub clouds : List Cloud
  pub states : List JsonBackupState
  pub segments : List JsonBackupSegment
  pub sent : List Sent
