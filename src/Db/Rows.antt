-- ===== src/Db/Rows.antt =====
-- lcloud/db/models.py: the rows of the document database.
use lcloud.Base.{ℕ, String, Bool, Option, List}
use lcloud.Json.{JsonText}

-- `JsonDatabase`, with the columns that the document API and the backup read.
pub record JsonDatabase : Type 0 where
  pub id : ℕ
  pub owner_user_id : ℕ
  pub cloud_id : Option ℕ
  pub database_key : String
  pub is_default : Bool

pub record JsonDbPublicKey : Type 0 where
  pub id : ℕ
  pub database_id : ℕ
  pub owner_user_id : ℕ
  pub key : String
  pub label : String
  pub created_at : ℕ
  pub revoked_at : Option ℕ

pub record JsonCollection : Type 0 where
  pub id : ℕ
  pub database_id : ℕ
  pub owner_user_id : ℕ
  pub name : String
  pub read_rule : String
  pub write_rule : String
  pub write_validator_json : Option JsonText
  pub created_at : ℕ
  pub updated_at : ℕ

pub record JsonDocument : Type 0 where
  pub id : ℕ
  pub collection_id : ℕ
  pub doc_id : String
  pub owner_uid : Option String
  pub data_json : JsonText
  pub version : ℕ
  pub created_at : ℕ
  pub updated_at : ℕ
  pub deleted_at : Option ℕ

pub record JsonOperation : Type 0 where
  pub id : ℕ
  pub collection_id : ℕ
  pub doc_id : Option String
  pub owner_uid : Option String
  pub op : String
  pub payload_json : JsonText
  pub created_at : ℕ

-- The tables that the document API reads and writes.
pub record Db : Type 0 where
  pub databases : List JsonDatabase
  pub public_keys : List JsonDbPublicKey
  pub collections : List JsonCollection
  pub documents : List JsonDocument
  pub operations : List JsonOperation
