-- ===== src/Db.antt =====
-- The JSON document database (lcloud/api/json_db.py over the tables of lcloud/db/models.py): the rows,
-- and the queries and updates that its handlers share.
--
-- A table is the list of its rows, oldest first. Times are numbers. The id of a new row is one more
-- than the greatest in the table, as SQLite picks it for an `INTEGER PRIMARY KEY` with no
-- `AUTOINCREMENT`. A query that the schema's unique constraints hold to one row takes the first.
pub mod Rows
pub mod Store
pub mod Errors
pub mod Names
pub mod Validator
pub mod Access
pub mod Session
pub mod Writes
pub mod Requests
pub mod Changes
pub mod Owner
pub mod Public
pub mod PublicKey
pub mod Events
pub mod Lists
