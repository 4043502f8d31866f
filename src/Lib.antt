-- ===== src/Lib.antt =====
-- LCloud: a document database with an HTTP API, kept in SQLite, cached in the process and backed up as
-- operations in Telegram.
--
-- The parts, and the files that model them:
--
--   Base/          Boolean tests, lists, association lists, integers and texts that the parts share.
--   RateLimiter    lcloud/utils/rate_limit.py, `RateLimiter`: a token bucket for each key.
--   Cache          lcloud/cache.py, `TTLCache`: one function for each method. Entries is `_data`, Keys the
--                  key helpers, Invalidators the `invalidate_*` functions; Accounting, Methods, Contents, Limits and
--                  Retention have the lemmas, and Calls a run of any methods.
--   Json           the values that the `json` module reads and writes, and `dict.update`.
--   Db/Rows        lcloud/db/models.py, the tables `Json*`; Db/Store has the queries and updates of them.
--   Db/Session     lcloud/api/json_db.py: what a handler runs in, and its shared steps (`_enforce_public_rate`,
--                  `_get_collection_or_404`, `_get_document_or_404` and so on); Db/Errors are its replies,
--                  Db/Names the regular expressions, Db/Access `_can_access_collection`, Db/Validator
--                  `_validate_public_write`, Db/Writes the changes of a row with its operation.
--   Db/Owner       the handlers of the owner (`create_document`, `get_document`, …); Batch is
--                  `batch_documents`, Collections the rules, the validator,
--                  `delete_collection` and `revoke_public_key`; Projects is the choice of a
--                  database of lcloud/api/json_databases.py, `create_collection`,
--                  `list_collections` and `create_public_key`.
--   Db/Public      the handlers by a collection's id (`public_*_document`).
--   Db/PublicKey   the handlers by a publishable key (`public_key_*_document`).
--   Db/Lists       the handlers that list documents (`list_documents`, `public_list_documents`,
--                  `public_key_list_documents`), and Db/Events the streams of changes
--                  (`_stream_collection_events` and the handlers that open one).
--   Db/Requests    the requests as data, and a run of them.
--   Db/Changes     what handlers may do to the tables, and the rules by which they are shown to do no more.
--   Restore        lcloud/userbot/db_restore.py: the replay of operations.
--   Backup         lcloud/userbot/db_backup.py: a round of the upload of operations to Telegram. Cursor,
--                  Invariant, Rounds and Drained have the lemmas, Runs calls of `backup_once` one after the
--                  other, and Restored what the requests, the backup and the replay come to together.
--   Accounts       lcloud/db/models.py, `User` and `PaymentRequest`; Seed is lcloud/auth/seed.py, Payments
--                  lcloud/api/payments.py, and Pin lcloud/auth/pin_recovery.py with
--                  lcloud/api/pin_recovery.py.
--   Mtproto        lcloud/workers/rate_limiter.py: `AsyncTokenBucket` and `call_with_floodwait_retry`.
--   Storage        the files: Rows are their tables in lcloud/db/models.py, Session what the handlers run in,
--                  Quota lcloud/auth/storage_quota.py, Compression lcloud/api/compression.py and
--                  compression_video.py, Captions lcloud/crypto/lc2.py, sign.py and lcloud/userbot/lc1.py,
--                  Upload and Files lcloud/api/v2_files.py, PublicKeys and PublicFiles
--                  lcloud/api/storage_public.py, Shares and Versions lcloud/api/shares.py and versions.py,
--                  Clouds lcloud/api/v2_clouds.py, Tags lcloud/api/tags.py, SignIn
--                  lcloud/auth/v2_deps.py and api_keys.py. Requests has the requests as data, and a run of
--                  them; Rules the rules by which a handler is followed.
--   Tests          runs at fixed inputs.
--
-- A handler is a function of the world (tables, cache, rate limiters) to a reply and a world. A request is
-- one step: SQLite serialises the writes, and a session that raises is not committed. Time is a natural
-- number of ticks of a clock that does not run back. A stored JSON text is the value it decodes to, and
-- numbers that Python keeps as floats in the rate limiters are exact.
--
-- The eviction loop runs on a bound, the number of items, since each round removes one; the digits of a
-- number on a bound of the number itself. The loop of `AsyncTokenBucket.acquire` runs on the readings of the
-- clock that it is given, and the retries on `max_retries`. A stream of changes runs on the tables that
-- its turns see, until the client has gone. Rounds of the backup run on tables that no request changes
-- between them; a round that follows changes, a delete of a collection among them, is not followed. The chain of a file's versions runs on the file's id, since a
-- row replaces one with a smaller id.
--
-- What comes from other libraries is an argument: `send_file` of the Telegram client, which may fail at each
-- upload; argon2, SecretBox and the drawn bytes of the PIN recovery; the BIP39 words and their keys; the
-- keys that are drawn until one is new; Pillow, ffmpeg, Ed25519 and SHA-256, and what Telegram answers to
-- an upload, an edit and a deletion. `Sound` of Accounts/Pin/Recovery is what is asked of the hash and
-- of the box.
--
-- Not modelled: queries of documents, creation of databases, search, the temporary files and metrics of an
-- upload, the issue of sessions and tokens, the web client and the SDK. They are SQL queries, library calls
-- or other programs; `_estimate_size`, the clocks, the drawn document ids and the times to live from the
-- environment are arguments.
pub mod Base
pub mod RateLimiter
pub mod Mtproto
pub mod Storage
pub mod Cache
pub mod Json
pub mod Db
pub mod Accounts
pub mod Backup
pub mod Restore
pub mod Tests
