-- ===== src/Db/Errors.antt =====
-- The `HTTPException`s of lcloud/api/json_db.py, and what a handler returns.
use lcloud.Base.{ℕ, String, Bool, true, false}

pub data Action : Type 0 where
  read write : Action

-- The check of a write validator that failed.
pub data Check : Type 0 where
  max_bytes max_fields required_fields allowed_fields : Check

pub data HttpError : Type 0 where
  rate_limited : Action → HttpError
  invalid_collection_name invalid_document_id : HttpError
  collection_not_found document_not_found public_key_not_found : HttpError
  collection_exists document_exists public_key_limit_reached : HttpError
  write_exists : ℕ → String → HttpError
  access_denied : HttpError
  database_not_found database_scope_conflict : HttpError
  -- a constraint that the commit breaks
  integrity_error : HttpError
  public_validator_failed : Check → HttpError

-- The status code of each.
unfoldable pub status : HttpError → ℕ
status (rate_limited _) = 429
status invalid_collection_name = 422
status invalid_document_id = 422
status collection_not_found = 404
status document_not_found = 404
status public_key_not_found = 404
status collection_exists = 409
status document_exists = 409
status public_key_limit_reached = 400
status (write_exists _ _) = 409
status access_denied = 403
status database_not_found = 404
status database_scope_conflict = 400
status integrity_error = 500
status (public_validator_failed _) = 422

pub data Reply {ℓ} (A : Type ℓ) : Type ℓ where
  ok : A → Reply A
  raise : HttpError → Reply A

abbrev pub is_ok {ℓ} : {A : Type ℓ} → Reply A → Bool
is_ok (ok a) = true
is_ok (raise e) = false
