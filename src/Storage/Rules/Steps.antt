-- ===== src/Storage/Rules/Steps.antt =====
-- The longer steps of the storage's handlers that leave its users, files and shares alone.
use lcloud.Base.{ℕ, String, refl, Bool, true, false, Option, none, some, if◌then◌else◌}
use lcloud.Base.Bytes.{Bytes}
use lcloud.Base.Int.{ℤ}
use lcloud.Accounts.{Found, absent, several, found}
use lcloud.Storage.Rows.{File}
use lcloud.Storage.Session.{
  Handler, Env, CurrentUser, Body, context, listing, quota_info, clouds, pure, fail,
  multiple_results_found, lc2_verify_failed,
}
use lcloud.Storage.Quota.{get_used_and_quota, assert_can_store}
use lcloud.Storage.Captions.{Ed25519, Lc2Payload, verify_lc2_payload}
use lcloud.Storage.Compression.{Compressed}
use lcloud.Storage.Upload.{
  Libs, check_lc2, check_fields, send_file, edit_message, upload_file_lc2, upload_file_to_cloud,
  send, find_previous,
}
use lcloud.Storage.PublicKeys.{
  load_rows, context_or_rows, load_public_storage_context, check_database,
}
use lcloud.Storage.Rules.{Quiet}
use lcloud.Storage.Rules.Unchanged.{
  Quiet-bind, Quiet-pure, Quiet-fail, Quiet-or_fail, Quiet-gets, Quiet-guard, Quiet-modify,
  cache_get-Quiet, cache_set-Quiet,
}

check_lc2-Quiet :
    (libs : Libs) (env : Env) (user : CurrentUser) (sha : Bytes) (h s : String) (ts : ℤ)
    → Quiet (check_lc2 libs env user sha h s ts)
unfolding check_lc2
check_lc2-Quiet libs env user sha h s ts = Quiet-bind (Quiet-or_fail _ _) λ _.
    Quiet-bind (Quiet-or_fail _ _) λ sig.
      Quiet-bind (Quiet-guard _ _)
        λ _. after (verify_lc2_payload libs.ed25519 env.unix user.pubkey sha sig ts) _
  where
    after :
        (why : Option String) (p : Option Lc2Payload)
        → Quiet (elim why as (λ _. Handler (Option Lc2Payload)) [
          | some why ↦ fail (lc2_verify_failed why)
          | none ↦ pure p
        ])
    after none p = Quiet-pure _
    after (some why) p = Quiet-fail _

pub check_fields-Quiet :
    (libs : Libs) (env : Env) (user : CurrentUser) (sha : Bytes) (h s : Option String)
    (ts : Option ℤ)
    → Quiet (check_fields libs env user sha h s ts)
unfolding check_fields
check_fields-Quiet libs env user sha none s ts = Quiet-pure _
check_fields-Quiet libs env user sha (some h) none ts = Quiet-pure _
check_fields-Quiet libs env user sha (some h) (some s) none = Quiet-pure _
check_fields-Quiet libs env user sha (some h) (some s) (some ts) = check_lc2-Quiet _ _ _ _ _ _ _

send_file-Quiet : (env : Env) (chat_id : ℤ) (name : String) → Quiet (send_file env chat_id name)
unfolding send_file
send_file-Quiet env chat_id name =
    Quiet-bind (Quiet-or_fail _ _) λ _. Quiet-bind (Quiet-modify _ λ w. refl) λ _. Quiet-pure _

edit_message-Quiet :
    (env : Env) (chat_id : ℤ) (id : ℕ) (caption : String)
    → Quiet (edit_message env chat_id id caption)
unfolding edit_message
edit_message-Quiet env chat_id id caption =
    Quiet-bind (Quiet-guard _ _) λ _. Quiet-modify _ λ w. refl

pub upload_file_to_cloud-Quiet :
    (key : Ed25519) (env : Env) (chat_id : ℤ) (name : String) (sha : Bytes)
    → Quiet (upload_file_to_cloud key env chat_id name sha)
unfolding upload_file_to_cloud
upload_file_to_cloud-Quiet key env chat_id name sha = Quiet-bind (send_file-Quiet _ _ _) λ _.
    Quiet-bind (Quiet-or_fail _ _) λ _.
      Quiet-bind (Quiet-or_fail _ _) λ _. Quiet-bind (edit_message-Quiet _ _ _ _) λ _. Quiet-pure _

upload_file_lc2-Quiet :
    (env : Env) (chat_id : ℤ) (name : String) (p : Lc2Payload)
    → Quiet (upload_file_lc2 env chat_id name p)
unfolding upload_file_lc2
upload_file_lc2-Quiet env chat_id name p =
    Quiet-bind (send_file-Quiet _ _ _)
      λ _. Quiet-bind (edit_message-Quiet _ _ _ _) λ _. Quiet-pure _

pub send-Quiet :
    (libs : Libs) (env : Env) (chat_id : ℤ) (name : String) (c : Compressed) (p : Option Lc2Payload)
    → Quiet (send libs env chat_id name c p)
unfolding send
send-Quiet libs env chat_id name c none = upload_file_to_cloud-Quiet _ _ _ _ _
send-Quiet libs env chat_id name c (some p) = after c.was_compressed
  where
    after :
        (b : Bool)
        → Quiet (
            if b
            then upload_file_to_cloud libs.ed25519 env chat_id name (libs.sha256 c.contents)
            else upload_file_lc2 env chat_id name p)
    after true = upload_file_to_cloud-Quiet _ _ _ _ _
    after false = upload_file_lc2-Quiet _ _ _ _

pub find_previous-Quiet : (p : File → Bool) → Quiet (find_previous p)
unfolding find_previous
find_previous-Quiet p = Quiet-bind (Quiet-gets _) after
  where
    after :
        (row : Found File)
        → Quiet (elim row as (λ _. Handler (Option File)) [
          | several ↦ fail multiple_results_found
          | absent ↦ pure none
          | found prev ↦ pure (some prev)
        ])
    after several = Quiet-fail _
    after absent = Quiet-pure _
    after (found prev) = Quiet-pure _

pub get_used_and_quota-Quiet : (id : ℕ) → Quiet (get_used_and_quota id)
unfolding get_used_and_quota
get_used_and_quota-Quiet id =
    Quiet-bind (Quiet-gets _) λ _. Quiet-bind (Quiet-or_fail _ _) λ _. Quiet-pure _

pub assert_can_store-Quiet : (id n : ℕ) → Quiet (assert_can_store id n)
unfolding assert_can_store
assert_can_store-Quiet id n = Quiet-bind (get_used_and_quota-Quiet id) λ _. Quiet-guard _ _

check_database-Quiet : (id : Option ℕ) (cloud_id : ℕ) → Quiet (check_database id cloud_id)
unfolding check_database
check_database-Quiet none cloud_id = Quiet-pure _
check_database-Quiet (some id) cloud_id = Quiet-bind (Quiet-gets _) λ _. Quiet-guard _ _

load_rows-Quiet : (env : Env) (key : String) → Quiet (load_rows env key)
unfolding load_rows
load_rows-Quiet env key = Quiet-bind (Quiet-gets _) λ _. Quiet-bind (Quiet-or_fail _ _) λ row.
    Quiet-bind (Quiet-gets _) λ _. Quiet-bind (Quiet-or_fail _ _) λ cloud.
      Quiet-bind (Quiet-gets _) λ _. Quiet-bind (Quiet-or_fail _ _) λ user.
        Quiet-bind (Quiet-guard _ _) λ _. Quiet-bind (Quiet-guard _ _) λ _.
          Quiet-bind (check_database-Quiet _ _)
            λ _. Quiet-bind (cache_set-Quiet _ _ _ _ _) λ _. Quiet-pure _

context_or_rows-Quiet :
    (env : Env) (key : String) (cached : Option Body) → Quiet (context_or_rows env key cached)
unfolding context_or_rows
context_or_rows-Quiet env key (some (context c)) = Quiet-bind (Quiet-guard _ _) λ _. Quiet-pure _
context_or_rows-Quiet env key (some (listing _ _ _ _)) = Quiet-fail _
context_or_rows-Quiet env key (some (quota_info _ _ _)) = Quiet-fail _
context_or_rows-Quiet env key (some (clouds _)) = load_rows-Quiet _ _
context_or_rows-Quiet env key none = load_rows-Quiet _ _

pub load_public_storage_context-Quiet :
    (env : Env) (key : String) → Quiet (load_public_storage_context env key)
unfolding load_public_storage_context
load_public_storage_context-Quiet env key =
    Quiet-bind (cache_get-Quiet _ _) λ c. context_or_rows-Quiet env key c
