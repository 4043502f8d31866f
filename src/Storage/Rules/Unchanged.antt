-- ===== src/Storage/Rules/Unchanged.antt =====
-- The handlers of the storage that leave its users, files and shares alone.
use lcloud.Base.{
  ℕ, String, ◌≡◌, refl, ◌∙◌, Bool, true, false, Option, none, some, List, if◌then◌else◌,
}
use lcloud.Base.Bytes.{Bytes}
use lcloud.Base.Int.{ℤ}
use lcloud.Cache.{TtlCache}
use lcloud.Db.Errors.{Action, read, write}
use lcloud.Storage.Rows.{File}
use lcloud.Storage.Session.{
  World, Handler, Answer, ok, raise, StorageError, Env, CurrentUser, Body, Message, pure, fail,
  or_fail, gets, guard, modify, modify_cache, cache_get, cache_set, ◌>>=◌,
  ensure_userbot_authorized, get_cloud_for_user, delete_file_message,
}
use lcloud.Storage.Upload.{stream_to_temp}
use lcloud.Storage.Files.{cloud_of}
use lcloud.Storage.PublicKeys.{enforce_public_storage_rate}
use lcloud.Storage.Rules.{Quiet, core}

pub Quiet-bind :
    {A B : Type 0} {m : Handler A} {f : A → Handler B}
    → Quiet m
    → ((a : A) → Quiet (f a))
    → Quiet (m >>= f)
unfolding ◌>>=◌
Quiet-bind {A} {B} {m} {f} hm hf = record { same = λ w. after (m w) w (hm.same w) }
  where
    after :
        (r : Answer A × World) (w : World)
        → core r.1 ≡ core w
        → core (elim r.0 as (λ _. Answer B × World) [ ok a ↦ f a r.1 | raise e ↦ (raise e, r.1) ]).1
          ≡ core w
    after (ok a, w') w h = (hf a).same w' ∙ h
    after (raise e, w') w h = h

module _ {A : Type 0} where
  pub Quiet-pure : (a : A) → Quiet (pure a)
  unfolding pure
  Quiet-pure a = record { same = λ w. refl }

  pub Quiet-fail : (e : StorageError) → Quiet (fail {A = A} e)
  unfolding fail
  Quiet-fail e = record { same = λ w. refl }

  pub Quiet-or_fail : (o : Option A) (e : StorageError) → Quiet (or_fail o e)
  unfolding or_fail
  Quiet-or_fail none e = record { same = λ w. refl }
  Quiet-or_fail (some a) e = record { same = λ w. refl }

  pub Quiet-gets : (f : World → A) → Quiet (gets f)
  unfolding gets
  Quiet-gets f = record { same = λ w. refl }

-- A value that is read from the world, or an error.
pub Quiet-find :
    {A : Type 0} (f : World → Option A) (e : StorageError) → Quiet (gets f >>= λ o. or_fail o e)
Quiet-find f e = Quiet-bind (Quiet-gets f) λ o. Quiet-or_fail o e

pub Quiet-guard : (b : Bool) (e : StorageError) → Quiet (guard b e)
unfolding guard
Quiet-guard true e = record { same = λ w. refl }
Quiet-guard false e = record { same = λ w. refl }

pub Quiet-modify : (f : World → World) → ((w : World) → core (f w) ≡ core w) → Quiet (modify f)
unfolding modify
Quiet-modify f h = record { same = h }

pub modify_cache-Quiet : (f : TtlCache Body → TtlCache Body) → Quiet (modify_cache f)
unfolding modify_cache
modify_cache-Quiet f = record { same = λ w. refl }

pub cache_get-Quiet : (env : Env) (key : String) → Quiet (cache_get env key)
unfolding cache_get
cache_get-Quiet env key = record { same = λ w. refl }

pub cache_set-Quiet :
    (env : Env) (key : String) (body : Body) (ttl : ℕ) (ns : Option String)
    → Quiet (cache_set env key body ttl ns)
unfolding cache_set
cache_set-Quiet env key body ttl ns = modify_cache-Quiet _

pub ensure_userbot_authorized-Quiet : (env : Env) → Quiet (ensure_userbot_authorized env)
unfolding ensure_userbot_authorized
ensure_userbot_authorized-Quiet env = Quiet-bind (Quiet-guard _ _) λ _. Quiet-guard _ _

pub get_cloud_for_user-Quiet : (id : ℕ) (user : CurrentUser) → Quiet (get_cloud_for_user id user)
unfolding get_cloud_for_user
get_cloud_for_user-Quiet id user =
    Quiet-bind (Quiet-gets _)
      λ _. Quiet-bind (Quiet-or_fail _ _) λ _. Quiet-bind (Quiet-guard _ _) λ _. Quiet-pure _

pub cloud_of-Quiet : (row : File) → Quiet (cloud_of row)
unfolding cloud_of
cloud_of-Quiet row = Quiet-find _ _

pub delete_file_message-Quiet :
    (env : Env) (chat_id : ℤ) (id : ℕ) → Quiet (delete_file_message env chat_id id)
unfolding delete_file_message
delete_file_message-Quiet env chat_id id = Quiet-modify _ λ w. after env.is_deleted w _
  where
    after :
        (b : Bool) (w : World) (ms : List Message)
        → core (if b then record w { messages = ms } else w) ≡ core w
    after true w ms = refl
    after false w ms = refl

pub enforce_public_storage_rate-Quiet :
    (env : Env) (action : Action) → Quiet (enforce_public_storage_rate env action)
unfolding enforce_public_storage_rate
enforce_public_storage_rate-Quiet env read = record { same = λ w. refl }
enforce_public_storage_rate-Quiet env write = record { same = λ w. refl }

pub stream_to_temp-Quiet : (n : ℕ) (chunks : List Bytes) → Quiet (stream_to_temp n chunks)
unfolding stream_to_temp
stream_to_temp-Quiet n chunks = record { same = λ w. refl }
