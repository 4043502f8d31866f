-- ===== src/Storage/PublicFiles/Cached.antt =====
-- An upload by a publishable key whose context comes from the cache.
use mathlib.Core.Path.{subst}
use lcloud.Base.{String, ◌≡◌, refl, sym, ap, ◌∙◌, Bool, true, false, none, some, arith}
use lcloud.Cache
use lcloud.Cache.Keys.{k_json_storage_key}
use lcloud.Db.Errors.{write}
use lcloud.Storage.Session.{
  World, Handler, Answer, ok, raise, StorageError, Env, Context, context, cache_get,
  attribute_error, ◌>>=◌,
}
use lcloud.Storage.Upload.{Libs, Form}
use lcloud.Storage.PublicKeys.{
  cached_context, context_or_rows, load_public_storage_context, enforce_public_storage_rate,
}
use lcloud.Storage.PublicFiles.{upload_in, public_upload_file}
use lcloud.Storage.Rules.{
  Core, core, Holds, Quiet, Meets, Meets-bind, Meets-Quiet, Meets-weaken, Meets-or_fail, Meets-pure,
}
use lcloud.Storage.Rules.Unchanged.{
  Quiet-guard, ensure_userbot_authorized-Quiet, stream_to_temp-Quiet,
  enforce_public_storage_rate-Quiet,
}
use lcloud.Storage.Rules.Steps.{
  assert_can_store-Quiet, upload_file_to_cloud-Quiet, find_previous-Quiet,
}

abbrev pub is_ok : {A : Type 0} → Answer A → Bool
is_ok (ok a) = true
is_ok (raise e) = false

module _ (d : Core) where
  -- The tables are as they were.
  abbrev IsStill : Core → Type 0
  IsStill c = c ≡ d

  quietly : {A : Type 0} {m : Handler A} → Quiet m → Meets IsStill IsStill (λ _. IsStill) m
  quietly q = Meets-Quiet IsStill q λ c p. p

  -- A step from a state that cannot be.
  vacuous :
      {A : Type 0} {m : Handler A}
      → Meets IsStill (λ c. IsStill c × (false ≡ true)) (λ (_ : A) _. false ≡ true) m
  vacuous = record { at = λ w p. absurd (ground (arith, p.1)) }

  upload_in-Fails :
      (libs : Libs) (env : Env) (c : Context) (form : Form)
      → c.cloud.owner_id ≡ none
      → Meets IsStill IsStill (λ _ _. false ≡ true) (upload_in libs env c form)
  unfolding upload_in
  upload_in-Fails libs env c form e = Meets-bind IsStill (quietly (Quiet-guard _ _)) λ _.
      Meets-bind IsStill (quietly (ensure_userbot_authorized-Quiet env)) λ _.
        Meets-bind IsStill (quietly (stream_to_temp-Quiet _ _)) λ contents.
          Meets-bind IsStill (quietly (Quiet-guard _ _)) λ _.
            Meets-bind IsStill (quietly (assert_can_store-Quiet c.user.id _)) λ _.
              Meets-bind IsStill (quietly (upload_file_to_cloud-Quiet _ env _ _ _)) λ sent.
                Meets-bind IsStill (quietly (find_previous-Quiet _)) λ prev.
                  Meets-bind IsStill
                    (Meets-weaken IsStill {R = λ _ c. IsStill c × (false ≡ true)}
                      (Meets-or_fail IsStill c.cloud.owner_id attribute_error λ c p. p)
                      λ owner d p. (p.0, ground (arith, e, p.1)))
                    λ owner. vacuous

  context-Fails :
      (libs : Libs) (env : Env) (key : String) (c : Context) (form : Form)
      → Meets IsStill IsStill
          (λ _ _. false ≡ true)
          (context_or_rows env key (some (context (cached_context c))) >>= λ c.
            upload_in libs env c form)
  unfolding context_or_rows cached_context
  context-Fails libs env key c form =
      Meets-bind IsStill {Q = λ x d. IsStill d × (x ≡ cached_context c)}
        (Meets-bind IsStill (quietly (Quiet-guard _ _))
          λ _. Meets-pure IsStill (cached_context c) λ d p. (p, refl))
        λ x. record {
          at = λ w p.
              (upload_in-Fails libs env x form (ap (λ (c : Context). c.cloud.owner_id) p.1)).at w
                p.0;
        }

  -- From a world whose cache holds such a context.
  loaded-Fails :
      (libs : Libs) (env : Env) (key : String) (c : Context) (form : Form) (w : World)
      → IsStill (core w)
      → (Cache.get (k_json_storage_key key) env.tick w.cache).0 ≡ some (context (cached_context c))
      → Holds IsStill
          (λ _ _. false ≡ true)
          ((load_public_storage_context env key >>= λ c. upload_in libs env c form) w)
  unfolding load_public_storage_context cache_get ◌>>=◌
  loaded-Fails libs env key c form w i e =
      let (found, cache) = Cache.get (k_json_storage_key key) env.tick w.cache in
      let w' : World = record w { cache = cache } in
      subst
        (λ x.
          Holds IsStill (λ _ _. false ≡ true)
            ((context_or_rows env key x >>= λ c. upload_in libs env c form) w'))
        (sym e) ((context-Fails libs env key c form).at w' i)

-- What holds after each outcome of the first handler holds after both.
bind-cases :
    {A B : Type 0} (P : Answer B × World → Type 0) (m : Handler A) (f : A → Handler B) (w : World)
    → ((e : StorageError) (w' : World) → m w ≡ (raise e, w') → P (raise e, w'))
    → ((a : A) (w' : World) → m w ≡ (ok a, w') → P (f a w'))
    → P ((m >>= f) w)
unfolding ◌>>=◌
bind-cases {A} {B} P m f w p q = after (m w) refl
  where
    after :
        (r : Answer A × World)
        → m w ≡ r
        → P (elim r.0 as (λ _. Answer B × World) [ ok a ↦ f a r.1 | raise e ↦ (raise e, r.1) ])
    after (ok a, w') e = q a w' e
    after (raise x, w') e = p x w' e

rate_cache : (env : Env) (w : World) → (enforce_public_storage_rate env write w).1.cache ≡ w.cache
unfolding enforce_public_storage_rate
rate_cache env w = refl

-- If the cache holds the context that a request by this key has cached, then an upload by the key is
-- refused, and changes no user, file or link, although its bytes may have been sent to Telegram.
pub public_upload_file-cached :
    (libs : Libs) (env : Env) (key : String) (form : Form) (c : Context) (w : World)
    → (Cache.get (k_json_storage_key key) env.tick w.cache).0 ≡ some (context (cached_context c))
    → let (r, w') = public_upload_file libs env key form w in (is_ok r ≡ false) × (core w' ≡ core w)
unfolding public_upload_file
public_upload_file-cached libs env key form c w e =
    bind-cases (λ r. (is_ok r.0 ≡ false) × (core r.1 ≡ core w))
      (enforce_public_storage_rate env write) _ w (λ x w' same. (refl, kept (raise x) w' same))
      λ a w' same. failed _ (
        loaded-Fails (core w) libs env key c form w' (kept (ok a) w' same) (
          subst
            (λ cache.
              (Cache.get (k_json_storage_key key) env.tick cache).0
              ≡ some (context (cached_context c)))
            (sym (rate_cache env w) ∙ ap (λ r. r.1.cache) same) e))
  where
    kept :
        (r : Answer (Unit {0})) (w' : World)
        → enforce_public_storage_rate env write w ≡ (r, w')
        → core w' ≡ core w
    kept r w' same =
        ap (λ r. core r.1) (sym same) ∙ (enforce_public_storage_rate-Quiet env write).same w

    failed :
        {A : Type 0} (r : Answer A × World)
        → Holds (λ d. d ≡ core w) (λ (_ : A) _. false ≡ true) r
        → (is_ok r.0 ≡ false) × (core r.1 ≡ core w)
    failed (ok a, w') h = absurd (ground (arith, h))
    failed (raise x, w') h = (refl, h)
