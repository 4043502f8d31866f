-- ===== src/Accounts/Pin/Recovery.antt =====
-- Words that are stored and recovered.
use mathlib.Core.Path.{subst}
use lcloud.Base.{
  ℕ, String, ◌≡◌, ◌≢◌, refl, sym, ap, ◌∙◌, Bool, true, false, not, Option, none, some, List, [],
  ◌∷◌, arith, ◌==◌, if◌then◌else◌, find_if, if-intro,
}
use lcloud.Base.Text.{strip}
use lcloud.RateLimiter.{try_acquire}
use lcloud.Accounts.{
  User, Accounts, Result, ok, Found, absent, several, found, scalar_one_or_none, or_several,
  update_row,
}
use lcloud.Accounts.Seed.{Bip39}
use lcloud.Accounts.Pin.{
  Crypto, is_valid_pin, derive_kdf_key, encrypt_seed, decrypt_seed, of_user, with_pin, setup_pin,
  opened, attempt, Guess, has_contact, recover_limited, recover_seed,
}
use lcloud.Accounts.Pin.Setup.{Stored, setup_pin-Stored}

-- What the libraries promise: a hash takes its PIN, and a box opens with its key.
pub record Sound (lib : Crypto) : Type 0 where
  pub hashes : (pin : String) → lib.verify (lib.hash pin) pin ≡ true
  pub opens : (key text : String) → lib.decrypt key (lib.encrypt key text) ≡ some text

some_inj : {A : Type 0} (a b : A) → some a ≡ some b → a ≡ b
some_inj a b e = cc

decrypt-encrypt :
    (lib : Crypto) (pin text : String) (stored : String × String)
    → Sound lib
    → encrypt_seed lib pin text ≡ some stored
    → decrypt_seed lib pin stored.0 stored.1 ≡ some text
unfolding encrypt_seed decrypt_seed
decrypt-encrypt lib pin text (salt, c) sound e =
    after (derive_kdf_key lib pin (lib.token_bytes 16)) refl e
  where
    after :
        (o : Option String)
        → derive_kdf_key lib pin (lib.token_bytes 16) ≡ o
        → elim o as (λ _. Option (String × String)) [
          | none ↦ none
          | some key ↦ some (lib.token_bytes 16, lib.encrypt key text)
        ]
          ≡ some (salt, c)
        → decrypt_seed lib pin salt c ≡ some text
    after none k e = cc
    after (some key) k e =
        subst (λ (x : String × String). decrypt_seed lib pin x.0 x.1 ≡ some text)
          (some_inj (lib.token_bytes 16, lib.encrypt key text) (salt, c) e)
          (rw (k, decrypt_seed) (sound.opens key text))

opened-with_pin :
    (lib : Crypto) (pin text : String) (stored : String × String) (u : User)
    → Sound lib
    → encrypt_seed lib pin text ≡ some stored
    → (opened lib pin stored.1 (with_pin lib pin stored u)).0 ≡ ok text
unfolding opened with_pin
opened-with_pin lib pin text (salt, c) u sound e =
    rw (opened, decrypt-encrypt lib pin text (salt, c) sound e) refl

attempt-with_pin :
    (lib : Crypto) (now : ℕ) (pin text : String) (stored : String × String) (u : User)
    → Sound lib
    → encrypt_seed lib pin text ≡ some stored
    → (attempt lib now pin (with_pin lib pin stored u)).0 ≡ ok text
unfolding attempt with_pin
attempt-with_pin lib now pin text (salt, c) u sound e =
    rw (sound.hashes pin) (opened-with_pin lib pin text (salt, c) u sound e)

found_inj : (a b : User) → found a ≡ found b → a ≡ b
found_inj a b e = cc

found-has_contact :
    (contact : String) (users : List User) (u : User)
    → scalar_one_or_none (has_contact contact) users ≡ found u
    → has_contact contact u ≡ true
found-has_contact contact [] u e = cc
found-has_contact contact (x ∷ users) u e =
    after (has_contact contact x) refl (scalar_one_or_none (has_contact contact) users) e
      (found-has_contact contact users u)
  where
    after :
        (b : Bool)
        → has_contact contact x ≡ b
        → (f : Found User) → (if b then or_several x f else f) ≡ found u
        → (f ≡ found u → has_contact contact u ≡ true)
        → has_contact contact u ≡ true
    after true p absent e h = cc
    after true p several e h = cc
    after true p (found y) e h = cc
    after false p f e h = h e

-- The row of the only account with a contact, written again.
alone-update_row :
    (contact : String) (users : List User) (u new : User)
    → new.id ≡ u.id
    → new.contact_handle ≡ u.contact_handle
    → find_if (λ (x : User). x.id == u.id) users ≡ some u
    → scalar_one_or_none (has_contact contact) users ≡ found u
    → scalar_one_or_none (has_contact contact) (update_row (λ (x : User). x.id) new users)
      ≡ found new
alone-update_row contact [] u new i c at e = cc
alone-update_row contact (x ∷ users) u new i c at e =
    after (has_contact contact x) refl (scalar_one_or_none (has_contact contact) users) refl e
      (alone-update_row contact users u new i c)
  where
    after :
        (b : Bool)
        → has_contact contact x ≡ b
        → (f : Found User) → scalar_one_or_none (has_contact contact) users ≡ f
        → (if b then or_several x f else f) ≡ found u
        → (find_if (λ (y : User). y.id == u.id) users ≡ some u
            → scalar_one_or_none (has_contact contact) users ≡ found u
            → scalar_one_or_none (has_contact contact) (update_row (λ (y : User). y.id) new users)
              ≡ found new)
        → scalar_one_or_none (has_contact contact) (update_row (λ (y : User). y.id) new (x ∷ users))
          ≡ found new
    after true p absent q e h = ground (arith, found_inj x u e)
    after true p several q e h = cc
    after true p (found y) q e h = cc
    after false p f q e h =
        ground (arith, some_inj x u, found-has_contact contact users u (q ∙ e), h)

recover_limited-found :
    (lib : Crypto) (g : Guess) (w : Accounts) (u : User)
    → is_valid_pin lib g.pin ≡ true
    → scalar_one_or_none (has_contact g.contact_handle) w.users ≡ found u
    → (recover_limited lib g w).0 ≡ (attempt lib g.now g.pin u).0
unfolding recover_limited
recover_limited-found lib g w u valid e = rw (valid, recover_limited, e) refl

its_id :
    (id : ℕ) (users : List User) (u : User)
    → find_if (λ (x : User). x.id == id) users ≡ some u
    → u.id ≡ id
its_id id [] u e = cc
its_id id (x ∷ users) u e = ground (arith, its_id id users u)

recover_seed-Stored :
    (lib : Crypto) (g : Guess) (clean : String) (u : User) (w v : Accounts)
    → Sound lib
    → find_if (λ (x : User). x.id == u.id) w.users ≡ some u
    → scalar_one_or_none (has_contact g.contact_handle) w.users ≡ found u
    → Stored lib g.pin clean u w v
    → (try_acquire g.client_ip 1 g.tick w.recover_rate).0 ≡ true
    → (recover_seed lib g v).0 ≡ ok clean
unfolding recover_seed with_pin
recover_seed-Stored lib g clean u w v sound at alone s passes =
    let limit = try_acquire g.client_ip 1 g.tick v.recover_rate in
    let passed : limit.0 ≡ true =
      ap (λ r. (try_acquire g.client_ip 1 g.tick r).0) s.rate ∙ passes in
    let u' = with_pin lib g.pin s.stored u in
    let there : scalar_one_or_none (has_contact g.contact_handle) v.users ≡ found u' =
      ap (scalar_one_or_none (has_contact g.contact_handle)) s.row
      ∙ alone-update_row g.contact_handle w.users u u' refl refl at alone in
    rw passed (
      recover_limited-found lib g (record v { recover_rate = limit.1 }) u' s.valid there
      ∙ attempt-with_pin lib g.now g.pin clean s.stored u sound s.sealed)

-- When a user has stored words under a PIN, and no other account has the user's contact, the next
-- recovery with this contact and PIN, at any time and from any address that the rate limit passes,
-- replies with these words, stripped, even if the account was locked before. The libraries' hash takes the PIN that it was
-- made of, and their box opens with the key that closed it.
pub recover_seed-setup_pin :
    (lib : Crypto) (words : Bip39) (id : ℕ) (g : Guess) (mnemonic : String) (u : User)
    (w : Accounts)
    → Sound lib
    → find_if (λ (x : User). x.id == id) w.users ≡ some u
    → scalar_one_or_none (has_contact g.contact_handle) w.users ≡ found u
    → let p = setup_pin lib words (of_user id) g.pin mnemonic w in
      p.0 ≡ ok true
      → (try_acquire g.client_ip 1 g.tick w.recover_rate).0 ≡ true
      → (recover_seed lib g p.1).0 ≡ ok (strip lib.is_space mnemonic)
recover_seed-setup_pin lib words id g mnemonic u w sound at alone done passes =
    recover_seed-Stored lib g (strip lib.is_space mnemonic) u w _ sound
      (subst (λ n. find_if (λ (x : User). x.id == n) w.users ≡ some u)
        (sym (its_id id w.users u at)) at)
      alone (setup_pin-Stored lib words id g.pin mnemonic u w at done) passes

-- Where two accounts have the same contact, no recovery by this contact replies with words, whatever
-- the PIN, and none changes an account.
pub recover_seed-several :
    (lib : Crypto) (g : Guess) (w : Accounts)
    → scalar_one_or_none (has_contact g.contact_handle) w.users ≡ several
    → ((words : String) → (recover_seed lib g w).0 ≢ ok words)
      × ((recover_seed lib g w).1.users ≡ w.users)
unfolding recover_seed recover_limited
recover_seed-several lib g w e =
    let limited : Accounts = record w {
      recover_rate = (try_acquire g.client_ip 1 g.tick w.recover_rate).1;
    } in
    let P : Result String × Accounts → Type 0 =
      λ p. ((words : String) → p.0 ≢ ok words) × (p.1.users ≡ w.users) in
    if-intro P (try_acquire g.client_ip 1 g.tick w.recover_rate).0 _ _
      (λ passed.
        if-intro P (not (is_valid_pin lib g.pin)) _ _ (λ bad. (λ words f. cc, refl))
          (λ good. rw (e, recover_limited) (λ words f. cc, refl)))
      (λ refused. (λ words f. cc, refl))
