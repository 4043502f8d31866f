-- ===== src/Accounts/Pin/Setup.antt =====
-- What a setup of lcloud/api/pin_recovery.py stores.
use mathlib.Core.Path.{subst}
use lcloud.Base.{
  ℕ, String, ◌≡◌, refl, sym, ap, Bool, true, not, Option, some, ◌==◌, str_eq, find_if, inl, inr,
  Bool-cases, Option-cases, if-intro,
}
use lcloud.Base.Text.{strip}
use lcloud.Accounts.{User, Accounts, Result, ok, update_row}
use lcloud.Accounts.Seed.{Bip39, DerivedIdentity, derive_keypair, is_valid_mnemonic}
use lcloud.Accounts.Pin.{
  Crypto, is_valid_pin, encrypt_seed, of_user, with_pin, store_seed, setup_pin,
}

some_inj : {A : Type 0} (a b : A) → some a ≡ some b → a ≡ b
some_inj a b e = cc

derived-mnemonic :
    (words : Bip39) (clean : String) (d : DerivedIdentity)
    → derive_keypair words clean "" ≡ some d
    → d.mnemonic ≡ clean
unfolding derive_keypair
derived-mnemonic words clean d =
    if-intro (λ (o : Option DerivedIdentity). o ≡ some d → d.mnemonic ≡ clean) (words.check clean) _
      _ (λ good e. sym (ap (λ (x : DerivedIdentity). x.mnemonic) (some_inj _ d e))) (λ bad e. cc)

-- What a setup that is answered without an error has stored.
pub record Stored (lib : Crypto) (pin clean : String) (u : User) (w v : Accounts) : Type 0 where
  pub stored : String × String
  pub valid : is_valid_pin lib pin ≡ true
  pub sealed : encrypt_seed lib pin clean ≡ some stored
  pub row : v.users ≡ update_row (λ (x : User). x.id) (with_pin lib pin stored u) w.users
  pub rate : v.recover_rate ≡ w.recover_rate

store_seed-Stored :
    (lib : Crypto) (pin : String) (d : DerivedIdentity) (u : User) (w : Accounts)
    → is_valid_pin lib pin ≡ true
    → let p = store_seed lib pin d (some u) w in p.0 ≡ ok true → Stored lib pin d.mnemonic u w p.1
unfolding store_seed
store_seed-Stored lib pin d u w valid =
    if-intro (λ (p : Result Bool × Accounts). p.0 ≡ ok true → Stored lib pin d.mnemonic u w p.1)
      (not (str_eq u.pubkey d.pubkey)) _ _ (λ other bad. cc)
      (λ same. elim (Option-cases (encrypt_seed lib pin d.mnemonic)) [
        | inl e ↦ rw (e, store_seed) (λ bad. cc)
        | inr (stored, e) ↦
            rw (e, store_seed)
              (λ fine. record {
                stored = stored;
                valid = valid;
                sealed = e;
                row = refl;
                rate = refl;
              })
      ])

pub setup_pin-Stored :
    (lib : Crypto) (words : Bip39) (id : ℕ) (pin mnemonic : String) (u : User) (w : Accounts)
    → find_if (λ (x : User). x.id == id) w.users ≡ some u
    → let p = setup_pin lib words (of_user id) pin mnemonic w in
      p.0 ≡ ok true → Stored lib pin (strip lib.is_space mnemonic) u w p.1
unfolding setup_pin
setup_pin-Stored lib words id pin mnemonic u w at =
    let clean = strip lib.is_space mnemonic in
    let P : Result Bool × Accounts → Type 0 = λ p. p.0 ≡ ok true → Stored lib pin clean u w p.1 in
    elim (Bool-cases (is_valid_pin lib pin)) [
      | inl valid ↦
          rw (valid, setup_pin)
            (if-intro P (not (is_valid_mnemonic words clean)) _ _ (λ other bad. cc)
              (λ good. elim (Option-cases (derive_keypair words clean "")) [
                | inl e ↦ rw (e, setup_pin) (λ bad. cc)
                | inr (d, e) ↦
                    rw (e, setup_pin, at)
                      (subst
                        (λ t.
                          (store_seed lib pin d (some u) w).0 ≡ ok true
                          → Stored lib pin t u w (store_seed lib pin d (some u) w).1)
                        (derived-mnemonic words clean d e) (store_seed-Stored lib pin d u w valid))
              ]))
      | inr invalid ↦ rw (invalid, setup_pin) (λ bad. cc)
    ]
