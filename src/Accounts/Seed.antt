-- ===== src/Accounts/Seed.antt =====
-- lcloud/auth/seed.py: an account's key pair from its words.
use lcloud.Base.{ℕ, String, Bool, Option, none, some, ◌==◌, if◌then◌else◌}
use lcloud.Base.Text.{prefix}

-- `Mnemonic("english")` and `SigningKey`: the check of the words, their seed, the public key of the first
-- 32 bytes of a seed, and the words drawn at a strength.
pub record Bip39 : Type 0 where
  pub check : String → Bool
  pub to_seed : String → String → String
  pub verify_key : String → String
  pub generate : ℕ → String

pub record DerivedIdentity : Type 0 where
  pub mnemonic : String
  pub pubkey : String
  pub privkey_seed : String

-- none stands for the `ValueError`.
unfoldable pub generate_mnemonic : Bip39 → ℕ → Option String
generate_mnemonic lib words =
    if words == 12
    then some (lib.generate 128)
    else (if words == 24 then some (lib.generate 256) else none)

-- none stands for the `ValueError`.
unfoldable pub derive_keypair : Bip39 → String → String → Option DerivedIdentity
derive_keypair lib mnemonic passphrase =
    let seed = prefix 32 (lib.to_seed mnemonic passphrase) in
    if lib.check mnemonic
    then some (record { mnemonic = mnemonic; pubkey = lib.verify_key seed; privkey_seed = seed })
    else none

unfoldable pub is_valid_mnemonic : Bip39 → String → Bool
is_valid_mnemonic lib mnemonic = lib.check mnemonic
