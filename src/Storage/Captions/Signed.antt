-- ===== src/Storage/Captions/Signed.antt =====
-- What a signature of lcloud/crypto/lc2.py is over.
use Prim.Native.Nat.{◌^◌}
use lcloud.Base.{
  ℕ, zero, suc, ◌+◌, ◌*◌, ◌/◌, ◌%◌, ◌≤◌, ◌<◌, ◌≡◌, refl, sym, ◌∙◌, Bool, true, false, ◌&&◌, Option,
  none, some, [], ◌∷◌, ◌++◌, arith, leb, ◌==◌, if◌then◌else◌, length, length-append, ◌↔◌,
}
use lcloud.Base.Int.{ℤ, pos, negsuc}
use lcloud.Base.Bytes.{Bytes, big_endian, pack_u64}
use lcloud.Storage.Captions.{
  Ed25519, canonical_payload, verify_lc2_payload, check_time, check_signature, verify_signature,
  ts_skew_seconds,
}

append-split :
    (xs ys tail rest : Bytes)
    → length xs ≡ length ys
    → xs ++ tail ≡ ys ++ rest
    → (xs ≡ ys) × (tail ≡ rest)
append-split [] [] tail rest n e = (refl, e)
append-split [] (y ∷ ys) tail rest n e = ground (arith, n)
append-split (x ∷ xs) [] tail rest n e = ground (arith, n)
append-split (x ∷ xs) (y ∷ ys) tail rest n e =
    let (same, more) = append-split xs ys tail rest (ground (arith, n)) (ground (arith, e)) in
    (ground (arith, same, e), more)

length-big_endian : (w n : ℕ) → length (big_endian w n) ≡ w
unfolding big_endian
length-big_endian zero n = refl
length-big_endian (suc w) n =
    omega (
      arith,
      length-append (big_endian w (n / 256)) ((n % 256) ∷ []),
      length-big_endian w (n / 256),
    )

-- 256 ^ w
power : ℕ → ℕ
power zero = 1
power (suc w) = 256 * power w

big_endian-injective :
    (w m n : ℕ) → m < power w → n < power w → big_endian w m ≡ big_endian w n → m ≡ n
unfolding big_endian power
big_endian-injective zero m n hm hn e = omega (arith, hm, hn)
big_endian-injective (suc w) m n hm hn e =
    let (high, low) =
      append-split (big_endian w (m / 256)) (big_endian w (n / 256)) ((m % 256) ∷ [])
        ((n % 256) ∷ []) (length-big_endian w (m / 256) ∙ sym (length-big_endian w (n / 256))) e in
    let same =
      big_endian-injective w (m / 256) (n / 256) (omega (arith, hm)) (omega (arith, hn)) high in
    let last : m % 256 ≡ n % 256 = ground (arith, low) in omega (arith, same, last)

-- What the bytes are, where there are any.
canonical-shape :
    (sha key : Bytes) (ts : ℕ) (m : Bytes)
    → canonical_payload sha ts key ≡ some m
    → (length sha ≡ 32) × (length key ≡ 32) × (ts < power 8) × (m ≡ sha ++ big_endian 8 ts ++ key)
unfolding canonical_payload pack_u64 power
canonical-shape sha key ts m e = after (leb (2 ^ 64) ts) refl (big_endian 8 ts) e
  where
    after :
        (b : Bool)
        → leb (2 ^ 64) ts ≡ b
        → (packed : Bytes)
        → (elim (if b then none else some packed) as (λ _. Option Bytes) [
          | none ↦ none
          | some packed ↦
              if length sha == 32 && length key == 32 then some (sha ++ packed ++ key) else none
        ])
          ≡ some m
        → (length sha ≡ 32) × (length key ≡ 32) × (ts < power 8) × (m ≡ sha ++ packed ++ key)
    after true h packed e = ground (arith, e)
    after false h packed e =
        (ground (arith, e), ground (arith, e), ground (arith, h), ground (arith, e))

-- The bytes that are signed for an upload tell its hash, its time and its key: those of two uploads are the
-- same only where these are.
pub canonical_payload-injective :
    (sha sha' key key' : Bytes) (ts ts' : ℕ) (m : Bytes)
    → canonical_payload sha ts key ≡ some m
    → canonical_payload sha' ts' key' ≡ some m
    → (sha ≡ sha') × (ts ≡ ts') × (key ≡ key')
canonical_payload-injective sha sha' key key' ts ts' m e e' =
    let (sha_len, key_len, bound, made) = canonical-shape sha key ts m e in
    let (sha_len', key_len', bound', made') = canonical-shape sha' key' ts' m e' in
    let (front, same_key) =
      append-split (sha ++ big_endian 8 ts) (sha' ++ big_endian 8 ts') key key'
        (omega (
          arith,
          length-append sha (big_endian 8 ts),
          length-append sha' (big_endian 8 ts'),
          length-big_endian 8 ts,
          length-big_endian 8 ts',
          sha_len,
          sha_len',
        ))
        (sym made ∙ made') in
    let (same_sha, same_ts) =
      append-split sha sha' (big_endian 8 ts) (big_endian 8 ts') (sha_len ∙ sym sha_len') front in
    (same_sha, big_endian-injective 8 ts ts' bound bound' same_ts, same_key)

-- The lengths are right, the time is positive and within a day of the clock, and Ed25519 takes the signature
-- over the hash, the time in eight bytes and the key.
abbrev pub IsSigned : Ed25519 → ℕ → Bytes → Bytes → Bytes → ℤ → Type 0
IsSigned lib now key sha sig (negsuc n) = false ≡ true
IsSigned lib now key sha sig (pos t) =
    (0 < t)
    × (t ≤ now + ts_skew_seconds)
    × (now ≤ t + ts_skew_seconds)
    × (length key ≡ 32)
    × (length sha ≡ 32)
    × (length sig ≡ 64)
    × (lib.verify key (sha ++ big_endian 8 t ++ key) sig ≡ true)

-- For a clock before 2 ^ 63, a client's signature is taken exactly when the key, the hash and the signature
-- have their lengths, the time is positive and within a day of the clock, and Ed25519 takes it over the
-- hash, the time in eight bytes and the key.
pub verify_lc2_payload-IsSigned :
    (lib : Ed25519) (now : ℕ) (key sha sig : Bytes) (ts : ℤ)
    → now < 2 ^ 63
    → (verify_lc2_payload lib now key sha sig ts ≡ none) ↔ IsSigned lib now key sha sig ts
unfolding verify_lc2_payload check_time check_signature verify_signature canonical_payload pack_u64
verify_lc2_payload-IsSigned lib now key sha sig (negsuc n) h =
    (λ e. ground arith, λ e. ground arith)
verify_lc2_payload-IsSigned lib now key sha sig (pos t) h = (λ e. ground arith, λ e. ground arith)
