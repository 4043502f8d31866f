-- ===== src/Storage/Captions.antt =====
-- lcloud/crypto/lc2.py, lcloud/crypto/sign.py and lcloud/userbot/lc1.py: what is signed for a file, and the
-- captions of its message.
--
-- Ed25519 is an argument. The texts of `json.dumps` are written out, since every value is plain.
pub mod Signed
use Prim.Native.String.{◌++◌ as str_append}
use lcloud.Base.{
  ℕ, ◌+◌, ◌-◌, ◌*◌, ◌/◌, ◌%◌, String, Bool, true, false, ◌&&◌, not, Option, none, some, List, [],
  ◌∷◌, ◌++◌, ltb, ◌==◌, if◌then◌else◌, length, ◌≡◌, refl,
}
use lcloud.Base.Text.{char_at, show}
use lcloud.Base.Int.{ℤ, pos, negsuc}
use lcloud.Base.Bytes.{Bytes, hex, pack_u64, pack_i64}

-- `VerifyKey(pubkey).verify`, and the server's key with its signatures.
pub record Ed25519 : Type 0 where
  pub verify : Bytes → Bytes → Bytes → Bool
  pub sign : Bytes → Bytes
  pub verify_key : Bytes

-- `verify_signature` of lcloud/auth/seed.py
unfoldable pub verify_signature : Ed25519 → Bytes → Bytes → Bytes → Bool
verify_signature lib pubkey payload signature =
    (length pubkey == 32 && length signature == 64) && lib.verify pubkey payload signature

abbrev pub ts_skew_seconds : ℕ
ts_skew_seconds = 24 * 3600

pub record Lc2Payload : Type 0 where
  pub pubkey : Bytes
  pub sha256 : Bytes
  pub signature : Bytes
  pub ts : ℕ

-- A field of the text that `json.dumps` writes.
abbrev quoted : String → String → String
quoted name value = str_append "\"" (str_append name (str_append "\":\"" (str_append value "\",")))

-- `Lc2Payload.to_caption`
unfoldable pub to_caption : Lc2Payload → String
to_caption p = str_append "LC2:{" (
    str_append (quoted "o" (hex p.pubkey)) (
      str_append (quoted "h" (hex p.sha256)) (
        str_append (quoted "s" (hex p.signature))
          (str_append "\"t\":" (str_append (show p.ts) "}")))))

-- `canonical_payload`: none stands for the `ValueError`s and the `struct.error`.
unfoldable pub canonical_payload : Bytes → ℕ → Bytes → Option Bytes
canonical_payload sha256 ts pubkey = elim (pack_u64 ts) [
  | none ↦ none
  | some packed ↦
      if length sha256 == 32 && length pubkey == 32 then some (sha256 ++ packed ++ pubkey) else none
]

-- `abs(now - ts) > TS_SKEW_SECONDS`
abbrev pub is_skewed : ℕ → ℕ → Bool
is_skewed now ts = if ltb (ts + ts_skew_seconds) now then true else ltb (now + ts_skew_seconds) ts

-- The part of `verify_lc2_payload` after the time; none stands for success. A `struct.error` needs a time
-- past 2 ^ 64, which is skewed for every clock before it.
unfoldable pub check_signature : Ed25519 → Bytes → Option Bytes → Bytes → Option String
check_signature lib pubkey none signature = some "error"
check_signature lib pubkey (some payload) signature =
    if verify_signature lib pubkey payload signature then none else some "bad_signature"

unfoldable pub check_time : Ed25519 → ℕ → Bytes → Bytes → Bytes → ℤ → Option String
check_time lib now pubkey sha256 signature (negsuc n) = some "bad_ts"
check_time lib now pubkey sha256 signature (pos ts) =
    if ts == 0
    then some "bad_ts"
    else (if is_skewed now ts
        then some "ts_skew"
        else check_signature lib pubkey (canonical_payload sha256 ts pubkey) signature)

-- none stands for `(True, None)`, and a reason for `(False, reason)`.
unfoldable pub verify_lc2_payload : Ed25519 → ℕ → Bytes → Bytes → Bytes → ℤ → Option String
verify_lc2_payload lib now pubkey sha256 signature ts =
    if not (length pubkey == 32)
    then some "bad_pubkey_len"
    else (if not (length sha256 == 32)
        then some "bad_sha256_len"
        else (if not (length signature == 64)
            then some "bad_signature_len"
            else check_time lib now pubkey sha256 signature ts))

abbrev base64_digit : ℕ → String
base64_digit n = char_at "ABCDEFGHIJKLMNOPQRSTUVWXYZabcdefghijklmnopqrstuvwxyz0123456789-_" n

-- `_b64url_encode`, with no padding
unfoldable pub b64url_encode : Bytes → String
b64url_encode [] = ""
b64url_encode (a ∷ []) = str_append (base64_digit (a / 4)) (base64_digit (a % 4 * 16))
b64url_encode (a ∷ b ∷ []) =
    str_append (base64_digit (a / 4))
      (str_append (base64_digit (a % 4 * 16 + b / 16)) (base64_digit (b % 16 * 4)))
b64url_encode (a ∷ b ∷ c ∷ bytes) = str_append (base64_digit (a / 4)) (
    str_append (base64_digit (a % 4 * 16 + b / 16)) (
      str_append (base64_digit (b % 16 * 4 + c / 64))
        (str_append (base64_digit (c % 64)) (b64url_encode bytes))))

base64_test : b64url_encode (77 ∷ 97 ∷ 110 ∷ 255 ∷ []) ≡ "TWFu_w"
unfolding b64url_encode char_at
base64_test = refl

-- `build_lc1_caption`: none stands for the `ValueError`s.
unfoldable pub build_lc1_caption : Bytes → Bytes → Bytes → ℕ → Option String
build_lc1_caption sha256_digest signature owner_pubkey uploaded_at_unix =
    if length sha256_digest == 32 && length signature == 64 && length owner_pubkey == 32
    then some (
        str_append "LC1:{" (
          str_append (quoted "o" (b64url_encode owner_pubkey)) (
            str_append (quoted "s" (b64url_encode signature)) (
              str_append (quoted "h" (b64url_encode sha256_digest))
                (str_append "\"t\":" (str_append (show uploaded_at_unix) "}"))))))
    else none

abbrev append_all : Option Bytes → Option Bytes → Option Bytes
append_all none ys = none
append_all (some xs) none = none
append_all (some xs) (some ys) = some (xs ++ ys)

-- `file_signature_payload`: none stands for the `ValueError`s and the `struct.error`s.
unfoldable pub file_signature_payload : Bytes → ℤ → ℕ → Bytes → ℕ → Option Bytes
file_signature_payload sha256_digest chat_id message_id owner_pubkey uploaded_at_unix =
    if length sha256_digest == 32 && length owner_pubkey == 32
    then append_all (some sha256_digest) (
        append_all (pack_i64 chat_id) (
          append_all (pack_i64 (pos message_id))
            (append_all (some owner_pubkey) (pack_i64 (pos uploaded_at_unix)))))
    else none
