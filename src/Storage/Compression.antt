-- ===== src/Storage/Compression.antt =====
-- lcloud/api/compression.py and compression_video.py: files that are written smaller before they are sent.
--
-- Pillow and ffmpeg are arguments. A file is its bytes; the file at the other path is the result.
use lcloud.Base.{
  ℕ, ◌*◌, String, Bool, true, false, ◌&&◌, Option, none, some, List, [], ◌∷◌, leb, ltb, str_eq, not,
  if◌then◌else◌, any_of, length, ◌==◌,
}
use lcloud.Base.Bytes.{Bytes}

abbrev pub min_recompress_bytes : ℕ
min_recompress_bytes = 50 * 1024

abbrev pub min_video_bytes : ℕ
min_video_bytes = 200 * 1024

-- What a call of Pillow comes to: an exception is one that the code catches (`UnidentifiedImageError`,
-- `OSError`, `ValueError`) or another one.
pub data Pillow (A : Type 0) : Type 0 where
  done : A → Pillow A
  caught uncaught : Pillow A

-- What a run of ffmpeg comes to: its time is out, it does not start, or it exits with a code and a file.
pub data Ffmpeg : Type 0 where
  timed_out not_run : Ffmpeg
  exited : ℕ → Option Bytes → Ffmpeg

-- `lower` of a text, an image's alpha channel, the image saved in a format, and ffmpeg.
pub record Codecs : Type 0 where
  pub lower : String → String
  pub has_alpha : Bytes → Pillow Bool
  pub save : String → Bytes → Pillow Bytes
  pub ffmpeg_available : Bool
  pub run_ffmpeg : Bytes → Ffmpeg

abbrev is_in : String → List String → Bool
is_in s = any_of (str_eq s)

unfoldable pub is_compressible_mime : Codecs → String → Bool
is_compressible_mime lib mime =
    not (str_eq mime "")
    && is_in (lib.lower mime) ("image/jpeg" ∷ "image/jpg" ∷ "image/png" ∷ "image/webp" ∷ [])

unfoldable pub is_compressible_video_mime : Codecs → String → Bool
is_compressible_video_mime lib mime =
    not (str_eq mime "")
    && is_in (lib.lower mime) (
        "video/mp4" ∷ "video/quicktime" ∷ "video/x-msvideo" ∷ "video/x-matroska" ∷ "video/webm"
        ∷ "video/3gpp" ∷ [])

-- The file to send, its mime and whether it was written anew.
pub record Compressed : Type 0 where
  pub contents : Bytes
  pub mime : String
  pub was_compressed : Bool

abbrev pub unchanged : Bytes → String → Compressed
unchanged src mime = record { contents = src; mime = mime; was_compressed = false }

-- The new file, if it is smaller.
unfoldable pub if_smaller : Bytes → String → Bytes → String → Compressed
if_smaller src mime out out_mime =
    if leb (length src) (length out)
    then unchanged src mime
    else record { contents = out; mime = out_mime; was_compressed = true }

-- The format and the mime of the new file.
unfoldable pub output_format : String → Bool → String × String
output_format mime has_alpha =
    if str_eq mime "image/png" && has_alpha
    then ("PNG", "image/png")
    else (if str_eq mime "image/webp" then ("WEBP", "image/webp") else ("JPEG", "image/jpeg"))

unfoldable pub encode_image : Codecs → Bytes → String → Pillow Compressed
encode_image lib src mime = elim (lib.has_alpha src) [
  | caught ↦ done (unchanged src mime)
  | uncaught ↦ uncaught
  | done has_alpha ↦
      let (format, out_mime) = output_format (lib.lower mime) has_alpha in
      elim (lib.save format src) [
        | caught ↦ done (unchanged src mime)
        | uncaught ↦ uncaught
        | done out ↦ done (if_smaller src mime out out_mime)
      ]
]

unfoldable pub compress_image_in_place : Codecs → Bytes → String → Pillow Compressed
compress_image_in_place lib src mime =
    if ltb (length src) min_recompress_bytes
    then done (unchanged src mime)
    else (if is_compressible_mime lib mime
        then encode_image lib src mime
        else done (unchanged src mime))

-- A run that leaves no file has an `OSError` at its `stat`.
unfoldable pub after_ffmpeg : Bytes → String → Ffmpeg → Compressed
after_ffmpeg src mime timed_out = unchanged src mime
after_ffmpeg src mime not_run = unchanged src mime
after_ffmpeg src mime (exited code none) = unchanged src mime
after_ffmpeg src mime (exited code (some out)) =
    if code == 0 then if_smaller src mime out "video/mp4" else unchanged src mime

unfoldable pub compress_video_in_place : Codecs → Bytes → String → Compressed
compress_video_in_place lib src mime =
    if ltb (length src) min_video_bytes
    then unchanged src mime
    else (if is_compressible_video_mime lib mime && lib.ffmpeg_available
        then after_ffmpeg src mime (lib.run_ffmpeg src)
        else unchanged src mime)

abbrev pub or_original : Bytes → String → Pillow Compressed → Compressed
or_original src mime (done c) = c
or_original src mime caught = unchanged src mime
or_original src mime uncaught = unchanged src mime

-- The pass of `upload_file` and of `public_upload_file`: an exception leaves the original.
unfoldable pub compression_pass : Codecs → Bool → Bytes → String → Compressed
compression_pass lib compress src mime =
    if compress && is_compressible_mime lib mime
    then or_original src mime (compress_image_in_place lib src mime)
    else (if compress && is_compressible_video_mime lib mime
        then compress_video_in_place lib src mime
        else unchanged src mime)
