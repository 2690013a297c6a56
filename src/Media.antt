-- ===== src/Media.antt =====
-- The validation of uploaded images in backend/app/common/media.py: `validate_file_type`,
-- `validate_file_size`, `validate_image_dimensions` and `validate_media_upload`. Bytes are numbers.
-- Pillow is a parameter: it is not installed, or its `Image.open(...).size` returns a size or raises.
-- The blur score and the derivatives, which OpenCV and Pillow compute, are left out.
pub mod Laws
pub mod Signatures
pub mod Sizes
use akar_ai.Prelude.{
  ℕ, ◌+◌, ◌*◌, String, Bool, true, false, not, ◌&&◌, ◌||◌, ◌==◌, Option, none, some, List, [], ◌∷◌,
  length, take, drop, ltb, str_eq, format, str, if◌then◌else◌,
}

-- A value, or the `MediaValidationError` with its detail.
pub data Validated {ℓ} (A : Type ℓ) : Type ℓ where
  valid : A → Validated A
  invalid : String → Validated A

module _ {ℓ κ} {A : Type ℓ} {B : Type κ} where
  abbrev pub and_validate : Validated A → (A → Validated B) → Validated B
  and_validate (valid a) f = f a
  and_validate (invalid detail) f = invalid detail

abbrev pub bytes_eq : List ℕ → List ℕ → Bool
bytes_eq [] [] = true
bytes_eq [] (b ∷ bs) = false
bytes_eq (a ∷ xs) [] = false
bytes_eq (a ∷ xs) (b ∷ bs) = a == b && bytes_eq xs bs

-- `file_bytes[i:j]` with i and j - i
abbrev pub slice : ℕ → ℕ → List ℕ → List ℕ
slice i n file_bytes = take n (drop i file_bytes)

abbrev pub jpeg_mark : List ℕ
jpeg_mark = 255 ∷ 216 ∷ 255 ∷ []

abbrev pub png_mark : List ℕ
png_mark = 137 ∷ 80 ∷ 78 ∷ 71 ∷ 13 ∷ 10 ∷ 26 ∷ 10 ∷ []

abbrev pub riff_mark : List ℕ
riff_mark = 82 ∷ 73 ∷ 70 ∷ 70 ∷ []

abbrev pub webp_mark : List ℕ
webp_mark = 87 ∷ 69 ∷ 66 ∷ 80 ∷ []

-- The type that the first bytes show.
unfoldable pub detect_mime : List ℕ → Option String
detect_mime file_bytes =
    if bytes_eq (slice 0 3 file_bytes) jpeg_mark
    then some "image/jpeg"
    else if bytes_eq (slice 0 8 file_bytes) png_mark
    then some "image/png"
    else if bytes_eq (slice 0 4 file_bytes) riff_mark && bytes_eq (slice 8 4 file_bytes) webp_mark
    then some "image/webp"
    else none

-- `content_type and content_type.lower() != mime`; `lower` is Python's.
abbrev pub contradicts : (String → String) → Option String → String → Bool
contradicts lower none mime = false
contradicts lower (some content_type) mime =
    not (str_eq content_type "") && not (str_eq (lower content_type) mime)

abbrev text_or_empty : Option String → String
text_or_empty none = ""
text_or_empty (some s) = s

abbrev matched_type : (String → String) → Option String → Option String → Validated String
matched_type lower content_type none =
    invalid "Unsupported file type. Allowed: image/jpeg, image/png, image/webp"
matched_type lower content_type (some mime) =
    if contradicts lower content_type mime
    then invalid (
        format (
          "Content-Type header '"
          ∷ text_or_empty content_type
          ∷ "' does not match file content"
          ∷ []))
    else valid mime

unfoldable pub validate_file_type : (String → String) → List ℕ → Option String → Validated String
validate_file_type lower file_bytes content_type =
    if ltb (length file_bytes) 12
    then invalid "File is too small to be a valid image"
    else matched_type lower content_type (detect_mime file_bytes)

unfoldable pub validate_file_size : ℕ → List ℕ → Validated (Unit {0})
validate_file_size media_max_file_size_mb file_bytes =
    if ltb (media_max_file_size_mb * 1024 * 1024) (length file_bytes)
    then invalid (
        format
          ("File size exceeds maximum allowed size of " ∷ str media_max_file_size_mb ∷ "MB" ∷ []))
    else if length file_bytes == 0
    then invalid "Uploaded file is empty"
    else valid tt

pub data Pillow : Type 0 where
  absent : Pillow
  present : (List ℕ → Option (ℕ × ℕ)) → Pillow

-- `struct.unpack(">II", ihdr)`, which raises unless there are eight bytes
abbrev pub unpack_pair : List ℕ → Option (ℕ × ℕ)
unpack_pair (a ∷ b ∷ c ∷ d ∷ e ∷ f ∷ g ∷ h ∷ []) =
    some (((a * 256 + b) * 256 + c) * 256 + d, ((e * 256 + f) * 256 + g) * 256 + h)
unpack_pair _ = none

abbrev pub or_unreadable : Option (ℕ × ℕ) → Validated (ℕ × ℕ)
or_unreadable none = invalid "Unable to read image dimensions"
or_unreadable (some size) = valid size

unfoldable pub validate_image_dimensions : Pillow → List ℕ → Validated (ℕ × ℕ)
validate_image_dimensions (present size) file_bytes = or_unreadable (size file_bytes)
validate_image_dimensions absent file_bytes =
    if bytes_eq (slice 0 8 file_bytes) png_mark
    then or_unreadable (unpack_pair (slice 16 8 file_bytes))
    else if bytes_eq (slice 0 3 file_bytes) jpeg_mark
    then invalid "JPEG dimension extraction requires Pillow"
    else invalid "Unable to read image dimensions"

pub record MediaMetadata : Type 0 where
  pub content_type : String
  pub file_size_bytes : ℕ
  pub width : ℕ
  pub height : ℕ

unfoldable pub validate_media_upload :
    ℕ → (String → String) → Pillow → List ℕ → Option String → Validated MediaMetadata
validate_media_upload media_max_file_size_mb lower pillow file_bytes content_type =
    and_validate (validate_file_size media_max_file_size_mb file_bytes) λ _.
      and_validate (validate_file_type lower file_bytes content_type) λ mime.
        and_validate (validate_image_dimensions pillow file_bytes) λ size. valid (record {
          content_type = mime;
          file_size_bytes = length file_bytes;
          width = size.0;
          height = size.1;
        })
