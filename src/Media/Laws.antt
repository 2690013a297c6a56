-- ===== src/Media/Laws.antt =====
-- Which uploads `validate_media_upload` of backend/app/common/media.py accepts.
use akar_ai.Prelude.{
  ℕ, ◌*◌, ◌≤◌, String, false, ◌≡◌, ◌↔◌, refl, Option, none, some, List, length, arith, str_eq,
  str_eq_iff, Bool-cases, inl, inr,
}
use akar_ai.Media.{
  Pillow, valid, MediaMetadata, contradicts, validate_file_size, validate_file_type,
  validate_media_upload,
}
use akar_ai.Media.Signatures.{Signature, detect_mime-Signature, Signature-detect_mime}
use akar_ai.Media.Sizes.{
  Dimensions, validate_image_dimensions-Dimensions, Dimensions-validate_image_dimensions,
}

-- A content type that is given is the type in some letter case.
pub data Agrees (lower : String → String) (mime : String) : Option String → Type 0 where
  not_given : Agrees lower mime none
  empty : (given : String) → given ≡ "" → Agrees lower mime (some given)
  equal : (given : String) → lower given ≡ mime → Agrees lower mime (some given)

contradicts-Agrees :
    (lower : String → String) (content_type : Option String) (mime : String)
    → contradicts lower content_type mime ≡ false
    → Agrees lower mime content_type
contradicts-Agrees lower none mime h = not_given
contradicts-Agrees lower (some given) mime h = elim (Bool-cases (str_eq given "")) [
  | inl is_empty ↦ empty given ((str_eq_iff given "").0 is_empty)
  | inr is_given ↦ equal given ((str_eq_iff (lower given) mime).0 (ground (arith, h, is_given)))
]

Agrees-contradicts :
    (lower : String → String) (content_type : Option String) (mime : String)
    → Agrees lower mime content_type
    → contradicts lower content_type mime ≡ false
Agrees-contradicts lower _ mime not_given = refl
Agrees-contradicts lower _ mime (empty given is) =
    let e = (str_eq_iff given "").1 is in ground (arith, e)
Agrees-contradicts lower _ mime (equal given is) =
    let e = (str_eq_iff (lower given) mime).1 is in ground (arith, e)

-- What an upload that is accepted satisfies.
pub record IsAcceptable (media_max_file_size_mb : ℕ) (lower : String → String) (pillow : Pillow)
    (file_bytes : List ℕ) (content_type : Option String) (found : MediaMetadata) : Type 0 where
  pub long_enough : 12 ≤ length file_bytes
  pub within : length file_bytes ≤ media_max_file_size_mb * 1024 * 1024
  pub signature : Signature file_bytes found.content_type
  pub agrees : Agrees lower found.content_type content_type
  pub readable : Dimensions pillow file_bytes found.width found.height
  pub size : found.file_size_bytes ≡ length file_bytes

module _ (media_max_file_size_mb : ℕ) (lower : String → String) (pillow : Pillow)
    (file_bytes : List ℕ) (content_type : Option String) (found : MediaMetadata) where
  validate_media_upload-IsAcceptable :
      validate_media_upload media_max_file_size_mb lower pillow file_bytes content_type
        ≡ valid found
      → IsAcceptable media_max_file_size_mb lower pillow file_bytes content_type found
  unfolding validate_media_upload validate_file_size validate_file_type
  validate_media_upload-IsAcceptable accepted = record {
    long_enough = ground arith;
    within = ground arith;
    signature = detect_mime-Signature file_bytes found.content_type (ground arith);
    agrees = contradicts-Agrees lower content_type found.content_type (ground arith);
    readable =
        validate_image_dimensions-Dimensions pillow file_bytes found.width found.height
          (ground arith);
    size = ground arith;
  }

  IsAcceptable-validate_media_upload :
      IsAcceptable media_max_file_size_mb lower pillow file_bytes content_type found
      → validate_media_upload media_max_file_size_mb lower pillow file_bytes content_type
        ≡ valid found
  unfolding validate_media_upload validate_file_size validate_file_type
  IsAcceptable-validate_media_upload a =
      let mime = Signature-detect_mime file_bytes found.content_type a.signature in
      let agrees = Agrees-contradicts lower content_type found.content_type a.agrees in
      let readable =
        Dimensions-validate_image_dimensions pillow file_bytes found.width found.height
          a.readable in
      ground (arith, a.long_enough, a.within, mime, agrees, readable, a.size)

  -- An upload is accepted with its metadata exactly if it is at least twelve bytes and at most the
  -- limit long, it begins with the mark of a JPEG, a PNG or a WEBP, which is its type, a content
  -- type that is given and not empty is that type in some letter case, and its size is the one that
  -- Pillow reads or, without Pillow, the one in the header of a PNG.
  pub validate_media_upload-valid_iff :
      (validate_media_upload media_max_file_size_mb lower pillow file_bytes content_type
        ≡ valid found)
      ↔ IsAcceptable media_max_file_size_mb lower pillow file_bytes content_type found
  validate_media_upload-valid_iff =
      (validate_media_upload-IsAcceptable, IsAcceptable-validate_media_upload)
