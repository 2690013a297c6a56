-- ===== src/Media/Sizes.antt =====
-- The dimensions that `validate_image_dimensions` of backend/app/common/media.py reads.
use akar_ai.Prelude.{
  ℕ, ◌+◌, ◌*◌, ◌≡◌, refl, Option, none, some, List, [], ◌∷◌, take, drop, arith, Bool-cases, inl,
  inr,
}
use akar_ai.Media.{
  Pillow, absent, present, valid, bytes_eq, png_mark, slice, validate_image_dimensions, unpack_pair,
  or_unreadable,
}
use akar_ai.Media.Signatures.{starts_with, drop-drop}

-- Eight bytes that are two big-endian numbers.
pub record IsPair (xs : List ℕ) (width height : ℕ) : Type 0 where
  a : ℕ
  b : ℕ
  c : ℕ
  d : ℕ
  e : ℕ
  f : ℕ
  g : ℕ
  h : ℕ
  after : List ℕ
  begins : xs ≡ a ∷ b ∷ c ∷ d ∷ e ∷ f ∷ g ∷ h ∷ after
  first : width ≡ ((a * 256 + b) * 256 + c) * 256 + d
  second : height ≡ ((e * 256 + f) * 256 + g) * 256 + h

-- The size that Pillow reads, or without Pillow the two numbers behind the first sixteen bytes of a
-- PNG.
pub data Dimensions (pillow : Pillow) (file_bytes : List ℕ) (width height : ℕ) : Type 0 where
  by_pillow :
      (size : List ℕ → Option (ℕ × ℕ))
      → pillow ≡ present size
      → size file_bytes ≡ some (width, height)
      → Dimensions pillow file_bytes width height
  by_header :
      (rest : List ℕ)
      → pillow ≡ absent
      → file_bytes ≡ 137 ∷ 80 ∷ 78 ∷ 71 ∷ 13 ∷ 10 ∷ 26 ∷ 10 ∷ rest
      → IsPair (drop 8 rest) width height
      → Dimensions pillow file_bytes width height

unpack_pair-IsPair :
    (xs : List ℕ) (width height : ℕ)
    → unpack_pair (take 8 xs) ≡ some (width, height)
    → IsPair xs width height
unpack_pair-IsPair [] w h p = absurd (ground (arith, p))
unpack_pair-IsPair (a ∷ []) w h p = absurd (ground (arith, p))
unpack_pair-IsPair (a ∷ b ∷ []) w h p = absurd (ground (arith, p))
unpack_pair-IsPair (a ∷ b ∷ c ∷ []) w h p = absurd (ground (arith, p))
unpack_pair-IsPair (a ∷ b ∷ c ∷ d ∷ []) w h p = absurd (ground (arith, p))
unpack_pair-IsPair (a ∷ b ∷ c ∷ d ∷ e ∷ []) w h p = absurd (ground (arith, p))
unpack_pair-IsPair (a ∷ b ∷ c ∷ d ∷ e ∷ f ∷ []) w h p = absurd (ground (arith, p))
unpack_pair-IsPair (a ∷ b ∷ c ∷ d ∷ e ∷ f ∷ g ∷ []) w h p = absurd (ground (arith, p))
unpack_pair-IsPair (a ∷ b ∷ c ∷ d ∷ e ∷ f ∷ g ∷ i ∷ xs) w h p = record {
  a = a;
  b = b;
  c = c;
  d = d;
  e = e;
  f = f;
  g = g;
  h = i;
  after = xs;
  begins = refl;
  first = ground (arith, p);
  second = ground (arith, p);
}

or_unreadable-valid :
    (found : Option (ℕ × ℕ)) (size : ℕ × ℕ) → or_unreadable found ≡ valid size → found ≡ some size
or_unreadable-valid none size h = absurd (ground (arith, h))
or_unreadable-valid (some found) size h = ground (arith, h)

pub validate_image_dimensions-Dimensions :
    (pillow : Pillow) (file_bytes : List ℕ) (width height : ℕ)
    → validate_image_dimensions pillow file_bytes ≡ valid (width, height)
    → Dimensions pillow file_bytes width height
unfolding validate_image_dimensions
validate_image_dimensions-Dimensions (present size) file_bytes width height h =
    by_pillow size refl (or_unreadable-valid (size file_bytes) (width, height) h)
validate_image_dimensions-Dimensions absent file_bytes width height h =
    elim (Bool-cases (bytes_eq (slice 0 8 file_bytes) png_mark)) [
      | inl is_png ↦
          let begins = starts_with 8 file_bytes png_mark is_png in
          let read =
            or_unreadable-valid (unpack_pair (slice 16 8 file_bytes)) (width, height)
              (rw is_png at h) in
          by_header (drop 8 file_bytes) refl begins (
            unpack_pair-IsPair (drop 8 (drop 8 file_bytes)) width height
              (rw (drop-drop 8 8 file_bytes) read))
      | inr no_png ↦ absurd (ground (arith, h, no_png))
    ]

pub Dimensions-validate_image_dimensions :
    (pillow : Pillow) (file_bytes : List ℕ) (width height : ℕ)
    → Dimensions pillow file_bytes width height
    → validate_image_dimensions pillow file_bytes ≡ valid (width, height)
unfolding validate_image_dimensions
Dimensions-validate_image_dimensions pillow file_bytes width height (by_pillow size is found) =
    rw (is, found) refl
Dimensions-validate_image_dimensions pillow file_bytes width height
      (by_header rest is begins pair) =
    rw (is, begins, pair.begins, pair.first, pair.second) refl
