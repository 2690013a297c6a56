-- ===== src/Media/Signatures.antt =====
-- The file types that `validate_file_type` of backend/app/common/media.py tells by their first bytes.
use akar_ai.Prelude.{
  ℕ, zero, suc, ◌+◌, String, true, ◌==◌, ◌≡◌, refl, sym, ap, ◌∙◌, some, List, [], ◌∷◌, ◌++◌, take,
  drop, take-drop, arith, Bool-cases, inl, inr, nat_beq_iff,
}
use akar_ai.Media.{bytes_eq, jpeg_mark, png_mark, webp_mark, riff_mark, slice, detect_mime}

-- The first bytes of the three image types.
pub data Signature (file_bytes : List ℕ) (mime : String) : Type 0 where
  jpeg :
      (rest : List ℕ)
      → file_bytes ≡ 255 ∷ 216 ∷ 255 ∷ rest
      → mime ≡ "image/jpeg"
      → Signature file_bytes mime
  png :
      (rest : List ℕ)
      → file_bytes ≡ 137 ∷ 80 ∷ 78 ∷ 71 ∷ 13 ∷ 10 ∷ 26 ∷ 10 ∷ rest
      → mime ≡ "image/png"
      → Signature file_bytes mime
  webp :
      (a b c d : ℕ) (rest : List ℕ)
      → file_bytes ≡ 82 ∷ 73 ∷ 70 ∷ 70 ∷ a ∷ b ∷ c ∷ d ∷ 87 ∷ 69 ∷ 66 ∷ 80 ∷ rest
      → mime ≡ "image/webp"
      → Signature file_bytes mime

bytes_eq_lem : (xs ys : List ℕ) → bytes_eq xs ys ≡ true → xs ≡ ys
bytes_eq_lem [] [] h = refl
bytes_eq_lem [] (y ∷ ys) h = absurd (ground arith)
bytes_eq_lem (x ∷ xs) [] h = absurd (ground arith)
bytes_eq_lem (x ∷ xs) (y ∷ ys) h = elim (Bool-cases (x == y)) [
  | inl same ↦
      let rest = bytes_eq_lem xs ys (rw same at h) in let first = (nat_beq_iff x y).0 same in cc
  | inr other ↦ absurd (ground (arith, h, other))
]

pub starts_with :
    (n : ℕ) (xs mark : List ℕ) → bytes_eq (take n xs) mark ≡ true → xs ≡ mark ++ drop n xs
starts_with n xs mark h =
    sym (take-drop n xs) ∙ ap (λ front. front ++ drop n xs) (bytes_eq_lem (take n xs) mark h)

-- The four bytes between the two marks of a WEBP.
record IsWebp (xs : List ℕ) : Type 0 where
  a : ℕ
  b : ℕ
  c : ℕ
  d : ℕ
  rest : List ℕ
  begins : xs ≡ 82 ∷ 73 ∷ 70 ∷ 70 ∷ a ∷ b ∷ c ∷ d ∷ 87 ∷ 69 ∷ 66 ∷ 80 ∷ rest

after_riff :
    (xs ds : List ℕ)
    → xs ≡ riff_mark ++ ds
    → bytes_eq (take 4 (drop 4 ds)) webp_mark ≡ true
    → IsWebp xs
after_riff xs [] e h = absurd (ground (arith, h))
after_riff xs (a ∷ []) e h = absurd (ground (arith, h))
after_riff xs (a ∷ b ∷ []) e h = absurd (ground (arith, h))
after_riff xs (a ∷ b ∷ c ∷ []) e h = absurd (ground (arith, h))
after_riff xs (a ∷ b ∷ c ∷ d ∷ es) e h = record {
  a = a;
  b = b;
  c = c;
  d = d;
  rest = drop 4 es;
  begins = e ∙ ap (λ back. 82 ∷ 73 ∷ 70 ∷ 70 ∷ a ∷ b ∷ c ∷ d ∷ back) (starts_with 4 es webp_mark h);
}

drop_empty : (n : ℕ) → drop {A = ℕ} n [] ≡ []
drop_empty zero = refl
drop_empty (suc n) = refl

pub drop-drop : (n m : ℕ) (xs : List ℕ) → drop m (drop n xs) ≡ drop (n + m) xs
drop-drop zero m xs = let e : 0 + m ≡ m = omega arith in rw e refl
drop-drop (suc n) m [] = rw (drop_empty m, drop_empty (suc n + m)) refl
drop-drop (suc n) m (x ∷ xs) =
    let e : suc n + m ≡ suc (n + m) = omega arith in rw e (drop-drop n m xs)

slices-IsWebp :
    (xs : List ℕ)
    → bytes_eq (slice 0 4 xs) riff_mark ≡ true
    → bytes_eq (slice 8 4 xs) webp_mark ≡ true
    → IsWebp xs
slices-IsWebp xs is_riff is_webp =
    after_riff xs (drop 4 xs) (starts_with 4 xs riff_mark is_riff) (rw (drop-drop 4 4 xs) is_webp)

pub detect_mime-Signature :
    (file_bytes : List ℕ) (mime : String)
    → detect_mime file_bytes ≡ some mime
    → Signature file_bytes mime
unfolding detect_mime
detect_mime-Signature file_bytes mime h =
    elim (Bool-cases (bytes_eq (slice 0 3 file_bytes) jpeg_mark)) [
      | inl is_jpeg ↦
          jpeg (drop 3 file_bytes) (starts_with 3 file_bytes jpeg_mark is_jpeg)
            (ground (arith, h, is_jpeg))
      | inr no_jpeg ↦ elim (Bool-cases (bytes_eq (slice 0 8 file_bytes) png_mark)) [
        | inl is_png ↦
            png (drop 8 file_bytes) (starts_with 8 file_bytes png_mark is_png)
              (ground (arith, h, no_jpeg, is_png))
        | inr no_png ↦
            let is_riff : bytes_eq (slice 0 4 file_bytes) riff_mark ≡ true =
              ground (arith, h, no_jpeg, no_png) in
            let is_webp : bytes_eq (slice 8 4 file_bytes) webp_mark ≡ true =
              ground (arith, h, no_jpeg, no_png) in
            let w = slices-IsWebp file_bytes is_riff is_webp in
            webp w.a w.b w.c w.d w.rest w.begins
              (ground (arith, h, no_jpeg, no_png, is_riff, is_webp))
      ]
    ]

pub Signature-detect_mime :
    (file_bytes : List ℕ) (mime : String)
    → Signature file_bytes mime
    → detect_mime file_bytes ≡ some mime
unfolding detect_mime
Signature-detect_mime file_bytes mime (jpeg rest begins is) = rw (begins, is) refl
Signature-detect_mime file_bytes mime (png rest begins is) = rw (begins, is) refl
Signature-detect_mime file_bytes mime (webp a b c d rest begins is) = rw (begins, is) refl
