-- ===== src/Dave/Layout.antt =====
-- A whole DAVE frame, built from its parts, and its recognition (discord/ext/native_voice/dave.py).
use discord_native_voice.Prelude.{
  ℕ, zero, suc, ◌+◌, ◌-◌, ◌^◌, ◌≤◌, ◌<◌, ◌≡◌, refl, ap, ◌∙◌, true, false, none, some, List, [], ◌∷◌,
  ◌++◌, length, take, drop, length-append, ltb, nat_eq, arith,
}
use discord_native_voice.Prelude.Bytes.{Bytes, bytes_eq}
use discord_native_voice.Dave.{
  dave_marker, byte_at, read_leb128_uint64, valid_unencrypted_ranges, valid_supplemental,
  looks_like_dave_protocol_frame,
}
use discord_native_voice.Dave.Leb.{
  leb128, read_leb128_uint64-leb128, ranges_bytes, in_order, Are64Bit,
  valid_unencrypted_ranges-ranges_bytes,
}

drop_into : (a b : Bytes) (n k : ℕ) → n ≡ length a + k → drop n (a ++ b) ≡ drop k b
drop_into [] b n k e = ap (λ (t : ℕ). drop t b) (omega (arith, e))
drop_into (x ∷ a) b zero k e = absurd (omega arith)
drop_into (x ∷ a) b (suc n) k e = drop_into a b n k (omega arith)

take_append : (a b : Bytes) (n : ℕ) → n ≡ length a → take n (a ++ b) ≡ a
take_append [] b zero e = refl
take_append [] b (suc n) e = absurd (omega arith)
take_append (x ∷ a) b zero e = absurd (omega arith)
take_append (x ∷ a) b (suc n) e = ap (λ t. x ∷ t) (take_append a b n (omega arith))

byte_at-drop :
    (i : ℕ) (bytes : Bytes) (b : ℕ) (rest : Bytes) → drop i bytes ≡ b ∷ rest → byte_at i bytes ≡ b
byte_at-drop i bytes b rest h = rw (h, byte_at) refl

-- The parts of supplemental data are found where they were put.
valid_supplemental_parts :
    (body : Bytes) (size frame_size : ℕ)
    → length body + 3 ≡ size
    → valid_supplemental (body ++ (size ∷ dave_marker)) size frame_size
      ≡ elim (read_leb128_uint64 (drop 8 body)) [
        | none ↦ false
        | some (nonce, rest) ↦ valid_unencrypted_ranges rest frame_size
      ]
unfolding valid_supplemental bytes_eq
valid_supplemental_parts body size frame_size e =
    let tail = size ∷ dave_marker in
    let size_there : drop (size - 1 - 2) (body ++ tail) ≡ tail =
      drop_into body tail (size - 1 - 2) 0 (omega arith) in
    let marker_there : drop (size - 1 - 2 + 1) (body ++ tail) ≡ dave_marker =
      drop_into body tail (size - 1 - 2 + 1) 1 (omega arith) in
    let same : nat_eq size size ≡ true = ground arith in
    rw
      (
        byte_at-drop _ _ _ _ size_there,
        marker_there,
        take_append body tail (size - 1 - 2) (omega arith),
        same,
      )
      refl

-- The checks before the supplemental data pass.
looks_like_parts :
    (media body : Bytes) (size : ℕ)
    → length body + 3 ≡ size
    → 8 ≤ length body
    → looks_like_dave_protocol_frame (media ++ (body ++ (size ∷ dave_marker)))
      ≡ valid_supplemental
          (body ++ (size ∷ dave_marker))
          size
          (length (media ++ (body ++ (size ∷ dave_marker))))
unfolding looks_like_dave_protocol_frame bytes_eq
looks_like_parts media body size e long =
    let tail = size ∷ dave_marker in
    let frame = media ++ (body ++ tail) in
    let total : length frame ≡ length media + (length body + 3) =
      omega (arith, length-append media (body ++ tail), length-append body tail) in
    let size_there : drop (length frame - 3) frame ≡ tail =
      drop_into media (body ++ tail) (length frame - 3) (length body) (omega arith)
      ∙ drop_into body tail (length body) 0 (omega arith) in
    let marker_there : drop (length frame - 2) frame ≡ dave_marker =
      drop_into media (body ++ tail) (length frame - 2) (length body + 1) (omega arith)
      ∙ drop_into body tail (length body + 1) 1 (omega arith) in
    let rest_there : drop (length frame - size) frame ≡ body ++ tail =
      drop_into media (body ++ tail) (length frame - size) 0 (omega arith) in
    let long_enough : ltb (length frame) 11 ≡ false = ground arith in
    let large : ltb size 11 ≡ false = ground arith in
    let within : ltb (length frame) size ≡ false = ground arith in
    rw (long_enough, marker_there, byte_at-drop _ _ _ _ size_there, large, within, rest_there) refl

-- The supplemental data: a tag, a nonce, the ranges, then their size and the marker.
abbrev pub body_bytes : Bytes → ℕ → List (ℕ × ℕ) → Bytes
body_bytes tag nonce ranges = tag ++ (leb128 10 nonce ++ ranges_bytes ranges)

abbrev pub dave_frame : Bytes → Bytes → ℕ → List (ℕ × ℕ) → Bytes
dave_frame media tag nonce ranges =
    let body = body_bytes tag nonce ranges in media ++ (body ++ ((length body + 3) ∷ dave_marker))

-- A frame that follows the DAVE layout (media, an 8-byte tag, a nonce of 64 bits, the ranges, the
-- size of all that follows the media, the marker) is recognised where its ranges are in order and
-- end within it, and not otherwise.
pub looks_like_dave_protocol_frame-dave_frame :
    (media tag : Bytes) (nonce : ℕ) (ranges : List (ℕ × ℕ))
    → length tag ≡ 8
    → nonce < 2 ^ 64
    → Are64Bit ranges
    → looks_like_dave_protocol_frame (dave_frame media tag nonce ranges)
      ≡ in_order (length (dave_frame media tag nonce ranges)) 0 ranges
looks_like_dave_protocol_frame-dave_frame media tag nonce ranges eight fits fit =
    let rest = leb128 10 nonce ++ ranges_bytes ranges in
    let body = tag ++ rest in
    let size = length body + 3 in
    let n = length (media ++ (body ++ (size ∷ dave_marker))) in
    let long : 8 ≤ length body = omega (arith, length-append tag rest) in
    let after_tag : drop 8 body ≡ rest = drop_into tag rest 8 0 (omega arith) in
    let nonce_read = read_leb128_uint64-leb128 nonce (ranges_bytes ranges) fits in
    looks_like_parts media body size refl long
    ∙ (valid_supplemental_parts body size n refl
        ∙ rw (after_tag, nonce_read) (valid_unencrypted_ranges-ranges_bytes n ranges fit))
