-- ===== src/Dave/Leb.antt =====
-- The numbers and ranges of a DAVE frame, written and read back (discord/ext/native_voice/dave.py).
use discord_native_voice.Prelude.{
  length-append, is_empty, All, ℕ, zero, suc, ◌+◌, ◌*◌, ◌/◌, ◌%◌, ◌^◌, ◌≤◌, ◌<◌, ◌≡◌, refl, ap, ◌∙◌,
  Bool, true, false, ◌&&◌, some, List, [], ◌∷◌, ◌++◌, length, ltb, leb, arith, Bool-cases, inl, inr,
  if◌then◌else◌,
}
use mathlib.Core.Path.{subst}
use native.Mathlib.Nat.{pow-suc, mul-le-mul_right}
use discord_native_voice.Prelude.Bits.{bit_or_above}
use discord_native_voice.Prelude.Bytes.{Bytes}
use discord_native_voice.Dave.{
  read_leb128_loop, read_leb128_uint64, ranges_loop, valid_unencrypted_ranges,
}

-- A number in LEB128: seven bits a byte, the low ones first. Ten bytes hold 64 bits.
unfoldable pub leb128 : ℕ → ℕ → Bytes
leb128 zero v = []
leb128 (suc rounds) v =
    let more = leb128 rounds (v / 128) in if ltb v 128 then v ∷ [] else (v % 128 + 128) ∷ more

-- The low seven bits and the rest, at a scale.
scaled_split : (v p : ℕ) → v * p ≡ v % 128 * p + v / 128 * (128 * p)
scaled_split v p =
    let e : v ≡ v % 128 + v / 128 * 128 = omega arith in ap (λ t. t * p) e ∙ omega arith

pow_seven : (n : ℕ) → 2 ^ (n + 7) ≡ 128 * 2 ^ n
pow_seven n =
    let seven : n + 7 ≡ suc (suc (suc (suc (suc (suc (suc n)))))) = omega arith in
    ap (λ (t : ℕ). 2 ^ t) seven
    ∙ omega (
      arith,
      pow-suc 2 n,
      pow-suc 2 (suc n),
      pow-suc 2 (suc (suc n)),
      pow-suc 2 (suc (suc (suc n))),
      pow-suc 2 (suc (suc (suc (suc n)))),
      pow-suc 2 (suc (suc (suc (suc (suc n))))),
      pow-suc 2 (suc (suc (suc (suc (suc (suc n)))))),
    )

at_top : (v fill : ℕ) → fill ≡ 63 → v * 2 ^ fill < 2 ^ 64 → v ≤ 1
at_top v fill e fits =
    let fits' = subst (λ (t : ℕ). v * 2 ^ t < 2 ^ 64) e fits in omega (arith, fits')

seven_bits_below : (v p : ℕ) → v % 128 * p ≤ 127 * p
seven_bits_below v p = mul-le-mul_right p (omega arith)

-- Reading from a bit position on: the number is added above what was read.
read_loop-leb128 :
    (rounds k acc v fill : ℕ) (rest : Bytes)
    → fill ≡ 7 * k
    → rounds + k ≡ 10
    → acc < 2 ^ fill
    → v * 2 ^ fill < 2 ^ 64
    → 1 ≤ rounds
    → read_leb128_loop acc fill (leb128 rounds v ++ rest) ≡ some (acc + v * 2 ^ fill, rest)
unfolding read_leb128_loop leb128
read_loop-leb128 zero k acc v fill rest at total below fits some_left = absurd (omega arith)
read_loop-leb128 (suc rounds) k acc v fill rest at total below fits some_left =
    let low = bit_or_above fill acc (v % 128) below in
    let whole = bit_or_above fill acc v below in
    elim (Bool-cases (ltb v 128)) [
      | inl small ↦
          let same : v % 128 ≡ v = ground arith in
          elim (Bool-cases (ltb fill 57)) [
            | inl inside ↦ rw (small, inside, same, whole, small) refl
            | inr last ↦
                let e : fill ≡ 63 = ground arith in
                let bound : v ≤ 1 = at_top v fill e fits in
                let bit : leb v 1 ≡ true = ground arith in rw (small, last, bit, whole) refl
          ]
      | inr large ↦
          let inside : ltb fill 57 ≡ true = elim (Bool-cases (ltb fill 57)) [
            | inl already ↦ already
            | inr beyond ↦
                let e : fill ≡ 63 = ground arith in
                let bound = at_top v fill e fits in absurd (ground arith)
          ] in
          let more =
            read_loop-leb128 rounds (suc k) (acc + v % 128 * 2 ^ fill) (v / 128) (fill + 7) rest
              (omega arith) (omega arith)
              (omega (arith, pow_seven fill, seven_bits_below v (2 ^ fill)))
              (omega
                (arith, scaled_split v (2 ^ fill), ap (λ (t : ℕ). v / 128 * t) (pow_seven fill)))
              (ground arith) in
          let digit : (v % 128 + 128) % 128 ≡ v % 128 = omega arith in
          let high : ltb (v % 128 + 128) 128 ≡ false = ground arith in
          let sum : acc + v % 128 * 2 ^ fill + v / 128 * 2 ^ (fill + 7) ≡ acc + v * 2 ^ fill =
            omega
              (arith, scaled_split v (2 ^ fill), ap (λ (t : ℕ). v / 128 * t) (pow_seven fill)) in
          rw (large, inside, digit, high, low, more, sum) refl
    ]

-- Every number below 2 ^ 64 that is written in LEB128 is read back, and the bytes after it are left.
pub read_leb128_uint64-leb128 :
    (v : ℕ) (rest : Bytes) → v < 2 ^ 64 → read_leb128_uint64 (leb128 10 v ++ rest) ≡ some (v, rest)
unfolding read_leb128_uint64
read_leb128_uint64-leb128 v rest fits =
    let read =
      read_loop-leb128 10 0 0 v 0 rest refl (omega arith) (omega arith) (omega arith)
        (omega arith) in
    let same : 0 + v * 2 ^ 0 ≡ v = omega arith in read ∙ ap (λ (t : ℕ). some (t, rest)) same

-- Unencrypted ranges as DAVE writes them: an offset and a size each.
unfoldable pub ranges_bytes : List (ℕ × ℕ) → Bytes
unfolding leb128
ranges_bytes [] = []
ranges_bytes ((offset, size) ∷ ranges) = leb128 10 offset ++ (leb128 10 size ++ ranges_bytes ranges)

-- The ranges do not overlap, come in order after `previous`, and end within the frame.
unfoldable pub in_order : ℕ → ℕ → List (ℕ × ℕ) → Bool
in_order frame_size previous [] = true
in_order frame_size previous ((offset, size) ∷ ranges) =
    leb previous offset
    && (leb (offset + size) frame_size && in_order frame_size (offset + size) ranges)

abbrev pub Are64Bit : List (ℕ × ℕ) → Type 0
Are64Bit = All (λ r. (r.0 < 2 ^ 64) × (r.1 < 2 ^ 64))

is_empty-leb128 : (v : ℕ) (rest : Bytes) → is_empty (leb128 10 v ++ rest) ≡ false
unfolding leb128
is_empty-leb128 v rest = elim (Bool-cases (ltb v 128)) [
  | inl small ↦ rw small refl
  | inr large ↦ rw large refl
]

ranges_loop-ranges_bytes :
    (rounds previous frame_size : ℕ) (ranges : List (ℕ × ℕ))
    → Are64Bit ranges
    → length ranges ≤ rounds
    → ranges_loop rounds previous (ranges_bytes ranges) frame_size
      ≡ in_order frame_size previous ranges
unfolding ranges_loop ranges_bytes in_order
ranges_loop-ranges_bytes zero previous frame_size [] fit enough = refl
ranges_loop-ranges_bytes (suc rounds) previous frame_size [] fit enough = refl
ranges_loop-ranges_bytes zero previous frame_size (r ∷ ranges) fit enough = absurd (omega arith)
ranges_loop-ranges_bytes (suc rounds) previous frame_size ((offset, size) ∷ ranges) fit enough =
    rw
      (
        is_empty-leb128 offset (leb128 10 size ++ ranges_bytes ranges),
        read_leb128_uint64-leb128 offset (leb128 10 size ++ ranges_bytes ranges) fit.0.0,
        read_leb128_uint64-leb128 size (ranges_bytes ranges) fit.0.1,
        ranges_loop-ranges_bytes rounds (offset + size) frame_size ranges fit.1 (omega arith),
      )
      (ground arith)

length-leb128 : (v : ℕ) (rest : Bytes) → length rest + 1 ≤ length (leb128 10 v ++ rest)
unfolding leb128
length-leb128 v rest =
    let some_byte : 1 ≤ length (leb128 10 v) = elim (Bool-cases (ltb v 128)) [
      | inl small ↦ rw small (omega arith)
      | inr large ↦ rw large (omega arith)
    ] in
    omega (arith, some_byte, length-append (leb128 10 v) rest)

length-ranges_bytes : (ranges : List (ℕ × ℕ)) → length ranges ≤ length (ranges_bytes ranges)
unfolding ranges_bytes
length-ranges_bytes [] = omega arith
length-ranges_bytes ((offset, size) ∷ ranges) = omega (
  arith,
  length-leb128 offset (leb128 10 size ++ ranges_bytes ranges),
  length-leb128 size (ranges_bytes ranges),
  length-ranges_bytes ranges,
)

-- Of ranges of 64-bit numbers the check accepts those that are in order, do not overlap and end
-- within the frame, and refuses all others.
pub valid_unencrypted_ranges-ranges_bytes :
    (frame_size : ℕ) (ranges : List (ℕ × ℕ))
    → Are64Bit ranges
    → valid_unencrypted_ranges (ranges_bytes ranges) frame_size ≡ in_order frame_size 0 ranges
unfolding valid_unencrypted_ranges
valid_unencrypted_ranges-ranges_bytes frame_size ranges fit =
    ranges_loop-ranges_bytes (length (ranges_bytes ranges)) 0 frame_size ranges fit
      (length-ranges_bytes ranges)
