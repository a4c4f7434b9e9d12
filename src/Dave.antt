-- ===== src/Dave.antt =====
-- The recognition of DAVE frames in discord/ext/native_voice/dave.py. `buffer[offset:end]` is one
-- list here: a reader takes the bytes that are left and returns those that are left after it.
pub mod Leb
pub mod Layout
mod Tests
use discord_native_voice.Prelude.{
  ℕ, ◌+◌, ◌-◌, ◌*◌, ◌%◌, ◌^◌, Bool, true, false, not, ◌||◌, Option, none, some, List, [], ◌∷◌,
  length, take, drop, ltb, leb, nat_eq, bit_or, zero, suc, is_empty, if◌then◌else◌,
}
use discord_native_voice.Prelude.Bytes.{Bytes, bytes_eq}

abbrev pub dave_tag_size : ℕ
dave_tag_size = 8

abbrev pub dave_size_size : ℕ
dave_size_size = 1

abbrev pub dave_marker : Bytes
dave_marker = 0xFA ∷ 0xFA ∷ []

abbrev pub dave_marker_size : ℕ
dave_marker_size = length dave_marker

abbrev pub dave_min_size : ℕ
dave_min_size = dave_tag_size + dave_size_size + dave_marker_size

-- The loop of `_read_leb128_uint64` and what follows it, with `value` and `fill_bits`.
unfoldable pub read_leb128_loop : ℕ → ℕ → Bytes → Option (ℕ × Bytes)
read_leb128_loop value fill [] = none
read_leb128_loop value fill (byte ∷ rest) =
    let value' = bit_or value (byte % 128 * 2 ^ fill) in
    let more = read_leb128_loop value' (fill + 7) rest in
    if ltb fill 57
    then if ltb byte 128 then some (value', rest) else more
    else if leb byte 1
    then some (bit_or value (byte * 2 ^ fill), rest)
    else none

unfoldable pub read_leb128_uint64 : Bytes → Option (ℕ × Bytes)
unfolding read_leb128_loop
read_leb128_uint64 bytes = read_leb128_loop 0 0 bytes

-- The loop of `_valid_unencrypted_ranges`. Each round reads at least two bytes, so as many rounds as
-- there are bytes are enough; a loop that runs out of rounds answers no.
unfoldable pub ranges_loop : ℕ → ℕ → Bytes → ℕ → Bool
unfolding read_leb128_uint64
ranges_loop zero previous_end bytes frame_size = is_empty bytes
ranges_loop (suc rounds) previous_end bytes frame_size =
    if is_empty bytes then true else elim (read_leb128_uint64 bytes) [
      | none ↦ false
      | some (range_offset, rest) ↦ elim (read_leb128_uint64 rest) [
        | none ↦ false
        | some (range_size, rest') ↦
            let range_end = range_offset + range_size in
            let more = ranges_loop rounds range_end rest' frame_size in
            if ltb range_offset previous_end || ltb frame_size range_end then false else more
      ]
    ]

unfoldable pub valid_unencrypted_ranges : Bytes → ℕ → Bool
unfolding ranges_loop
valid_unencrypted_ranges bytes frame_size = ranges_loop (length bytes) 0 bytes frame_size

-- `payload[-n:]`, for 0 < n
abbrev pub last_bytes : ℕ → Bytes → Bytes
last_bytes n payload = drop (length payload - n) payload

-- `bytes[i]`, where they reach
abbrev pub byte_at : ℕ → Bytes → ℕ
byte_at i bytes = elim (drop i bytes) [ [] ↦ 0 | b ∷ _ ↦ b ]

-- The end of `_looks_like_dave_protocol_frame`, of the supplemental data and its size.
unfoldable pub valid_supplemental : Bytes → ℕ → ℕ → Bool
unfolding read_leb128_uint64 valid_unencrypted_ranges
valid_supplemental supplemental supplemental_size frame_size =
    let ranges_end = supplemental_size - dave_size_size - dave_marker_size in
    if not (nat_eq (byte_at ranges_end supplemental) supplemental_size)
      || not (bytes_eq (drop (ranges_end + dave_size_size) supplemental) dave_marker)
    then false
    else elim (read_leb128_uint64 (drop dave_tag_size (take ranges_end supplemental))) [
      | none ↦ false
      | some (nonce, rest) ↦ valid_unencrypted_ranges rest frame_size
    ]

unfoldable pub looks_like_dave_protocol_frame : Bytes → Bool
unfolding valid_supplemental
looks_like_dave_protocol_frame payload =
    let supplemental_size =
      byte_at (length payload - (dave_size_size + dave_marker_size)) payload in
    if ltb (length payload) dave_min_size
    then false
    else if not (bytes_eq (last_bytes dave_marker_size payload) dave_marker)
    then false
    else if ltb supplemental_size dave_min_size || ltb (length payload) supplemental_size
    then false
    else valid_supplemental (last_bytes supplemental_size payload) supplemental_size
        (length payload)
