-- ===== src/Dave/Tests.antt =====
-- The theorems on DAVE frames (discord/ext/native_voice/dave.py) at a small frame.
use discord_native_voice.Prelude.{ℕ, ◌≡◌, ◌++◌, refl, some, List, [], ◌∷◌, length, arith}
use discord_native_voice.Prelude.Bytes.{Bytes}
use discord_native_voice.Dave.{
  read_leb128_uint64, valid_unencrypted_ranges, looks_like_dave_protocol_frame,
}
use discord_native_voice.Dave.Leb.{
  leb128, read_leb128_uint64-leb128, ranges_bytes, in_order, valid_unencrypted_ranges-ranges_bytes,
}
use discord_native_voice.Dave.Layout.{dave_frame, looks_like_dave_protocol_frame-dave_frame}

abbrev two_ranges : List (ℕ × ℕ)
two_ranges = (0, 2) ∷ (3, 1) ∷ []

abbrev tag : Bytes
tag = 1 ∷ 2 ∷ 3 ∷ 4 ∷ 5 ∷ 6 ∷ 7 ∷ 8 ∷ []

abbrev media : Bytes
media = 11 ∷ 12 ∷ 13 ∷ 14 ∷ []

read_leb128_uint64-leb128_example :
    read_leb128_uint64 (leb128 10 300 ++ (9 ∷ [])) ≡ some (300, 9 ∷ [])
read_leb128_uint64-leb128_example = read_leb128_uint64-leb128 300 (9 ∷ []) (omega arith)

valid_unencrypted_ranges-ranges_bytes_example :
    valid_unencrypted_ranges (ranges_bytes two_ranges) 4 ≡ in_order 4 0 two_ranges
valid_unencrypted_ranges-ranges_bytes_example =
    valid_unencrypted_ranges-ranges_bytes 4 two_ranges
      ((omega arith, omega arith), ((omega arith, omega arith), tt))

looks_like_dave_protocol_frame-dave_frame_example :
    looks_like_dave_protocol_frame (dave_frame media tag 300 two_ranges)
    ≡ in_order (length (dave_frame media tag 300 two_ranges)) 0 two_ranges
looks_like_dave_protocol_frame-dave_frame_example =
    looks_like_dave_protocol_frame-dave_frame media tag 300 two_ranges refl (omega arith)
      ((omega arith, omega arith), ((omega arith, omega arith), tt))
