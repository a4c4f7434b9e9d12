-- ===== src/Rtp/Sequence.antt =====
-- Serial arithmetic on 16-bit sequence numbers and 32-bit timestamps (rtp.py). `x & 0xFFFF` of a
-- difference is its residue, so the modulus is added before the truncated subtraction.
use discord_native_voice.Prelude.{
  ℕ, ◌+◌, ◌-◌, ◌%◌, ◌≤◌, ◌<◌, ◌≡◌, ◌≢◌, Option, none, some, arith, ltb, leb, if◌then◌else◌,
}
use discord_native_voice.Prelude.Int.{ℤ, pos, sub_ℕ, pos_part, ◌≤ℤ◌}

-- The clock of RTP timestamps: `RTP_TIMESTAMP_MASK + 1`.
abbrev pub rtp_timestamp_mod : ℕ
rtp_timestamp_mod = 4294967296

abbrev pub rtp_timestamp_half_range : ℕ
rtp_timestamp_half_range = 2147483648

unfoldable pub sequence_delta : ℕ → ℕ → ℕ
sequence_delta sequence previous = (sequence + 65536 - previous % 65536) % 65536

-- `reference + delta`, where `delta` may have become negative.
unfoldable pub unwrap_sequence : ℕ → ℕ → ℤ
unwrap_sequence sequence reference =
    let delta = (sequence + 65536 - reference % 65536) % 65536 in
    if ltb 0x7FFF delta then sub_ℕ (reference + delta) 0x10000 else pos (reference + delta)

unfoldable pub rtp_timestamp_delta : ℕ → ℕ → Option ℕ
rtp_timestamp_delta timestamp base =
    let delta = (timestamp + rtp_timestamp_mod - base % rtp_timestamp_mod) % rtp_timestamp_mod in
    if leb rtp_timestamp_half_range delta then none else some delta

-- The unwrapped number has the given 16-bit residue (where it is not negative) and lies less than
-- half a cycle from the reference, below or above it.
pub unwrap_sequence_window :
    (s r : ℕ)
    → s < 65536
    → (pos r ≤ℤ unwrap_sequence s r
        → (pos_part (unwrap_sequence s r) % 65536 ≡ s)
          × (pos_part (unwrap_sequence s r) ≤ r + 0x7FFF))
      × (r ≤ pos_part (unwrap_sequence s r) + 0x8000)
unfolding unwrap_sequence
unwrap_sequence_window s r h = ground arith

-- `unwrap_sequence` inverts the reduction modulo 2 ^ 16 of every number in the window
-- [reference - 2 ^ 15, reference + 2 ^ 15).
pub unwrap_sequence-mod :
    (n r : ℕ) → n < r + 0x8000 → r ≤ n + 0x8000 → unwrap_sequence (n % 65536) r ≡ pos n
unfolding unwrap_sequence
unwrap_sequence-mod n r above below = ground arith

-- Adding the distance to the earlier number gives the later one.
pub sequence_delta_add : (s p : ℕ) → s < 65536 → (p + sequence_delta s p) % 65536 ≡ s
unfolding sequence_delta
sequence_delta_add s p h = omega arith

-- Of two different numbers that are not half a cycle apart exactly one is ahead of the other.
pub sequence_delta_antisym :
    (s p : ℕ) → s < 65536 → p < 65536 → s ≢ p → sequence_delta s p + sequence_delta p s ≡ 65536
unfolding sequence_delta
sequence_delta_antisym s p hs hp ne = omega arith

-- A timestamp that is less than half a cycle ahead of its base has exactly that distance, across
-- the wrap of the 32-bit clock; one that is behind, or too far ahead, has none.
pub rtp_timestamp_delta-add :
    (base d : ℕ)
    → d < 4294967296
    → rtp_timestamp_delta ((base + d) % 4294967296) base
      ≡ (if ltb d 2147483648 then some d else none)
unfolding rtp_timestamp_delta
rtp_timestamp_delta-add base d h = ground arith
