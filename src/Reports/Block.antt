-- ===== src/Reports/Block.antt =====
-- Report blocks written and read back, and the state of an SSRC from packet to packet
-- (discord/ext/native_voice/client.py).
use discord_native_voice.Prelude.{
  ℕ, ◌+◌, ◌-◌, ◌*◌, ◌/◌, ◌%◌, ◌^◌, ◌≤◌, ◌<◌, ◌≡◌, refl, ◌∙◌, min, true, false, Option, none, some,
  leb, bit_or, arith,
}
use discord_native_voice.Prelude.Int.{ℤ, pos, negsuc}
use discord_native_voice.Prelude.Bits.{bit_or_above, bit_or_comm}
use discord_native_voice.Prelude.Bytes.{from_be-be32}
use discord_native_voice.Reports.{
  encode_lost, decode_lost, fraction_of, since_sender_report, block_bytes, read_report,
}

-- A loss within the 24 bits that a report has for it.
abbrev pub clamp_lost : ℤ → ℤ
clamp_lost (pos n) = pos (min n 0x7FFFFF)
clamp_lost (negsuc n) = negsuc (min n 0x7FFFFF)

decode_lost-encode_lost : (z : ℤ) → decode_lost (encode_lost z % 0x1000000) ≡ clamp_lost z
unfolding decode_lost encode_lost
decode_lost-encode_lost (pos n) =
    let same : min n 0x7FFFFF % 0x1000000 ≡ min n 0x7FFFFF = omega arith in
    let low : leb 0x800000 (min n 0x7FFFFF) ≡ false = ground arith in rw (same, low) refl
decode_lost-encode_lost (negsuc n) =
    let same : (0x1000000 - min (n + 1) 0x800000) % 0x1000000 ≡ 0x1000000 - min (n + 1) 0x800000 =
      omega arith in
    let high : leb 0x800000 (0x1000000 - min (n + 1) 0x800000) ≡ true = ground arith in
    let back : 0x1000000 - (0x1000000 - min (n + 1) 0x800000) - 1 ≡ min n 0x7FFFFF = omega arith in
    rw (same, high, back) refl

loss_word : (f l : ℕ) → f < 256 → l < 0x1000000 → bit_or (f * 2 ^ 24) l ≡ l + f * 0x1000000
loss_word f l hf hl = bit_or_comm (f * 2 ^ 24) l ∙ bit_or_above 24 l f hl

-- What the reader makes of the words that were written.
pub read_report-block_bytes :
    (sender now ssrc fraction high jitter lsr delay : ℕ) (lost : ℤ)
    → fraction < 256
    → delay < 4294967296
    → read_report sender now (block_bytes ssrc fraction (encode_lost lost) high jitter lsr delay)
      ≡ record {
        sender_ssrc = sender;
        source_ssrc = ssrc % 4294967296;
        fraction_lost = fraction;
        cumulative_lost = clamp_lost lost;
        extended_high_sequence = high % 4294967296;
        jitter = jitter % 4294967296;
        last_sender_report = lsr % 4294967296;
        delay_since_last_sender_report = delay;
        received_at = now;
      }
unfolding read_report
read_report-block_bytes sender now ssrc fraction high jitter lsr delay lost hf hd =
    let l = encode_lost lost % 0x1000000 in
    let word = loss_word (fraction % 256) l (omega arith) (omega arith) in
    let read = from_be-be32 (bit_or (fraction % 256 * 2 ^ 24) l) (omega (arith, word)) ∙ word in
    let top : (l + fraction % 256 * 0x1000000) / 2 ^ 24 % 256 ≡ fraction = omega arith in
    let low : (l + fraction % 256 * 0x1000000) % 0x1000000 ≡ l = omega arith in
    rw
      (
        read,
        top,
        low,
        decode_lost-encode_lost lost,
        from_be-be32 (ssrc % 4294967296) (omega arith),
        from_be-be32 (high % 4294967296) (omega arith),
        from_be-be32 (jitter % 4294967296) (omega arith),
        from_be-be32 (lsr % 4294967296) (omega arith),
        from_be-be32 delay hd,
      )
      refl

pub fraction_of-le : (e l : ℤ) → fraction_of e l ≤ 255
unfolding fraction_of
fraction_of-le e l = ground arith

pub delay-lt : (report : Option (ℕ × ℕ)) (now : ℕ) → (since_sender_report report now).1 < 4294967296
unfolding since_sender_report
delay-lt none now = omega arith
delay-lt (some (lsr, at)) now = omega arith
