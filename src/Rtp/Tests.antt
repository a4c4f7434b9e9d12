-- ===== src/Rtp/Tests.antt =====
-- The theorems on sequence numbers and timestamps (discord/ext/native_voice/rtp.py) at their wraps.
use discord_native_voice.Prelude.{◌≡◌, ◌+◌, ◌%◌, some, none, arith, ltb, if◌then◌else◌}
use discord_native_voice.Prelude.Int.{pos}
use discord_native_voice.Rtp.Sequence.{
  unwrap_sequence, rtp_timestamp_delta, unwrap_sequence-mod, rtp_timestamp_delta-add,
}

unwrap_sequence-mod_example : unwrap_sequence (65540 % 65536) 65530 ≡ pos 65540
unwrap_sequence-mod_example = unwrap_sequence-mod 65540 65530 (omega arith) (omega arith)

rtp_timestamp_delta-add_example :
    rtp_timestamp_delta ((4294967290 + 960) % 4294967296) 4294967290
    ≡ (if ltb 960 2147483648 then some 960 else none)
rtp_timestamp_delta-add_example = rtp_timestamp_delta-add 4294967290 960 (omega arith)
