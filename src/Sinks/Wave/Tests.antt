-- ===== src/Sinks/Wave/Tests.antt =====
-- A recording of two PCM packets that come in the wrong order.
use discord_native_voice.Prelude.{
  ℕ, suc, ◌+◌, ◌%◌, ◌≡◌, refl, ap, true, nat_eq, false, none, some, List, [], ◌∷◌, length, max,
  arith, if◌then◌else◌,
}
use discord_native_voice.Prelude.Bytes.{Bytes}
use discord_native_voice.Prelude.Result.{Result, ok, err}
use discord_native_voice.Sources.{AudioError, not_whole_frame}
use discord_native_voice.Rtp.{audio, pcm}
use discord_native_voice.Rtp.Sequence.{rtp_timestamp_delta}
use discord_native_voice.Media.{MediaPacket}
use discord_native_voice.Sinks.Opus.{OpusDecoder}
use discord_native_voice.Sinks.Wave.{mixed_write, mixed_writes, not_added}
use discord_native_voice.Sinks.Wave.Mix.{
  latest_end, AddsSamples, Records, recording, mixed_writes-Records,
}

abbrev packet : ℕ → Bytes → MediaPacket
packet timestamp payload = record {
  media_type = audio;
  codec = pcm;
  payload = payload;
  payload_type = 120;
  marker = false;
  sequence = 5;
  timestamp = timestamp;
  ssrc = 7;
  user_id = some 42;
  raw = [];
  extension_payload = [];
  rtp_extended = false;
  rtp_extensions = [];
  rtp_packets = [];
  received_at = none;
  rtcp_time = none;
  speaking_flags = none;
  audio_level = none;
  audio_voice_activity = none;
}

abbrev late_then_early : List MediaPacket
late_then_early = packet 102 (1 ∷ 2 ∷ 3 ∷ 4 ∷ []) ∷ packet 101 (9 ∷ 9 ∷ 9 ∷ 9 ∷ 9 ∷ 9 ∷ []) ∷ []

abbrev unused : OpusDecoder ℕ
unused = record {
  fresh = 0;
  decode = λ payload fec calls. (none, calls);
  samples = λ payload. some 0;
}

-- Each byte by itself, without the carry of 16-bit samples.
abbrev add_each : Bytes → Bytes → Bytes
add_each xs [] = []
add_each [] (y ∷ ys) = y ∷ add_each [] ys
add_each (x ∷ xs) (y ∷ ys) = (x + y) % 256 ∷ add_each xs ys

-- Odd lengths are refused.
abbrev pcm16_add : Bytes → Bytes → Result AudioError Bytes
pcm16_add xs ys = if nat_eq (length ys % 2) 0 then ok (add_each xs ys) else err not_whole_frame

length-add_each : (xs ys : Bytes) → length (add_each xs ys) ≡ length ys
length-add_each xs [] = refl
length-add_each [] (y ∷ ys) = ap suc (length-add_each [] ys)
length-add_each (x ∷ xs) (y ∷ ys) = ap suc (length-add_each xs ys)

pcm16_add-AddsSamples : AddsSamples pcm16_add
pcm16_add-AddsSamples xs ys same whole =
    let even : nat_eq (length ys % 2) 0 ≡ true = ground arith in
    (add_each xs ys, rw even refl, length-add_each xs ys)

ends_at : latest_end 4 none 100 late_then_early ≡ 12
unfolding rtp_timestamp_delta
ends_at = refl

mixed_writes-Records_example :
    Records unused pcm16_add 4 none 100 [] none (max 0 (latest_end 4 none 100 late_then_early)) (
      mixed_writes unused pcm16_add 4 late_then_early
        (recording unused pcm16_add 4 none 100 [] none []))
mixed_writes-Records_example =
    mixed_writes-Records unused pcm16_add 4 none 100 [] none pcm16_add-AddsSamples late_then_early
      [] ((refl, refl), ((refl, refl), tt))

-- A payload of an odd number of bytes raises.
refuses_odd :
    mixed_write unused pcm16_add 4
      (packet 101 (1 ∷ []))
      (recording unused pcm16_add 4 none 100 [] none [])
    ≡ err (not_added not_whole_frame)
unfolding mixed_write rtp_timestamp_delta
refuses_odd = refl
