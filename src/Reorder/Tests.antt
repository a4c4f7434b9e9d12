-- ===== src/Reorder/Tests.antt =====
-- Runs of the reorder buffer (discord/ext/native_voice/rtp.py), and its theorems at a run that wraps.
use discord_native_voice.Prelude.{
  ℕ, ◌≤◌, ◌≡◌, refl, false, true, none, some, List, [], ◌∷◌, length, inl, inr, arith, map,
}
use discord_native_voice.Prelude.Dict.{get, put, erase}
use discord_native_voice.Rtp.{
  DecodedRtpPacket, RtpPacket, ReceivedVideoPacket, h264, video, sequence,
}
use discord_native_voice.Rtp.Sequence.{unwrap_sequence}
use discord_native_voice.Reorder.{Buffer, init, pop_loop, min_key, push, run}
use discord_native_voice.Reorder.Valid.{IsSettled, IsValid, Release}
use discord_native_voice.Reorder.Order.{push-Release, push-IsValid}
use discord_native_voice.Reorder.Delivery.{IsSerial, run-IsSerial, push_expected, push_overdue}
use discord_native_voice.Reorder.Accounts.{IsBalanced, push-IsBalanced}

abbrev decoded : ℕ → DecodedRtpPacket
decoded n = record {
  payload_type = 105;
  marker = false;
  padded = false;
  sequence = n;
  timestamp = 0;
  ssrc = 7;
  extended = false;
  extension_payload = [];
  rtp_extensions = [];
  payload = [];
}

abbrev rtp_packet : ℕ → RtpPacket
rtp_packet n = record {
  media_type = video;
  codec = h264;
  payload = [];
  payload_type = 105;
  marker = false;
  sequence = n;
  timestamp = 0;
  ssrc = 7;
  user_id = none;
  raw = [];
  extension_payload = [];
  rtp_extended = false;
  rtp_extensions = [];
  rtx = false;
  rtx_ssrc = none;
  rtx_payload_type = none;
  audio_level = none;
  audio_voice_activity = none;
}

abbrev packet : ℕ → ReceivedVideoPacket
packet n = record {
  decoded = decoded n;
  codec = h264;
  ssrc = 7;
  user_id = none;
  raw = [];
  rtp_packet = rtp_packet n;
  received_at = 0;
}

-- Five packets across the wrap of the sequence number, two of them swapped and one twice.
abbrev arrivals : List (ℕ × ReceivedVideoPacket)
arrivals =
    (0, packet 65534)
    ∷ (1, packet 0)
    ∷ (2, packet 0)
    ∷ (3, packet 65535)
    ∷ (4, packet 65534)
    ∷ (5, packet 1)
    ∷ []

abbrev empty : Buffer
empty = init 3 10 true

released : map sequence (run arrivals empty).0 ≡ 65534 ∷ 65535 ∷ 0 ∷ 1 ∷ []
unfolding run push sequence unwrap_sequence pop_loop get put erase
released = refl

-- The head stays away: the packets above it are released once its time is over.
abbrev gap : List (ℕ × ReceivedVideoPacket)
gap = (0, packet 10) ∷ (1, packet 12) ∷ (5, packet 13) ∷ (11, packet 15) ∷ []

skipped : map sequence (run gap empty).0 ≡ 10 ∷ 12 ∷ 13 ∷ []
unfolding run push sequence unwrap_sequence pop_loop min_key get put erase
skipped = refl

-- The buffer after its first packet, 10, and one above a gap, 12, which has waited since 1.
abbrev blocked : Buffer
blocked = record (init 3 10 true) {
  expected_sequence = some 11;
  blocked_at = some 1;
  packets = (12, packet 12) ∷ [];
}

blocked-IsSettled : IsSettled 11 blocked
unfolding get sequence
blocked-IsSettled = record {
  expects = refl;
  unique = (refl, tt);
  window = λ k p g. ground arith;
  missing = refl;
  room = omega arith;
}

push-Release_example : Release 11 11 blocked (push 11 (packet 15) blocked)
push-Release_example = push-Release 11 (packet 15) 11 blocked blocked-IsSettled

push-IsValid_example : IsValid (push 11 (packet 15) blocked).1
push-IsValid_example = push-IsValid 11 (packet 15) blocked (inr (11, blocked-IsSettled))

run-IsSerial_example : IsSerial (run arrivals empty).0
run-IsSerial_example = run-IsSerial arrivals empty (inl (refl, refl))

push_expected_example :
    (ps : List ReceivedVideoPacket) × ((push 2 (packet 11) blocked).0 ≡ packet 11 ∷ ps)
unfolding sequence
push_expected_example = push_expected 2 (packet 11) 11 blocked blocked-IsSettled refl

push_overdue_example : 1 ≤ length (push 11 (packet 15) blocked).0
unfolding sequence unwrap_sequence
push_overdue_example =
    push_overdue 11 (packet 15) 11 1 blocked blocked-IsSettled refl (omega arith) (omega arith)

push-IsBalanced_example : IsBalanced (push 11 (packet 15) empty).1
push-IsBalanced_example = push-IsBalanced 11 (packet 15) empty refl refl
