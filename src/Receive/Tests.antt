-- ===== src/Receive/Tests.antt =====
-- The theorems on the receive pipeline (discord/ext/native_voice/client.py) at a batch of two packets.
use discord_native_voice.Prelude.{
  ℕ, ℕ-eq, ◌≡◌, refl, Bool, true, false, none, some, List, [], ◌∷◌, elem, is_empty, ◌++◌, arith,
  if◌then◌else◌,
}
use discord_native_voice.Prelude.Dict.{Dict, get, put, erase}
use discord_native_voice.Prelude.Bytes.{Bytes}
use discord_native_voice.Prelude.Result.{ok, err}
use discord_native_voice.Rtp.{DecodedRtpPacket, sequence, video, vp8}
use discord_native_voice.Rtp.Sequence.{sequence_delta, unwrap_sequence}
use discord_native_voice.Reorder.{pop_loop}
use discord_native_voice.Receive.{
  Depacketizer, malformed_payload, Lookups, Receiver, unwrap_rtx, decode_media_packets,
}
use discord_native_voice.Receive.Rtx.{wrap_rtx, unwrap_rtx-wrap_rtx}
use discord_native_voice.Receive.State.{IsReceiver}
use discord_native_voice.Receive.Batch.{decode_media_packets-IsReceiver}

abbrev packet : ℕ → Bool → DecodedRtpPacket
packet n marker = record {
  payload_type = 105;
  marker = marker;
  padded = false;
  sequence = n;
  timestamp = 0;
  ssrc = 7;
  extended = false;
  extension_payload = [];
  rtp_extensions = [];
  payload = 1 ∷ 2 ∷ [];
}

-- A depacketizer that joins payloads up to the marker, and refuses empty ones.
abbrev joining : Depacketizer Bytes
joining = record {
  make = λ codec. some [];
  push_packet = λ d p. (
    if is_empty p.payload
        then err malformed_payload
        else ok (if p.marker then some (d ++ p.payload) else none),
    if p.marker then [] else d ++ p.payload,
  );
}

abbrev lookups : Lookups
lookups = record {
  payload_types = (105, (video, vp8)) ∷ [];
  rtx_payload_types = (106, (video, vp8, 105)) ∷ [];
  rtx_ssrc_media_ssrcs = (8, 7) ∷ [];
  ssrc_user_ids = [];
  dave = record { can_encrypt = false; session = none };
  flags = record { voice = 1; soundshare = 2; priority = 4 };
  opus_silence = 0xF8 ∷ 0xFF ∷ 0xFE ∷ [];
  reorder_max_packets = 3;
  reorder_max_delay = 10;
  enable_debug_stats = false;
}

abbrev new_receiver : Receiver Bytes
new_receiver = record {
  tracker = record {
    rtx_enabled = true;
    ssrc = 1;
    last_sequences = [];
    pending_nacks = [];
    stats = record { enabled = false; counts = [] };
    sent = [];
  };
  reports = record {
    states = [];
    sender_reports = [];
    sender_report_lsr = [];
    receiver_reports = [];
    interval = 1000000;
    ttl = 5000000;
  };
  startup_plis = [];
  reorder_buffers = [];
  depacketizers = [];
  frame_rtp_packets = [];
  pending_dave_video_frames = [];
}

new_receiver-IsReceiver : IsReceiver new_receiver
unfolding get
new_receiver-IsReceiver = record {
  tracker = record { one_table = tt; tables = λ k d g. cc; lasts = λ k s g. cc };
  buffers = λ k b g. cc;
  states = λ k s g. cc;
  queue = omega arith;
}

-- Packet 11 is refused, and 12 is not reached.
abbrev one_malformed : List (Bytes × DecodedRtpPacket)
one_malformed =
    ([], packet 10 false)
    ∷ ([], record (packet 11 false) { payload = [] })
    ∷ ([], packet 12 true)
    ∷ []

raises :
    (decode_media_packets joining lookups 0 2000000 2000000 one_malformed new_receiver).0
    ≡ err malformed_payload
unfolding decode_media_packets get put erase elem sequence pop_loop sequence_delta unwrap_sequence
raises = refl

decode_media_packets-IsReceiver_example :
    IsReceiver (decode_media_packets joining lookups 0 2000000 2000000 one_malformed new_receiver).1
decode_media_packets-IsReceiver_example =
    decode_media_packets-IsReceiver joining lookups 0 2000000 2000000 one_malformed new_receiver
      new_receiver-IsReceiver

abbrev rtx_table : Dict ℕ ℕ
rtx_table = (8, 7) ∷ []

known_ssrc : get 8 rtx_table ≡ some 7
unfolding get
known_ssrc = refl

unwrap_rtx-wrap_rtx_example :
    unwrap_rtx rtx_table 105 (wrap_rtx 106 8 44 (packet 11 true)) ≡ some (packet 11 true)
unwrap_rtx-wrap_rtx_example =
    unwrap_rtx-wrap_rtx rtx_table 106 8 44 (packet 11 true) (omega arith) known_ssrc
