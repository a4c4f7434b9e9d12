-- ===== src/Sinks/Tests.antt =====
-- The sinks at concrete packets.
use discord_native_voice.Prelude.{
  ℕ, ◌+◌, ◌≡◌, refl, true, false, Option, none, some, List, [], ◌∷◌, length, is_empty,
  if◌then◌else◌, All, arith,
}
use discord_native_voice.Prelude.Dict.{get}
use discord_native_voice.Rtp.{audio, opus}
use discord_native_voice.Rtp.Sequence.{sequence_delta, rtp_timestamp_delta}
use discord_native_voice.Media.{MediaPacket}
use discord_native_voice.Sinks.{IsSink}
use discord_native_voice.Sinks.Pass.{BasicSink, basic_ops, multi_ops}
use discord_native_voice.Sinks.Closing.{multi_ops-IsSink}
use discord_native_voice.Sinks.Queue.{QueueSink, queue_writes, queue_writes-newest}
use discord_native_voice.Sinks.PerUser.{PerUserSink, per_user_write}
use discord_native_voice.Sinks.PerUser.Routing.{Holds, per_user_write-Holds}
use discord_native_voice.Sinks.Opus.{OpusDecoder, OpusDecodeState, recover}
use discord_native_voice.Sinks.Opus.Recovery.{Follows, recover-Follows}
use discord_native_voice.Sinks.Silence.{SilenceTrack, SilenceSettings}
use discord_native_voice.Sinks.Silence.Pace.{visits, IsSilence, visits-IsSilence}

abbrev packet : Option ℕ → ℕ → ℕ → MediaPacket
packet user_id sequence timestamp = record {
  media_type = audio;
  codec = opus;
  payload = 1 ∷ [];
  payload_type = 120;
  marker = false;
  sequence = sequence;
  timestamp = timestamp;
  ssrc = 7;
  user_id = user_id;
  raw = [];
  extension_payload = [];
  rtp_extended = false;
  rtp_extensions = [];
  rtp_packets = [];
  received_at = none;
  rtcp_time = none;
  speaking_flags = none;
  audio_level = none;
  audio_voice_activity = none;
}

abbrev unnamed : MediaPacket
unnamed = packet none 5 960

abbrev named : MediaPacket
named = packet (some 42) 6 1920

abbrev two_places : QueueSink
two_places = record { closed = false; queue = []; maxsize = 2; drop_oldest = true; dropped = 0 }

queue_writes-newest_example :
    ((queue_writes (unnamed ∷ named ∷ unnamed ∷ []) two_places).0 ≡ 3)
    × ((queue_writes (unnamed ∷ named ∷ unnamed ∷ []) two_places).1.queue ≡ named ∷ unnamed ∷ [])
    × ((queue_writes (unnamed ∷ named ∷ unnamed ∷ []) two_places).1.dropped ≡ 1)
queue_writes-newest_example =
    queue_writes-newest (unnamed ∷ named ∷ unnamed ∷ []) two_places refl refl (omega arith)
      (omega arith)

multi_ops-IsSink_example : IsSink (multi_ops basic_ops)
multi_ops-IsSink_example = multi_ops-IsSink basic_ops

abbrev new_basic : ℕ → BasicSink
new_basic key = record {
  closed = false;
  filter = record { media_types = none; codecs = none };
  given = [];
}

abbrev per_user : PerUserSink BasicSink
per_user = record {
  closed = false;
  fallback_to_ssrc = true;
  children_by_key = [];
  user_ids_by_ssrc = [];
}

abbrev given_to : BasicSink → List MediaPacket
given_to s = s.given

per_user-Holds : Holds basic_ops new_basic 7 42 none none none per_user
unfolding get
per_user-Holds = record {
  opened = refl;
  fallback = refl;
  distinct = tt;
  of_ssrc = refl;
  of_user = refl;
  user_known = refl;
}

per_user_write-Holds_example :
    Holds basic_ops new_basic 7 42 none
      (some (record {
        closed = false;
        filter = record { media_types = none; codecs = none };
        given = unnamed ∷ named ∷ unnamed ∷ [];
      }))
      (some 42)
      (per_user_write basic_ops new_basic 3 unnamed (
        per_user_write basic_ops new_basic 2 named
          (per_user_write basic_ops new_basic 1 unnamed per_user)))
unfolding basic_ops
per_user_write-Holds_example =
    per_user_write-Holds basic_ops new_basic 1 2 3 7 42 unnamed named unnamed per_user (refl, refl)
      (refl, refl) (refl, refl) per_user-Holds

-- A decoder whose state counts its calls, on frames of 960 samples.
abbrev counting : OpusDecoder ℕ
counting = record {
  fresh = 0;
  decode = λ payload fec calls. (some (calls ∷ []), calls + 1);
  samples = λ payload. if is_empty payload then none else some 960;
}

abbrev decoded_before : OpusDecodeState ℕ
decoded_before = record { decoder = 3; sequence = some 65535; timestamp = some 4294967000 }

abbrev after_loss : MediaPacket
after_loss = packet none 1 1624

recovers_one : length (recover counting true after_loss decoded_before 960).0 ≡ 1
unfolding sequence_delta rtp_timestamp_delta
recovers_one = refl

recover-Follows_example :
    All (Follows 65535 4294967000 960) (recover counting true after_loss decoded_before 960).0
recover-Follows_example =
    recover-Follows counting true after_loss decoded_before 65535 4294967000 960 refl refl refl
      (omega arith) (omega arith) (omega arith) (omega arith)

abbrev settings : SilenceSettings
settings = record {
  silence_after = 60_000;
  frame_duration = 20_000;
  max_silence = some 50_000;
  timestamp_step = 960;
  silence = 0 ∷ 0 ∷ [];
  no_flags = 0;
  silence_level = 127;
}

abbrev track : SilenceTrack
track = record {
  packet = unnamed;
  next_due = 60_000;
  sequence = 65535;
  timestamp = 1920;
  emitted_for = 0;
}

abbrev times : List ℕ
times = 20_000 ∷ 60_000 ∷ 70_000 ∷ 81_000 ∷ 101_000 ∷ 121_000 ∷ 141_000 ∷ []

three_frames : length (visits settings times (some track)) ≡ 3
unfolding visits
three_frames = refl

visits-IsSilence_example :
    IsSilence settings 65535 1920 60_000 0 50_000 (visits settings times (some track))
visits-IsSilence_example = visits-IsSilence settings 50_000 times track refl
