-- ===== src/Frames/Tests.antt =====
-- Streams of encoded video on concrete bytes.
use discord_native_voice.Prelude.{
  ℕ, suc, ◌<◌, min, ◌≡◌, refl, ap, true, false, none, List, [], ◌∷◌, ◌++◌, length, take, drop,
  take-append-drop, length-take, arith,
}
use discord_native_voice.Prelude.Bytes.{Bytes}
use discord_native_voice.Prelude.Result.{ok, ◌>>=◌}
use discord_native_voice.Rtp.{h264, vp8, video}
use discord_native_voice.Rtp.Sequence.{rtp_timestamp_delta}
use discord_native_voice.Media.{MediaPacket}
use discord_native_voice.Frames.{ByteStream, read_exact}
use discord_native_voice.Frames.Ivf.{read_frame, parse_frame, seen, read_frame-parse_frame}
use discord_native_voice.Frames.Sink.{record_file}
use discord_native_voice.Frames.Sink.Layout.{
  body, header_bytes, fourcc_of, Holds, record_file-Holds,
}
use discord_native_voice.Frames.Source.{open_source, read_all, read_video}
use discord_native_voice.Frames.Source.Slices.{Suffix, read_all-Suffix}
use discord_native_voice.Frames.RoundTrip.{record_file-read_all}
use discord_native_voice.Frames.Read.{read_exact_lem}

-- Bytes that are read at most so many at a time, and one more.
abbrev Drip : Type 0
Drip = Bytes × ℕ

read_ends_drip : (n k : ℕ) (bytes : Bytes) → 0 < n → take (min n (suc k)) bytes ≡ [] → bytes ≡ []
read_ends_drip n k [] h e = refl
read_ends_drip n k (b ∷ bytes) h e =
    let size = ap length e in
    let m = length-take (min n (suc k)) (b ∷ bytes) in absurd (omega arith)

instance abbrev drip : ByteStream Drip
drip = record {
  read = λ n s. (take (min n (suc s.1)) s.0, (drop (min n (suc s.1)) s.0, s.1));
  left = λ s. s.0;
  read_splits = λ n s. take-append-drop (min n (suc s.1)) s.0;
  read_fits = λ n s. let m = length-take (min n (suc s.1)) s.0 in omega arith;
  read_ends = λ n s. read_ends_drip n s.1 s.0;
}

abbrev dripping : Bytes → ℕ → Drip
dripping bytes k = (bytes, k)

abbrev packet : ℕ → Bytes → MediaPacket
packet timestamp payload = record {
  media_type = video;
  codec = vp8;
  payload = payload;
  payload_type = 105;
  marker = true;
  sequence = 1;
  timestamp = timestamp;
  ssrc = 7;
  user_id = none;
  raw = [];
  extension_payload = [];
  rtp_extended = false;
  rtp_extensions = [];
  rtp_packets = [];
  received_at = none;
  rtcp_time = none;
  speaking_flags = none;
  audio_level = none;
  audio_voice_activity = none;
}

abbrev packets : List MediaPacket
packets = packet 1000 (1 ∷ 2 ∷ 3 ∷ []) ∷ packet 4000 (4 ∷ []) ∷ []

abbrev recorded : Bytes
recorded =
    header_bytes (fourcc_of vp8) 640 480 90_000 2
    ++ body ((0, 1 ∷ 2 ∷ 3 ∷ []) ∷ (3000, 4 ∷ []) ∷ [])

-- The bytes of two units and an access unit delimiter, each after a start code.
abbrev units : Bytes
units = 9 ∷ 0 ∷ 0 ∷ 0 ∷ 1 ∷ 9 ∷ 16 ∷ 0 ∷ 0 ∷ 1 ∷ 9 ∷ 16 ∷ 7 ∷ []

read_exact_lem_example :
    ((read_exact 4 (dripping (1 ∷ 2 ∷ 3 ∷ 4 ∷ 5 ∷ []) 0)).0 ≡ 1 ∷ 2 ∷ 3 ∷ 4 ∷ [])
    × (drip.left (read_exact 4 (dripping (1 ∷ 2 ∷ 3 ∷ 4 ∷ 5 ∷ []) 0)).1 ≡ 5 ∷ [])
read_exact_lem_example = read_exact_lem 4 (dripping (1 ∷ 2 ∷ 3 ∷ 4 ∷ 5 ∷ []) 0)

recorded_file : record_file vp8 640 480 30 true true packets ≡ ok recorded
unfolding record_file rtp_timestamp_delta
recorded_file = refl

record_file-Holds_example :
    Holds (fourcc_of vp8) 640 480 90_000 2 packets (record_file vp8 640 480 30 true true packets)
record_file-Holds_example =
    record_file-Holds vp8 640 480 30 true true packets refl (omega arith) (omega arith)
      (omega arith)

record_file-read_all_example :
    (open_source vp8 (dripping recorded 6) >>= read_all 3)
    ≡ ok (true, (1 ∷ 2 ∷ 3 ∷ []) ∷ (4 ∷ []) ∷ [])
record_file-read_all_example =
    record_file-read_all vp8 640 480 30 true true packets recorded (dripping recorded 6) 3 refl
      (omega arith) (omega arith) (omega arith) (omega arith) recorded_file refl (omega arith)

read_frame-parse_frame_example :
    seen (read_frame (dripping (body ((0, 5 ∷ []) ∷ (1, 6 ∷ 7 ∷ []) ∷ [])) 2))
    ≡ parse_frame (body ((0, 5 ∷ []) ∷ (1, 6 ∷ 7 ∷ []) ∷ []))
read_frame-parse_frame_example =
    read_frame-parse_frame (dripping (body ((0, 5 ∷ []) ∷ (1, 6 ∷ 7 ∷ []) ∷ [])) 2)

read_all-Suffix_example : Suffix units (open_source h264 (dripping units 6) >>= read_all 20)
read_all-Suffix_example = read_all-Suffix h264 (dripping units 6) 20 refl (omega arith)

split_units :
    (open_source h264 (dripping units 6) >>= read_all 20)
    ≡ ok (true, (0 ∷ 0 ∷ 0 ∷ 1 ∷ 9 ∷ 16 ∷ []) ∷ (0 ∷ 0 ∷ 1 ∷ 9 ∷ 16 ∷ 7 ∷ []) ∷ [])
unfolding open_source read_all read_video
split_units = refl

-- A chunk that ends after the header of an H264 delimiter: its start code is found again in three
-- bytes, and the byte before is returned as a frame.
split_after_header :
    (open_source h264 (dripping (drop 1 units) 4) >>= read_all 20)
    ≡ ok (true, (0 ∷ []) ∷ (0 ∷ 0 ∷ 1 ∷ 9 ∷ 16 ∷ []) ∷ (0 ∷ 0 ∷ 1 ∷ 9 ∷ 16 ∷ 7 ∷ []) ∷ [])
unfolding open_source read_all read_video
split_after_header = refl
