-- ===== src/Frames/Sink.antt =====
-- `EncodedVideoSink` of discord/ext/native_voice/media.py, on a file that is written at its end. The
-- files that the source closes or flushes are not modelled, only the bytes in them.
pub mod Layout
use discord_native_voice.Prelude.{
  ℕ, zero, suc, ◌+◌, ◌/◌, ◌%◌, Bool, true, false, not, ◌||◌, ◌&&◌, Option, none, some, List, [],
  ◌∷◌, ◌++◌, length, take, drop, ltb, leb, nat_eq, max, if◌then◌else◌,
}
use discord_native_voice.Prelude.Bytes.{Bytes}
use discord_native_voice.Prelude.Little.{le, pack_le}
use discord_native_voice.Prelude.Result.{Result, ok, err, ◌>>=◌, ◌>>◌, guard}
use discord_native_voice.Rtp.{Codec, opus, av1, h265, h264, vp8, vp9}
use discord_native_voice.Rtp.Sequence.{rtp_timestamp_delta}
use discord_native_voice.Media.{MediaPacket}
use discord_native_voice.Send.{starts_with, has_all, has_some}
use discord_native_voice.Frames.Ivf.{ivf_magic}

-- `ValueError`, for a size that is missing, and `struct.error`, for a number that does not fit.
pub data SinkError : Type 0 where
  dimensions_required unpackable : SinkError

-- A new file has no base timestamp and no frames; a file that cannot `seek` keeps its header.
pub record VideoSink : Type 0 where
  pub codec : Codec
  pub fps : ℕ
  pub rtp_timestamps : Bool
  pub base_timestamp : Option ℕ
  pub frames : ℕ
  pub h26x_started : Bool
  pub file : Bytes
  pub seekable : Bool
  pub closed : Bool

-- `_IVF_FOURCC.get(codec)`: VP80, VP90, AV01
abbrev pub ivf_fourcc : Codec → Option Bytes
ivf_fourcc vp8 = some (86 ∷ 80 ∷ 56 ∷ 48 ∷ [])
ivf_fourcc vp9 = some (86 ∷ 80 ∷ 57 ∷ 48 ∷ [])
ivf_fourcc av1 = some (65 ∷ 86 ∷ 48 ∷ 49 ∷ [])
ivf_fourcc _ = none

-- `_H26X_PARAMETER_SET_TYPES.get(codec)`
abbrev pub h26x_parameter_set_types : Codec → Option (List ℕ)
h26x_parameter_set_types h264 = some (7 ∷ 8 ∷ [])
h26x_parameter_set_types h265 = some (32 ∷ 33 ∷ 34 ∷ [])
h26x_parameter_set_types _ = none

-- `_H26X_KEYFRAME_TYPES[codec]`
abbrev pub h26x_keyframe_types : Codec → List ℕ
h26x_keyframe_types h264 = 5 ∷ []
h26x_keyframe_types h265 = 16 ∷ 17 ∷ 18 ∷ 19 ∷ 20 ∷ 21 ∷ []
h26x_keyframe_types _ = []

-- The type of the unit that starts here, where the bytes reach
abbrev pub nal_type_at : Codec → Bytes → List ℕ
nal_type_at h264 (b ∷ _) = b % 32 ∷ []
nal_type_at h264 [] = []
nal_type_at _ (b ∷ c ∷ _) = b / 2 % 64 ∷ []
nal_type_at _ _ = []

-- The loop of `_annex_b_nal_types`, on the bytes from `index` on
unfoldable pub annex_b_loop : ℕ → Codec → Bytes → List ℕ
unfolding starts_with
annex_b_loop zero codec payload = []
annex_b_loop (suc fuel) codec payload =
    let after4 = annex_b_loop fuel codec (drop 5 payload) in
    let after3 = annex_b_loop fuel codec (drop 4 payload) in
    let later = annex_b_loop fuel codec (drop 1 payload) in
    if ltb (length payload) 3
    then []
    else if starts_with (0 ∷ 0 ∷ 0 ∷ 1 ∷ []) payload
    then nal_type_at codec (drop 4 payload) ++ after4
    else if starts_with (0 ∷ 0 ∷ 1 ∷ []) payload
    then nal_type_at codec (drop 3 payload) ++ after3
    else later

unfoldable pub annex_b_nal_types : Bytes → Codec → List ℕ
unfolding annex_b_loop
annex_b_nal_types payload codec = annex_b_loop (length payload) codec payload

abbrev pub rtp_clock_rate : ℕ
rtp_clock_rate = 90_000

-- The header of the file: `struct.pack('<4sHH4sHHIIII', ...)`
unfoldable pub ivf_header : Option Bytes → ℕ → ℕ → ℕ → Result SinkError Bytes
ivf_header none width height denominator = ok []
ivf_header (some fourcc) width height denominator = do
  w ← pack_le unpackable 2 width
  h ← pack_le unpackable 2 height
  rate ← pack_le unpackable 4 denominator
  ok (
      ivf_magic
      ++ (le 2 0
          ++ (le 2 32 ++ (fourcc ++ (w ++ (h ++ (rate ++ (le 4 1 ++ (le 4 0 ++ le 4 0)))))))))

abbrev pub is_some {ℓ} : {A : Type ℓ} → Option A → Bool
is_some none = false
is_some (some _) = true

-- `EncodedVideoSink.__init__`, for a codec name that `_coerce_video_codec` has normalized
unfoldable pub new_sink : Codec → ℕ → ℕ → ℕ → Bool → Bool → Result SinkError VideoSink
unfolding ivf_header
new_sink codec width height fps rtp_timestamps seekable = do
  guard (not (is_some (ivf_fourcc codec) && (nat_eq width 0 || nat_eq height 0)))
      dimensions_required
  header ←
      ivf_header (ivf_fourcc codec) width height
        (if rtp_timestamps then rtp_clock_rate else max 1 fps)
  ok (record {
    codec = codec;
    fps = max 1 fps;
    rtp_timestamps = rtp_timestamps;
    base_timestamp = none;
    frames = 0;
    h26x_started = not (is_some (h26x_parameter_set_types codec));
    file = header;
    seekable = seekable;
    closed = false;
  })

-- `_ivf_timestamp`: the timestamp and the base that it leaves
abbrev pub delta_or_frames : Option ℕ → ℕ → ℕ
delta_or_frames none frames = frames
delta_or_frames (some delta) frames = delta

abbrev pub timestamp_from : ℕ → ℕ → Option ℕ → ℕ × Option ℕ
timestamp_from timestamp frames none = (0, some timestamp)
timestamp_from timestamp frames (some base) =
    (delta_or_frames (rtp_timestamp_delta timestamp base) frames, some base)

unfoldable pub ivf_timestamp : MediaPacket → VideoSink → ℕ × Option ℕ
ivf_timestamp packet sink =
    if not sink.rtp_timestamps
    then (sink.frames, sink.base_timestamp)
    else timestamp_from packet.timestamp sink.frames sink.base_timestamp

-- `_should_write_h26x`, by the parameter sets of the codec; a codec without them is written at once
unfoldable pub h26x_may_start : Option (List ℕ) → Codec → Bytes → Bool
unfolding annex_b_nal_types has_all has_some
h26x_may_start none codec payload = true
h26x_may_start (some parameter_sets) codec payload =
    let nal_types = annex_b_nal_types payload codec in
    has_all parameter_sets nal_types && has_some (h26x_keyframe_types codec) nal_types

unfoldable pub should_write_h26x : MediaPacket → VideoSink → Bool
unfolding h26x_may_start
should_write_h26x packet sink =
    sink.h26x_started
    || h26x_may_start (h26x_parameter_set_types sink.codec) sink.codec packet.payload

-- The header of a frame: `struct.pack('<IQ', len(payload), timestamp)`
unfoldable pub frame_header : Option Bytes → ℕ → ℕ → Result SinkError Bytes
frame_header none size timestamp = ok []
frame_header (some fourcc) size timestamp = do
  size_field ← pack_le unpackable 4 size
  timestamp_field ← pack_le unpackable 8 timestamp
  ok (size_field ++ timestamp_field)

-- The base timestamp is one of an IVF sink.
abbrev pub base_after : Option Bytes → Option ℕ → Option ℕ → Option ℕ
base_after none before after = before
base_after (some fourcc) before after = after

-- `write`: whether the packet is written, and the sink it leaves
unfoldable pub write : MediaPacket → VideoSink → Result SinkError (Bool × VideoSink)
unfolding should_write_h26x ivf_timestamp frame_header
write packet sink =
    let (timestamp, base) = ivf_timestamp packet sink in
    if sink.closed || not (should_write_h26x packet sink)
    then ok (false, sink)
    else frame_header (ivf_fourcc sink.codec) (length packet.payload) timestamp >>= λ header. ok (
      true,
      record sink {
        h26x_started = true;
        base_timestamp = base_after (ivf_fourcc sink.codec) sink.base_timestamp base;
        file = sink.file ++ (header ++ packet.payload);
        frames = sink.frames + 1;
      },
    )

-- The count of the frames, written at offset 24, where the file can seek
abbrev pub patched : Option Bytes → Bool → Bytes → Bytes → Bytes
patched (some fourcc) true count file = take 24 file ++ (count ++ drop 28 file)
patched _ _ count file = file

-- The field of the count, packed once the file has moved to it
unfoldable pub count_field : Option Bytes → Bool → ℕ → Result SinkError Bytes
count_field (some fourcc) true frames = pack_le unpackable 4 frames
count_field _ _ frames = ok []

unfoldable pub cleanup : VideoSink → Result SinkError VideoSink
unfolding count_field
cleanup sink =
    if sink.closed
    then ok sink
    else count_field (ivf_fourcc sink.codec) sink.seekable sink.frames >>= λ count.
        ok (record sink {
          closed = true;
          file = patched (ivf_fourcc sink.codec) sink.seekable count sink.file;
        })

unfoldable pub write_all : List MediaPacket → VideoSink → Result SinkError VideoSink
unfolding write
write_all [] sink = ok sink
write_all (packet ∷ packets) sink = write packet sink >>= λ written. write_all packets written.1

-- The file of a sink that is made, given packets and cleaned up
unfoldable pub record_file :
    Codec → ℕ → ℕ → ℕ → Bool → Bool → List MediaPacket → Result SinkError Bytes
unfolding new_sink write_all cleanup
record_file codec width height fps rtp_timestamps seekable packets = do
  opened ← new_sink codec width height fps rtp_timestamps seekable
  written ← write_all packets opened
  closed ← cleanup written
  ok closed.file
