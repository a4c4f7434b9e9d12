-- ===== src/Frames/Sink/Layout.antt =====
-- The bytes that `EncodedVideoSink` writes to an IVF file.
use discord_native_voice.Prelude.{
  ℕ, ◌+◌, ◌<◌, ◌≡◌, refl, sym, ap, ◌∙◌, Bool, true, false, inl, inr, Option, none, some, List, [],
  ◌∷◌, ◌++◌, map, length, All, max, nat_eq, arith, Bool-cases, append_assoc, append_nil,
  if◌then◌else◌,
}
use discord_native_voice.Prelude.Bytes.{Bytes}
use discord_native_voice.Prelude.Little.{le, pack_le_fits}
use discord_native_voice.Prelude.Result.{Result, ok, err, ◌>>=◌}
use discord_native_voice.Rtp.{Codec, opus, pcm, av1, h265, h264, vp8, vp9}
use discord_native_voice.Rtp.Sequence.{rtp_timestamp_delta}
use discord_native_voice.Media.{MediaPacket}
use discord_native_voice.Frames.Ivf.{ivf_magic}
use discord_native_voice.Frames.Sink.{
  SinkError, unpackable, VideoSink, ivf_fourcc, ivf_header, new_sink, rtp_clock_rate,
  h26x_parameter_set_types, delta_or_frames, timestamp_from, ivf_timestamp, should_write_h26x,
  frame_header, base_after, is_some, write, patched, count_field, cleanup, write_all, record_file,
}

-- A frame of a file: its timestamp and its bytes.
abbrev pub frame_bytes : ℕ × Bytes → Bytes
frame_bytes (timestamp, payload) = (le 4 (length payload) ++ le 8 timestamp) ++ payload

abbrev pub body : List (ℕ × Bytes) → Bytes
body [] = []
body (frame ∷ frames) = frame_bytes frame ++ body frames

abbrev pub header_bytes : Bytes → ℕ → ℕ → ℕ → ℕ → Bytes
header_bytes fourcc width height rate count =
    ivf_magic
    ++ (le 2 0
        ++ (le 2 32
            ++ (fourcc
                ++ (le 2 width
                    ++ (le 2 height ++ (le 4 rate ++ (le 4 1 ++ (le 4 count ++ le 4 0))))))))

-- A sink of an IVF file that is open.
abbrev pub IsOpenIvf : VideoSink → Type 0
IsOpenIvf sink =
    (sink.closed ≡ false)
    × (sink.h26x_started ≡ true)
    × ((fourcc : Bytes) × (ivf_fourcc sink.codec ≡ some fourcc))

delta_or_frames-lt :
    (o : Option ℕ) (timestamp base frames : ℕ)
    → rtp_timestamp_delta timestamp base ≡ o
    → frames < 4294967296
    → delta_or_frames o frames < 4294967296
unfolding rtp_timestamp_delta
delta_or_frames-lt none timestamp base frames e h = h
delta_or_frames-lt (some delta) timestamp base frames e h = ground arith

timestamp_from-lt :
    (timestamp frames : ℕ) (base : Option ℕ)
    → frames < 4294967296
    → (timestamp_from timestamp frames base).0 < 4294967296
timestamp_from-lt timestamp frames none h = omega arith
timestamp_from-lt timestamp frames (some base) h = delta_or_frames-lt _ timestamp base frames refl h

ivf_timestamp-lt :
    (packet : MediaPacket) (sink : VideoSink)
    → sink.frames < 4294967296
    → (ivf_timestamp packet sink).0 < 4294967296
unfolding ivf_timestamp
ivf_timestamp-lt packet sink h = elim (Bool-cases sink.rtp_timestamps) [
  | inl e ↦ rw e (timestamp_from-lt packet.timestamp sink.frames sink.base_timestamp h)
  | inr e ↦ rw e h
]

frame_header_fits :
    (fourcc : Option Bytes) (magic : Bytes) (size timestamp : ℕ)
    → fourcc ≡ some magic
    → size < 4294967296
    → timestamp < 4294967296
    → frame_header fourcc size timestamp ≡ ok (le 4 size ++ le 8 timestamp)
unfolding frame_header
frame_header_fits none magic size timestamp e hs ht = cc
frame_header_fits (some fourcc) magic size timestamp e hs ht =
    rw
      (
        pack_le_fits unpackable 4 size (omega arith),
        pack_le_fits unpackable 8 timestamp (omega arith),
      )
      refl

-- What a sink has been given: the frames in its file after those it had.
abbrev pub Wrote : VideoSink → List MediaPacket → Result SinkError VideoSink → Type 0
Wrote sink packets (err e) = ⊥
Wrote sink packets (ok after) =
    (frames : List (ℕ × Bytes)) × (after.file ≡ sink.file ++ body frames)
    × (map (λ f. f.1) frames ≡ map (λ p. p.payload) packets)
    × (after.frames ≡ sink.frames + length packets)
    × (after.closed ≡ false)
    × (after.codec ≡ sink.codec)
    × (after.seekable ≡ sink.seekable)

abbrev pub FitPackets : List MediaPacket → Type 0
FitPackets = All (λ p. length p.payload < 4294967296)

Wrote-step :
    (sink next : VideoSink) (packet : MediaPacket) (packets : List MediaPacket) (timestamp : ℕ)
    (o : Result SinkError VideoSink)
    → next.file ≡ sink.file ++ frame_bytes (timestamp, packet.payload)
    → next.frames ≡ sink.frames + 1
    → next.codec ≡ sink.codec
    → next.seekable ≡ sink.seekable
    → Wrote next packets o
    → Wrote sink (packet ∷ packets) o
Wrote-step sink next packet packets timestamp (err e) file frames codec seekable h = h
Wrote-step sink next packet packets timestamp (ok after) file frames codec seekable h =
    let (rest, all_file, payloads, count, closed, same_codec, same_seekable) = h in
    (
      (timestamp, packet.payload) ∷ rest,
      all_file
          ∙ ap (λ x. x ++ body rest) file
          ∙ append_assoc sink.file (frame_bytes (timestamp, packet.payload)) (body rest),
      ap (λ x. packet.payload ∷ x) payloads,
      omega arith,
      closed,
      same_codec ∙ codec,
      same_seekable ∙ seekable,
    )

-- A sink of an IVF file that is open takes all packets, and writes a frame for each.
write_all-Wrote :
    (packets : List MediaPacket) (sink : VideoSink)
    → IsOpenIvf sink
    → FitPackets packets
    → sink.frames + length packets < 4294967296
    → Wrote sink packets (write_all packets sink)
unfolding write_all write should_write_h26x
write_all-Wrote [] sink (open_now, started, is_ivf) fit few =
    ([], sym (append_nil sink.file), refl, omega arith, open_now, refl, refl)
write_all-Wrote (packet ∷ packets) sink (open_now, started, (fourcc, is_ivf)) fit few =
    let (timestamp, base) = ivf_timestamp packet sink in
    let next = record sink {
      closed = false;
      h26x_started = true;
      base_timestamp = base_after (ivf_fourcc sink.codec) sink.base_timestamp base;
      frames = sink.frames + 1;
      file = sink.file ++ frame_bytes (timestamp, packet.payload);
    } in
    let accepted =
      frame_header_fits (ivf_fourcc sink.codec) fourcc (length packet.payload) timestamp is_ivf
        fit.0 (ivf_timestamp-lt packet sink (omega arith)) in
    rw (open_now, started, accepted)
      (Wrote-step (record sink { closed = false; h26x_started = true }) next packet packets
        timestamp (write_all packets next) refl refl refl refl
        (write_all-Wrote packets next (refl, refl, (fourcc, is_ivf)) fit.1 (omega arith)))

-- A count in the header of a file.
patched-header_bytes :
    (a b c d width height rate count : ℕ) (seekable : Bool) (rest : Bytes)
    → patched
        (some (a ∷ b ∷ c ∷ d ∷ []))
        seekable
        (le 4 count)
        (header_bytes (a ∷ b ∷ c ∷ d ∷ []) width height rate 0 ++ rest)
      ≡ header_bytes (a ∷ b ∷ c ∷ d ∷ []) width height rate (if seekable then count else 0) ++ rest
patched-header_bytes a b c d width height rate count true rest = refl
patched-header_bytes a b c d width height rate count false rest = refl

count_field_fits :
    (fourcc : Option Bytes) (magic : Bytes) (frames : ℕ)
    → fourcc ≡ some magic
    → frames < 4294967296
    → count_field fourcc true frames ≡ ok (le 4 frames)
unfolding count_field
count_field_fits none magic frames e h = cc
count_field_fits (some fourcc) magic frames e h = pack_le_fits unpackable 4 frames (omega arith)

count_field_unseekable :
    (fourcc : Option Bytes) (frames : ℕ) → count_field fourcc false frames ≡ ok []
unfolding count_field
count_field_unseekable none frames = refl
count_field_unseekable (some fourcc) frames = refl

-- A file, as a header and the frames after it.
abbrev pub Holds : Bytes → ℕ → ℕ → ℕ → ℕ → List MediaPacket → Result SinkError Bytes → Type 0
Holds fourcc width height rate count packets (err e) = ⊥
Holds fourcc width height rate count packets (ok file) =
    (frames : List (ℕ × Bytes)) × (file
      ≡ header_bytes fourcc width height rate count ++ body frames)
    × (map (λ f. f.1) frames ≡ map (λ p. p.payload) packets)

cleanup-Holds :
    (a b c d width height rate : ℕ) (packets : List MediaPacket) (sink : VideoSink)
    (o : Result SinkError VideoSink)
    → ivf_fourcc sink.codec ≡ some (a ∷ b ∷ c ∷ d ∷ [])
    → sink.file ≡ header_bytes (a ∷ b ∷ c ∷ d ∷ []) width height rate 0
    → sink.frames ≡ 0
    → length packets < 4294967296
    → Wrote sink packets o
    → Holds
        (a ∷ b ∷ c ∷ d ∷ [])
        width
        height
        rate
        (if sink.seekable then length packets else 0)
        packets
        (o >>= λ written. cleanup written >>= λ closed. ok closed.file)
unfolding cleanup
cleanup-Holds a b c d width height rate packets sink (err e) is_ivf start zero_frames few h = h
cleanup-Holds a b c d width height rate packets sink (ok after) is_ivf start zero_frames few
      (frames, file, payloads, count, closed, codec, seekable) =
    let laid_out = file ∙ ap (λ x. x ++ body frames) start in
    let n : after.frames ≡ length packets = omega arith in
    let is_ivf' = ap ivf_fourcc codec ∙ is_ivf in
    elim (Bool-cases sink.seekable) [
      | inl e ↦
          let packed =
            count_field_fits (ivf_fourcc after.codec) (a ∷ b ∷ c ∷ d ∷ []) (length packets) is_ivf'
              few in
          rw (closed, seekable ∙ e, e, n, packed, is_ivf', laid_out) (frames, refl, payloads)
      | inr e ↦
          let packed = count_field_unseekable (ivf_fourcc after.codec) after.frames in
          rw (closed, seekable ∙ e, e, packed, is_ivf', laid_out) (frames, refl, payloads)
    ]

abbrev pub clock_rate : Bool → ℕ → ℕ
clock_rate rtp_timestamps fps = if rtp_timestamps then rtp_clock_rate else max 1 fps

-- Sizes that an IVF header can hold.
abbrev pub FitSizes : ℕ → ℕ → ℕ → Type 0
FitSizes width height fps =
    (0 < width) × (width < 65536) × (0 < height) × (height < 65536) × (fps < 4294967296)

clock_rate-lt :
    (rtp_timestamps : Bool) (fps : ℕ)
    → fps < 4294967296
    → clock_rate rtp_timestamps fps < 4294967296
clock_rate-lt true fps h = omega arith
clock_rate-lt false fps h = omega arith

opened_file-Holds :
    (codec : Codec) (a b c d width height fps : ℕ) (rtp_timestamps seekable : Bool)
    (packets : List MediaPacket)
    → ivf_fourcc codec ≡ some (a ∷ b ∷ c ∷ d ∷ [])
    → h26x_parameter_set_types codec ≡ none
    → FitSizes width height fps
    → FitPackets packets
    → length packets < 4294967296
    → Holds
        (a ∷ b ∷ c ∷ d ∷ [])
        width
        height
        (clock_rate rtp_timestamps fps)
        (if seekable then length packets else 0)
        packets
        (record_file codec width height fps rtp_timestamps seekable packets)
unfolding record_file new_sink ivf_header
opened_file-Holds codec a b c d width height fps rtp_timestamps seekable packets is_ivf no_sets
      (w0, w1, h0, h1, f1) fit few =
    let rate = clock_rate rtp_timestamps fps in
    let opened : VideoSink = record {
      codec = codec;
      fps = max 1 fps;
      rtp_timestamps = rtp_timestamps;
      base_timestamp = none;
      frames = 0;
      h26x_started = true;
      file = header_bytes (a ∷ b ∷ c ∷ d ∷ []) width height rate 0;
      seekable = seekable;
      closed = false;
    } in
    let w_given : nat_eq width 0 ≡ false = ground arith in
    let h_given : nat_eq height 0 ≡ false = ground arith in
    rw
      (
        is_ivf,
        no_sets,
        w_given,
        h_given,
        pack_le_fits unpackable 2 width (omega arith),
        pack_le_fits unpackable 2 height (omega arith),
        pack_le_fits unpackable 4 rate (omega (arith, clock_rate-lt rtp_timestamps fps f1)),
      )
      (cleanup-Holds a b c d width height rate packets opened (write_all packets opened) is_ivf refl
        refl few (write_all-Wrote packets opened (refl, refl, (_, is_ivf)) fit (omega arith)))

-- The code of an IVF codec.
abbrev pub fourcc_of : Codec → Bytes
fourcc_of vp8 = 86 ∷ 80 ∷ 56 ∷ 48 ∷ []
fourcc_of vp9 = 86 ∷ 80 ∷ 57 ∷ 48 ∷ []
fourcc_of av1 = 65 ∷ 86 ∷ 48 ∷ 49 ∷ []
fourcc_of _ = []

-- A VP8, VP9 or AV1 sink of sizes that fit records fewer than 2 ^ 32 packets without an error. Its
-- file is the header, with the count of the packets where the file can seek and 0 where it cannot,
-- and the packets' payloads in their order, each after its length and a timestamp.
pub record_file-Holds :
    (codec : Codec) (width height fps : ℕ) (rtp_timestamps seekable : Bool)
    (packets : List MediaPacket)
    → is_some (ivf_fourcc codec) ≡ true
    → FitSizes width height fps
    → FitPackets packets
    → length packets < 4294967296
    → Holds
        (fourcc_of codec)
        width
        height
        (clock_rate rtp_timestamps fps)
        (if seekable then length packets else 0)
        packets
        (record_file codec width height fps rtp_timestamps seekable packets)
record_file-Holds vp8 width height fps rtp_timestamps seekable packets e sizes fit few =
    opened_file-Holds vp8 _ _ _ _ width height fps rtp_timestamps seekable packets refl refl sizes
      fit few
record_file-Holds vp9 width height fps rtp_timestamps seekable packets e sizes fit few =
    opened_file-Holds vp9 _ _ _ _ width height fps rtp_timestamps seekable packets refl refl sizes
      fit few
record_file-Holds av1 width height fps rtp_timestamps seekable packets e sizes fit few =
    opened_file-Holds av1 _ _ _ _ width height fps rtp_timestamps seekable packets refl refl sizes
      fit few
record_file-Holds h264 width height fps rtp_timestamps seekable packets e sizes fit few = cc
record_file-Holds h265 width height fps rtp_timestamps seekable packets e sizes fit few = cc
record_file-Holds opus width height fps rtp_timestamps seekable packets e sizes fit few = cc
record_file-Holds pcm width height fps rtp_timestamps seekable packets e sizes fit few = cc
