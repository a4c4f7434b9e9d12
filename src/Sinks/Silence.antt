-- ===== src/Sinks/Silence.antt =====
-- `SilenceFillSink` of discord/ext/native_voice/media.py: the tracks and the silence that is made for
-- them. Durations are microseconds of the monotonic clock; the thread that wakes up every frame or
-- 20 ms is a sequence of calls.
pub mod Pace
use discord_native_voice.Prelude.{
  ℕ, zero, suc, ◌+◌, ◌-◌, ◌*◌, ◌%◌, ◌≤◌, ◌<◌, ◌≡◌, refl, sym, ap, ◌∙◌, Bool, true, false, not, ◌||◌,
  ◌&&◌, inl, inr, Option, none, some, List, [], ◌∷◌, ◌++◌, length, ltb, leb, arith, Bool-cases,
  if◌then◌else◌,
}
use discord_native_voice.Prelude.Dict.{Dict, get, put, Entries}
use discord_native_voice.Prelude.Bytes.{Bytes}
use discord_native_voice.Prelude.Result.{Result, ok, err, map_ok}
use discord_native_voice.Rtp.{MediaType, audio, video, Codec, opus, pcm}
use discord_native_voice.Media.{MediaPacket}
use discord_native_voice.Sinks.{SinkOps, same_media_type}
use discord_native_voice.Sinks.Opus.{
  OpusDecoder, DecodeError, DecoderCache, decode, is_opus_audio, as_pcm, write_packets,
}
use discord_native_voice.Sinks.PerUser.{ChildKey, user, ssrc, ChildKey-eq}

pub record SilenceTrack : Type 0 where
  pub packet : MediaPacket
  pub next_due : ℕ
  pub sequence : ℕ
  pub timestamp : ℕ
  pub emitted_for : ℕ

-- The settings of `__init__`; `no_flags` is `SpeakingFlags.none()` and
-- `silence_level` is `RTP_AUDIO_LEVEL_SILENCE`, both of discord.py
pub record SilenceSettings : Type 0 where
  pub silence_after : ℕ
  pub frame_duration : ℕ
  pub max_silence : Option ℕ
  pub timestamp_step : ℕ
  pub silence : Bytes
  pub no_flags : ℕ
  pub silence_level : ℕ

pub record SilenceFillSink (D S : Type 0) : Type 0 where
  pub closed : Bool
  pub tracks : Dict ChildKey SilenceTrack
  pub decoders : DecoderCache D
  pub destination : S

abbrev pub track_key : Option ℕ → ℕ → ChildKey
track_key (some user_id) n = user user_id
track_key none n = ssrc n

abbrev pub new_track : SilenceSettings → ℕ → MediaPacket → SilenceTrack
new_track settings now packet = record {
  packet = packet;
  next_due = now + settings.silence_after;
  sequence = (packet.sequence + 1) % 65536;
  timestamp = (packet.timestamp + settings.timestamp_step) % 4294967296;
  emitted_for = 0;
}

-- `_make_silence_packet`
unfoldable pub make_silence_packet : SilenceSettings → SilenceTrack → MediaPacket × SilenceTrack
make_silence_packet settings track = (
  record track.packet {
    codec = pcm;
    payload = settings.silence;
    marker = false;
    sequence = track.sequence;
    timestamp = track.timestamp;
    raw = [];
    extension_payload = [];
    rtp_extended = false;
    rtp_extensions = [];
    speaking_flags = some settings.no_flags;
    audio_level = some settings.silence_level;
    audio_voice_activity = some false;
  },
  record track {
    sequence = (track.sequence + 1) % 65536;
    timestamp = (track.timestamp + settings.timestamp_step) % 4294967296;
    next_due = track.next_due + settings.frame_duration;
    emitted_for = track.emitted_for + settings.frame_duration;
  },
)

-- `max_silence is not None and emitted_for >= max_silence`
abbrev pub is_spent : Option ℕ → ℕ → Bool
is_spent none emitted_for = false
is_spent (some most) emitted_for = leb most emitted_for

-- What `_collect_silence_packets` does to a track: its packet, if any, and the track, if it stays
unfoldable pub visit_track :
    SilenceSettings → ℕ → SilenceTrack → Option MediaPacket × Option SilenceTrack
unfolding make_silence_packet
visit_track settings now track =
    if is_spent settings.max_silence track.emitted_for
    then (none, none)
    else if ltb now track.next_due
    then (none, some track)
    else (some (make_silence_packet settings track).0, some (make_silence_packet settings track).1)

abbrev pub add_visit :
    ChildKey
    → Option MediaPacket × Option SilenceTrack
    → List MediaPacket × Dict ChildKey SilenceTrack
    → List MediaPacket × Dict ChildKey SilenceTrack
add_visit key (some packet, some track) (packets, tracks) =
    (packet ∷ packets, (key, track) ∷ tracks)
add_visit key (none, some track) (packets, tracks) = (packets, (key, track) ∷ tracks)
add_visit key (some packet, none) (packets, tracks) = (packet ∷ packets, tracks)
add_visit key (none, none) (packets, tracks) = (packets, tracks)

-- `_collect_silence_packets`
unfoldable pub collect_silence_packets :
    SilenceSettings → ℕ → Dict ChildKey SilenceTrack → List MediaPacket × Dict ChildKey SilenceTrack
unfolding visit_track
collect_silence_packets settings now [] = ([], [])
collect_silence_packets settings now ((key, track) ∷ tracks) =
    add_visit key (visit_track settings now track) (collect_silence_packets settings now tracks)

module _ {D S : Type 0} (settings : SilenceSettings) (child : SinkOps S) where
  -- `_remember_audio_packet`
  unfoldable pub remember_audio_packet : ℕ → MediaPacket → SilenceFillSink D S → SilenceFillSink D S
  remember_audio_packet now packet s =
      if not (same_media_type packet.media_type audio)
      then s
      else if not (child.wants_media audio pcm s.destination)
      then s
      else record s {
        tracks =
            put (track_key packet.user_id packet.ssrc) (new_track settings now packet) s.tracks;
      }

  -- One round of `_run`, for a sink that is open
  unfoldable pub run_round : ℕ → SilenceFillSink D S → SilenceFillSink D S
  unfolding collect_silence_packets write_packets
  run_round now s =
      let (packets, tracks) = collect_silence_packets settings now s.tracks in
      if s.closed || not (child.wants_media audio pcm s.destination)
      then s
      else record s { tracks = tracks; destination = write_packets child now packets s.destination }

  abbrev pub write_decoded :
      ℕ → MediaPacket → SilenceFillSink D S → Bytes × DecoderCache D → SilenceFillSink D S
  write_decoded now packet s (payload, cache) = record s {
    decoders = cache;
    destination = child.write now (as_pcm payload packet) s.destination;
  }

  unfoldable pub write_remembered :
      ℕ → MediaPacket → SilenceFillSink D S → Bytes × DecoderCache D → SilenceFillSink D S
  unfolding remember_audio_packet
  write_remembered now packet s got =
      remember_audio_packet now packet (write_decoded now packet s got)

  -- `SilenceFillSink.write`
  unfoldable pub silence_write :
      OpusDecoder D
      → ℕ
      → MediaPacket
      → SilenceFillSink D S
      → Result DecodeError (SilenceFillSink D S)
  unfolding decode remember_audio_packet write_remembered
  silence_write codec now packet s =
      if s.closed
      then ok s
      else if child.wants_media packet.media_type packet.codec s.destination
      then ok (
          remember_audio_packet now packet
            (record s { destination = child.write now packet s.destination }))
      else if is_opus_audio packet && child.wants_media audio pcm s.destination
      then map_ok (write_remembered now packet s) (decode codec packet s.decoders)
      else ok (remember_audio_packet now packet s)

  -- `SilenceFillSink.cleanup`, once its thread has ended
  unfoldable pub silence_cleanup : SilenceFillSink D S → SilenceFillSink D S
  silence_cleanup s = if s.closed then s else record s {
    tracks = [];
    decoders = [];
    closed = true;
    destination = child.cleanup s.destination;
  }
