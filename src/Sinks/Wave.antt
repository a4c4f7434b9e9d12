-- ===== src/Sinks/Wave.antt =====
-- `WaveSink` and `MixedWaveSink` of discord/ext/native_voice/media.py. Python's `wave` writer is the
-- list of the bytes that it was given and whether it was closed; the addition of PCM is the native
-- extension's, and the bytes of a frame, `CHANNELS * SAMPLE_WIDTH`, are discord.py's.
pub mod Mix
mod Tests
use discord_native_voice.Prelude.{
  ℕ, zero, suc, ◌+◌, ◌-◌, ◌*◌, ◌<◌, Bool, true, false, not, ◌||◌, ◌&&◌, Option, none, some, List,
  [], ◌∷◌, ◌++◌, length, take, drop, elem, is_empty, if◌then◌else◌,
}
use discord_native_voice.Prelude.Bytes.{Bytes}
use discord_native_voice.Prelude.Result.{Result, ok, err, ◌>>=◌, map_ok}
use discord_native_voice.Rtp.{MediaType, audio, video, Codec, opus, pcm}
use discord_native_voice.Rtp.Sequence.{rtp_timestamp_delta}
use discord_native_voice.Media.{MediaPacket}
use discord_native_voice.Sinks.{same_codec, same_media_type}
use discord_native_voice.Sinks.Opus.{OpusDecoder, DecodeError, DecoderCache, decode}
use discord_native_voice.Sources.{zeros, AudioError}

pub record WaveSink (D : Type 0) : Type 0 where
  pub closed : Bool
  pub file : Bytes
  pub file_closed : Bool
  pub decoder : DecoderCache D

-- `wants_media`, of both sinks
abbrev pub wave_wants : Bool → MediaType → Codec → Bool
wave_wants closed media_type codec =
    not closed
    && (same_media_type media_type audio && (same_codec codec opus || same_codec codec pcm))

abbrev pub write_frames : {D : Type 0} → WaveSink D → Bytes × DecoderCache D → WaveSink D
write_frames s (payload, cache) = record s { file = s.file ++ payload; decoder = cache }

-- `WaveSink.write`; the sink after an error is not modelled
unfoldable pub wave_write :
    {D : Type 0} → OpusDecoder D → MediaPacket → WaveSink D → Result DecodeError (WaveSink D)
unfolding decode
wave_write codec packet s =
    if s.closed
    then ok s
    else if same_codec packet.codec pcm
    then ok (record s { file = s.file ++ packet.payload })
    else map_ok (write_frames s) (decode codec packet s.decoder)

-- `WaveSink.cleanup`
unfoldable pub wave_cleanup : {D : Type 0} → WaveSink D → WaveSink D
wave_cleanup s =
    if s.closed then s else record s { closed = true; file_closed = true; decoder = [] }

-- `MixedWaveSink`; `written` is what `cleanup` has written to the destination
pub record MixedWaveSink (D : Type 0) : Type 0 where
  pub closed : Bool
  pub users : Option (List ℕ)
  pub base_timestamp : Option ℕ
  pub mix : Bytes
  pub decoder : DecoderCache D
  pub written : Option Bytes

-- `self._users is not None and packet.user_id not in self._users`
abbrev pub is_left_out : Option ℕ → Option (List ℕ) → Bool
is_left_out user_id none = false
is_left_out none (some users) = true
is_left_out (some user_id) (some users) = not (elem user_id users)

-- `_timestamp_delta`
abbrev pub timestamp_delta_from : ℕ → Option ℕ → Option ℕ × ℕ
timestamp_delta_from timestamp none = (some 0, timestamp)
timestamp_delta_from timestamp (some base) = (rtp_timestamp_delta timestamp base, base)

-- What `write` raises: an error of the decoder, or of the addition
pub data MixError : Type 0 where
  not_decoded : DecodeError → MixError
  not_added : AudioError → MixError

-- The slice that is added to, and the assignment to it of what `pcm16_add` returned
abbrev pub assign : ℕ → ℕ → Bytes → Result AudioError Bytes → Result MixError Bytes
assign start end_place grown (err e) = err (not_added e)
assign start end_place grown (ok mixed) = ok (take start grown ++ (mixed ++ drop end_place grown))

-- The extension by zeros, the addition and the assignment
abbrev pub place :
    (Bytes → Bytes → Result AudioError Bytes) → ℕ → Bytes → Bytes → Result MixError Bytes
place pcm16_add start payload mix =
    let end_place = start + length payload in
    let grown = mix ++ zeros (end_place - length mix) in
    assign start end_place grown (pcm16_add (take (length payload) (drop start grown)) payload)

module _ {D : Type 0} (codec : OpusDecoder D) (pcm16_add : Bytes → Bytes → Result AudioError Bytes)
    (frame_bytes : ℕ) where
  abbrev pub with_mix : MixedWaveSink D → DecoderCache D → Bytes → MixedWaveSink D
  with_mix s cache mix = record s { decoder = cache; mix = mix }

  abbrev pub place_decoded :
      ℕ
      → MixedWaveSink D
      → Result DecodeError (Bytes × DecoderCache D)
      → Result MixError (MixedWaveSink D)
  place_decoded delta s (err e) = err (not_decoded e)
  place_decoded delta s (ok (payload, cache)) =
      if is_empty payload
      then ok (record s { decoder = cache })
      else map_ok (with_mix s cache) (place pcm16_add (delta * frame_bytes) payload s.mix)

  abbrev pub mix_at :
      MediaPacket → MixedWaveSink D → Option ℕ × ℕ → Result MixError (MixedWaveSink D)
  mix_at packet s (none, base) = ok (record s { base_timestamp = some base })
  mix_at packet s (some delta, base) =
      place_decoded delta (record s { base_timestamp = some base })
        (if same_codec packet.codec pcm
          then ok (packet.payload, s.decoder)
          else decode codec packet s.decoder)

  -- `MixedWaveSink.write`; the sink after an error is not modelled
  unfoldable pub mixed_write : MediaPacket → MixedWaveSink D → Result MixError (MixedWaveSink D)
  unfolding decode rtp_timestamp_delta elem
  mixed_write packet s =
      if s.closed
      then ok s
      else if is_left_out packet.user_id s.users
      then ok s
      else mix_at packet s (timestamp_delta_from packet.timestamp s.base_timestamp)

  unfoldable pub mixed_writes :
      List MediaPacket → MixedWaveSink D → Result MixError (MixedWaveSink D)
  unfolding mixed_write
  mixed_writes [] s = ok s
  mixed_writes (packet ∷ packets) s = mixed_write packet s >>= mixed_writes packets

-- `MixedWaveSink.cleanup`
unfoldable pub mixed_cleanup : {D : Type 0} → MixedWaveSink D → MixedWaveSink D
mixed_cleanup s =
    if s.closed then s else record s { closed = true; written = some s.mix; mix = []; decoder = [] }
