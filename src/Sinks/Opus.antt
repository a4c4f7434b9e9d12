-- ===== src/Sinks/Opus.antt =====
-- `_OpusDecoderCache` and `PCMDecodeSink` of discord/ext/native_voice/media.py. The Opus decoder of
-- discord.py is a parameter.
pub mod Recovery
use discord_native_voice.Prelude.{
  ℕ, ◌+◌, ◌-◌, ◌*◌, ◌%◌, ◌<◌, ◌≡◌, refl, sym, ap, ◌∙◌, Bool, true, false, not, ◌||◌, ◌&&◌, inl, inr,
  Option, none, some, List, [], ◌∷◌, ◌++◌, nat_eq, max, ℕ-eq, arith, Bool-cases, if◌then◌else◌,
}
use discord_native_voice.Prelude.Dict.{Dict, get, put}
use discord_native_voice.Prelude.Bytes.{Bytes}
use discord_native_voice.Prelude.Result.{Result, ok, err, ◌>>=◌, map_ok}
use discord_native_voice.Rtp.{MediaType, audio, video, Codec, opus, pcm}
use discord_native_voice.Rtp.Sequence.{sequence_delta, rtp_timestamp_delta}
use discord_native_voice.Media.{MediaPacket}
use discord_native_voice.Sinks.{SinkOps, same_codec, same_media_type}

-- `OpusDecoder`: a new decoder, `decode`, which gives nothing where it raises, and the samples of a
-- packet, `packet_get_nb_frames` times `packet_get_samples_per_frame`, nothing where one of them raises
pub record OpusDecoder (D : Type 0) : Type 0 where
  pub fresh : D
  pub decode : Bytes → Bool → D → Option Bytes × D
  pub samples : Bytes → Option ℕ

-- `TypeError`, and an error of the decoder
pub data DecodeError : Type 0 where
  not_opus decode_failed : DecodeError

pub record OpusDecodeState (D : Type 0) : Type 0 where
  pub decoder : D
  pub sequence : Option ℕ
  pub timestamp : Option ℕ

abbrev pub DecoderCache : Type 0 → Type 0
DecoderCache D = Dict ℕ (OpusDecodeState D)

-- `packet.media_type == 'audio' and packet.codec == 'opus'`
abbrev pub is_opus_audio : MediaPacket → Bool
is_opus_audio packet = same_media_type packet.media_type audio && same_codec packet.codec opus

abbrev pub as_pcm : Bytes → MediaPacket → MediaPacket
as_pcm payload packet = record packet { codec = pcm; payload = payload }

-- The packet that was lost before this one
abbrev pub lost_before : ℕ → Bytes → MediaPacket → MediaPacket
lost_before samples payload packet = record packet {
  codec = pcm;
  payload = payload;
  sequence = (packet.sequence + 65535) % 65536;
  timestamp = (packet.timestamp + (4294967296 - samples % 4294967296)) % 4294967296;
  raw = [];
  extension_payload = [];
  rtp_extended = false;
  rtp_extensions = [];
  rtp_packets = [];
  speaking_flags = none;
  audio_level = none;
  audio_voice_activity = none;
}

-- `sequence_delta == 2 and timestamp_delta == samples * 2`, where both are known
abbrev pub is_delta : Option ℕ → ℕ → Bool
is_delta none n = false
is_delta (some delta) n = nat_eq delta n

abbrev pub one_lost : ℕ → MediaPacket → Option ℕ → Option ℕ → Bool
one_lost samples packet (some sequence) (some timestamp) =
    nat_eq (sequence_delta packet.sequence sequence) 2
    && is_delta (rtp_timestamp_delta packet.timestamp timestamp) (samples * 2)
one_lost samples packet _ _ = false

module _ {D : Type 0} (codec : OpusDecoder D) where
  abbrev pub state_or : Option (OpusDecodeState D) → OpusDecodeState D
  state_or (some state) = state
  state_or none = record { decoder = codec.fresh; sequence = none; timestamp = none }

  -- `_state_for`, without the insertion: the callers put the state back
  abbrev pub state_for : MediaPacket → DecoderCache D → OpusDecodeState D
  state_for packet cache = state_or (get packet.ssrc cache)

  -- `_packet_samples`
  abbrev pub packet_samples : MediaPacket → Result DecodeError ℕ
  packet_samples packet = elim (codec.samples packet.payload) [
    | none ↦ err decode_failed
    | some samples ↦ ok (max 1 samples)
  ]

  -- A decoded payload, with the state that remembers the packet
  abbrev pub remember :
      MediaPacket → DecoderCache D → Option Bytes × D → Result DecodeError (Bytes × DecoderCache D)
  remember packet cache (none, decoder) = err decode_failed
  remember packet cache (some payload, decoder) = ok (
    payload,
    put packet.ssrc
        (record {
          decoder = decoder;
          sequence = some packet.sequence;
          timestamp = some packet.timestamp;
        })
        cache,
  )

  -- `decode`
  unfoldable pub decode : MediaPacket → DecoderCache D → Result DecodeError (Bytes × DecoderCache D)
  decode packet cache =
      if same_codec packet.codec pcm
      then ok (packet.payload, cache)
      else if not (is_opus_audio packet)
      then err not_opus
      else remember packet cache
          (codec.decode packet.payload false (state_for packet cache).decoder)

  -- The attempt to recover the packet that was lost; an error is ignored
  abbrev pub recover_with : ℕ → MediaPacket → Option Bytes × D → List MediaPacket × D
  recover_with samples packet (none, decoder) = ([], decoder)
  recover_with samples packet (some payload, decoder) =
      (lost_before samples payload packet ∷ [], decoder)

  abbrev pub recover : Bool → MediaPacket → OpusDecodeState D → ℕ → List MediaPacket × D
  recover fec packet state samples =
      if fec && one_lost samples packet state.sequence state.timestamp
      then recover_with samples packet (codec.decode packet.payload true state.decoder)
      else ([], state.decoder)

  abbrev pub decode_after :
      MediaPacket
      → DecoderCache D
      → List MediaPacket × D
      → Result DecodeError (List MediaPacket × DecoderCache D)
  decode_after packet cache (recovered, decoder) =
      remember packet cache (codec.decode packet.payload false decoder) >>= λ got.
      ok (recovered ++ (as_pcm got.0 packet ∷ []), got.1)

  -- `decode_packets`
  unfoldable pub decode_packets :
      MediaPacket → Bool → DecoderCache D → Result DecodeError (List MediaPacket × DecoderCache D)
  decode_packets packet fec cache =
      if same_codec packet.codec pcm
      then ok (packet ∷ [], cache)
      else if not (is_opus_audio packet)
      then err not_opus
      else packet_samples packet >>= λ samples.
          decode_after packet cache (recover fec packet (state_for packet cache) samples)

-- `PCMDecodeSink`; the destination is a sink of its own
pub record PcmDecodeSink (D S : Type 0) : Type 0 where
  pub closed : Bool
  pub fec : Bool
  pub decoders : DecoderCache D
  pub destination : S

module _ {S : Type 0} (child : SinkOps S) where
  unfoldable pub write_packets : ℕ → List MediaPacket → S → S
  write_packets now [] s = s
  write_packets now (packet ∷ packets) s = write_packets now packets (child.write now packet s)

module _ {D S : Type 0} where
  abbrev pub deliver_decoded :
      SinkOps S → ℕ → PcmDecodeSink D S → List MediaPacket × DecoderCache D → PcmDecodeSink D S
  deliver_decoded child now s (packets, cache) = record s {
    decoders = cache;
    destination = write_packets child now packets s.destination;
  }

  abbrev pub deliver_one :
      SinkOps S → ℕ → PcmDecodeSink D S → MediaPacket → Bytes × DecoderCache D → PcmDecodeSink D S
  deliver_one child now s packet (payload, cache) =
      deliver_decoded child now s (as_pcm payload packet ∷ [], cache)

  -- `PCMDecodeSink.write`
  unfoldable pub pcm_decode_write :
      OpusDecoder D
      → SinkOps S
      → ℕ
      → MediaPacket
      → PcmDecodeSink D S
      → Result DecodeError (PcmDecodeSink D S)
  unfolding decode decode_packets write_packets
  pcm_decode_write codec child now packet s =
      if s.closed
      then ok s
      else if not (is_opus_audio packet)
      then ok (record s { destination = child.write now packet s.destination })
      else if s.fec
      then map_ok (deliver_decoded child now s) (decode_packets codec packet true s.decoders)
      else map_ok (deliver_one child now s packet) (decode codec packet s.decoders)

  -- `PCMDecodeSink.cleanup`
  unfoldable pub pcm_decode_cleanup : SinkOps S → PcmDecodeSink D S → PcmDecodeSink D S
  pcm_decode_cleanup child s =
      if s.closed
      then record s { decoders = [] }
      else record s { decoders = []; closed = true; destination = child.cleanup s.destination }
