-- ===== src/Codecs/Tests.antt =====
-- The codec tables (discord/ext/native_voice/client.py) of an audio and a video codec, and what
-- an FFmpeg with two software encoders and a hardware decoder is worth (codecs.py).
use discord_native_voice.Prelude.{
  ◌≡◌, ◌<◌, refl, none, some, List, [], ◌∷◌, ℕ-eq, Bool, true, false, String, select, ◌==◌,
}
use discord_native_voice.Prelude.Dict.{get, put}
use discord_native_voice.Rtp.{Codec, audio, video, opus, h264, vp8}
use discord_native_voice.Counter.{String-eq}
use discord_native_voice.Codecs.{CodecSpec, get_codec_lookups}
use discord_native_voice.Codecs.Capabilities.{
  encoder_names, decoder_names, listed, first_where, software_performance, hardware_encoders,
  hardware_decoders, video_codec_capability, video_codec_capability-lt,
}
use discord_native_voice.Codecs.Tables.{
  last_says, says_payload_type, says_rtx, get-get_codec_lookups,
}

abbrev two_codecs : List CodecSpec
two_codecs =
    record { kind = audio; name = opus; payload_type = 120; rtx_payload_type = none }
    ∷ record { kind = video; name = h264; payload_type = 101; rtx_payload_type = some 102 }
    ∷ []

found : get 102 (get_codec_lookups two_codecs).rtx_payload_types ≡ some (video, h264, 101)
unfolding get_codec_lookups get put
found = refl

get-get_codec_lookups_example :
    (get 102 (get_codec_lookups two_codecs).payload_types
      ≡ last_says (says_payload_type 102) two_codecs)
    × (get 102 (get_codec_lookups two_codecs).rtx_payload_types
        ≡ last_says (says_rtx 102) two_codecs)
get-get_codec_lookups_example = get-get_codec_lookups 102 two_codecs

abbrev some_encoders : List String
some_encoders = "libx264" ∷ "libvpx" ∷ []

abbrev some_decoders : List String
some_decoders = "h264" ∷ "vp8_cuvid" ∷ []

-- The probe of libvpx fails.
abbrev probe : Codec → String → Bool
probe _ name = name == "libx264"

able_encode : (video_codec_capability some_encoders some_decoders probe h264).encode ≡ true
unfolding video_codec_capability listed first_where select encoder_names decoder_names
    hardware_encoders
able_encode = refl

unable_encode : (video_codec_capability some_encoders some_decoders probe vp8).encode ≡ false
unfolding video_codec_capability listed first_where select encoder_names decoder_names
    hardware_encoders
unable_encode = refl

unable_score : (video_codec_capability some_encoders some_decoders probe vp8).score ≡ 25_400
unfolding video_codec_capability listed first_where select encoder_names decoder_names
    hardware_encoders hardware_decoders software_performance
unable_score = refl

video_codec_capability-lt_example :
    (video_codec_capability some_encoders some_decoders probe vp8).score
    < (video_codec_capability some_encoders some_decoders probe h264).score
video_codec_capability-lt_example =
    video_codec_capability-lt some_encoders some_decoders probe h264 vp8 able_encode unable_encode
