-- ===== src/Codecs/Capabilities.antt =====
-- `get_local_video_codec_capabilities` of discord/ext/native_voice/codecs.py, with the tables of
-- transcoding.py. What FFmpeg lists and what its probes answer are arguments; the caches are left out.
use discord_native_voice.Prelude.{
  ℕ, ◌+◌, ◌<◌, ◌≤◌, ◌≡◌, refl, Bool, true, false, ◌||◌, inl, inr, String, Option, none, some, List,
  [], ◌∷◌, select, ◌==◌, Option-cases, arith, if◌then◌else◌,
}
use discord_native_voice.Counter.{String-eq}
use discord_native_voice.Rtp.{Codec, opus, pcm, av1, h265, h264, vp8, vp9}

-- `VIDEO_CODEC_CAPABILITY_NAMES[codec]['encoders']`
unfoldable pub encoder_names : Codec → List String
encoder_names av1 =
    "av1_nvenc" ∷ "av1_amf" ∷ "av1_qsv" ∷ "av1_vaapi" ∷ "av1_mf" ∷ "libaom-av1" ∷ "libsvtav1"
    ∷ "librav1e" ∷ []
encoder_names h265 =
    "hevc_nvenc" ∷ "hevc_amf" ∷ "hevc_qsv" ∷ "hevc_vaapi" ∷ "hevc_videotoolbox" ∷ "hevc_mf"
    ∷ "hevc_v4l2m2m" ∷ "libx265" ∷ []
encoder_names h264 =
    "h264_nvenc" ∷ "h264_amf" ∷ "h264_qsv" ∷ "h264_vaapi" ∷ "h264_videotoolbox" ∷ "h264_mf"
    ∷ "h264_v4l2m2m" ∷ "libx264" ∷ "libopenh264" ∷ []
encoder_names vp8 = "vp8_vaapi" ∷ "vp8_v4l2m2m" ∷ "libvpx" ∷ []
encoder_names vp9 = "vp9_qsv" ∷ "vp9_vaapi" ∷ "vp9_v4l2m2m" ∷ "libvpx-vp9" ∷ []
encoder_names _ = []

-- `VIDEO_CODEC_CAPABILITY_NAMES[codec]['decoders']`
unfoldable pub decoder_names : Codec → List String
decoder_names av1 = "av1" ∷ "av1_cuvid" ∷ "av1_qsv" ∷ "libaom-av1" ∷ "libdav1d" ∷ []
decoder_names h265 = "hevc" ∷ "hevc_cuvid" ∷ "hevc_qsv" ∷ "hevc_v4l2m2m" ∷ []
decoder_names h264 = "h264" ∷ "h264_cuvid" ∷ "h264_qsv" ∷ "h264_v4l2m2m" ∷ []
decoder_names vp8 = "vp8" ∷ "libvpx" ∷ "vp8_cuvid" ∷ "vp8_qsv" ∷ "vp8_v4l2m2m" ∷ []
decoder_names vp9 = "vp9" ∷ "libvpx-vp9" ∷ "vp9_cuvid" ∷ "vp9_qsv" ∷ "vp9_v4l2m2m" ∷ []
decoder_names _ = []

-- `VIDEO_CODEC_SOFTWARE_PERFORMANCE`
unfoldable pub software_performance : Codec → ℕ
software_performance av1 = 250
software_performance h265 = 350
software_performance h264 = 500
software_performance vp8 = 400
software_performance vp9 = 300
software_performance _ = 0

unfoldable pub hardware_encoders : List String
hardware_encoders =
    "h264_amf" ∷ "h264_mf" ∷ "h264_nvenc" ∷ "h264_qsv" ∷ "h264_v4l2m2m" ∷ "h264_vaapi"
    ∷ "h264_videotoolbox" ∷ "hevc_amf" ∷ "hevc_mf" ∷ "hevc_nvenc" ∷ "hevc_qsv" ∷ "hevc_v4l2m2m"
    ∷ "hevc_vaapi" ∷ "hevc_videotoolbox" ∷ "vp8_v4l2m2m" ∷ "vp8_vaapi" ∷ "vp9_qsv" ∷ "vp9_v4l2m2m"
    ∷ "vp9_vaapi" ∷ "av1_amf" ∷ "av1_mf" ∷ "av1_nvenc" ∷ "av1_qsv" ∷ "av1_vaapi" ∷ []

unfoldable pub hardware_decoders : List String
hardware_decoders =
    "h264_cuvid" ∷ "h264_qsv" ∷ "h264_v4l2m2m" ∷ "hevc_cuvid" ∷ "hevc_qsv" ∷ "hevc_v4l2m2m"
    ∷ "vp8_cuvid" ∷ "vp8_qsv" ∷ "vp8_v4l2m2m" ∷ "vp9_cuvid" ∷ "vp9_qsv" ∷ "vp9_v4l2m2m"
    ∷ "av1_cuvid" ∷ "av1_qsv" ∷ []

-- `name in names`
unfoldable pub listed : List String → String → Bool
listed [] name = false
listed (n ∷ names) name = n == name || listed names name

-- `next((name for name in names if test(name)), None)`
unfoldable pub first_where : (String → Bool) → List String → Option String
first_where test [] = none
first_where test (name ∷ names) =
    let later = first_where test names in if test name then some name else later

abbrev pub first : List String → Option String
first [] = none
first (name ∷ _) = some name

-- `hardware or (names[0] if names else None)`
abbrev pub chosen : Option String → List String → Option String
chosen (some hardware) names = some hardware
chosen none names = first names

abbrev pub is_found : Option String → Bool
is_found none = false
is_found (some _) = true

pub record VideoCodecCapability : Type 0 where
  pub encode : Bool
  pub decode : Bool
  pub encoder : Option String
  pub decoder : Option String
  pub encoders : List String
  pub decoders : List String
  pub hardware_encode : Bool
  pub hardware_decode : Bool
  pub score : ℕ

-- `score += points` where there is a codec, more of them for hardware
abbrev pub points : Bool → Bool → ℕ → ℕ → ℕ → ℕ
points able hardware base best good =
    (if able then base else 0) + (if hardware then best else if able then good else 0)

abbrev pub capability_of :
    Codec → List String → List String → Option String → Option String → VideoCodecCapability
capability_of codec encoders decoders hardware_encoder hardware_decoder = record {
  encode = is_found (chosen hardware_encoder encoders);
  decode = is_found (chosen hardware_decoder decoders);
  encoder = chosen hardware_encoder encoders;
  decoder = chosen hardware_decoder decoders;
  encoders = encoders;
  decoders = decoders;
  hardware_encode = is_found hardware_encoder;
  hardware_decode = is_found hardware_decoder;
  score =
      software_performance codec
      + (points (is_found (chosen hardware_encoder encoders)) (is_found hardware_encoder) 100_000
            10_000 1_000
          + points (is_found (chosen hardware_decoder decoders)) (is_found hardware_decoder) 20_000
              5_000 500);
}

-- The body of the loop over the codecs: the lists of FFmpeg and the probe of an encoder
unfoldable pub video_codec_capability :
    List String → List String → (Codec → String → Bool) → Codec → VideoCodecCapability
unfolding listed first_where select encoder_names decoder_names
video_codec_capability encoders decoders is_usable codec =
    let available_encoders = select (listed encoders) (encoder_names codec) in
    let usable_encoders = select (is_usable codec) available_encoders in
    let available_decoders = select (listed decoders) (decoder_names codec) in
    capability_of codec usable_encoders available_decoders
      (first_where (listed hardware_encoders) usable_encoders)
      (first_where (listed hardware_decoders) available_decoders)

software_performance_le : (codec : Codec) → software_performance codec ≤ 500
unfolding software_performance
software_performance_le av1 = omega arith
software_performance_le h265 = omega arith
software_performance_le h264 = omega arith
software_performance_le vp8 = omega arith
software_performance_le vp9 = omega arith
software_performance_le opus = omega arith
software_performance_le pcm = omega arith

points_le :
    (able hardware : Bool) (base best good : ℕ)
    → good ≤ best
    → points able hardware base best good ≤ base + best
points_le able hardware base best good h = ground arith

points_able : (hardware : Bool) (base best good : ℕ) → base ≤ points true hardware base best good
points_able hardware base best good = ground arith

-- Hardware is looked for among the encoders, so there is none without an encoder.
first_where_none :
    (test : String → Bool) (names : List String)
    → is_found (chosen (first_where test names) names) ≡ false
    → is_found (first_where test names) ≡ false
first_where_none test names h = elim (Option-cases (first_where test names)) [
  | inl e ↦ rw e refl
  | inr (name, e) ↦
      absurd (let found : is_found (chosen (first_where test names) names) ≡ true = rw e refl in cc)
]

-- A codec that FFmpeg can encode here outranks every codec that it can only decode, or not even
-- that, whatever hardware decodes.
pub video_codec_capability-lt :
    (encoders decoders : List String) (is_usable : Codec → String → Bool) (able unable : Codec)
    → (video_codec_capability encoders decoders is_usable able).encode ≡ true
    → (video_codec_capability encoders decoders is_usable unable).encode ≡ false
    → (video_codec_capability encoders decoders is_usable unable).score
      < (video_codec_capability encoders decoders is_usable able).score
unfolding video_codec_capability
video_codec_capability-lt encoders decoders is_usable able unable h1 h2 =
    let usable = λ (codec : Codec).
      select (is_usable codec) (select (listed encoders) (encoder_names codec)) in
    let hardware = λ (codec : Codec). first_where (listed hardware_encoders) (usable codec) in
    let no_hardware = first_where_none (listed hardware_encoders) (usable unable) h2 in
    rw (h1, h2, no_hardware)
      (omega (
        arith,
        software_performance_le unable,
        points_able (is_found (hardware able)) 100_000 10_000 1_000,
        points_le
            (is_found (
              chosen
                (first_where (listed hardware_decoders)
                  (select (listed decoders) (decoder_names unable)))
                (select (listed decoders) (decoder_names unable))))
            (is_found (
              first_where (listed hardware_decoders)
                (select (listed decoders) (decoder_names unable))))
            20_000 5_000 500 (omega arith),
      ))
