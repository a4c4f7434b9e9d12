-- ===== src/Sources/Probe.antt =====
-- What a source takes from a probe of its input: `_resolve_video_probe_config` of
-- discord/ext/native_voice/media.py and `_native_video_bitrate` of transcoding.py. A codec has been
-- coerced before; a size or a rate below zero is not modelled.
use discord_native_voice.Prelude.{ℕ, ◌||◌, Option, none, some, leb, nat_eq, if◌then◌else◌}
use discord_native_voice.Prelude.Result.{Result, ok, err, ◌>>=◌}
use discord_native_voice.Rtp.{Codec}

pub record VideoProbeInfo : Type 0 where
  pub width : Option ℕ
  pub height : Option ℕ
  pub fps : Option ℕ
  pub bitrate : Option ℕ
  pub codec : Option Codec

pub record VideoConfig : Type 0 where
  pub codec : Codec
  pub width : ℕ
  pub height : ℕ
  pub fps : ℕ
  pub bitrate : ℕ

-- The two messages of `discord.ClientException`
pub data ProbeError : Type 0 where
  no_codec no_dimensions : ProbeError

unfoldable pub native_video_bitrate : ℕ → ℕ → ℕ
native_video_bitrate height fps = if leb 721 height || leb 31 fps then 8_000_000 else 4_000_000

-- `given if given is not None else probed`
abbrev pub given_or {ℓ} : {A : Type ℓ} → Option A → Option A → Option A
given_or (some given) probed = some given
given_or none probed = probed

-- `given if given is not None else probed or default`
abbrev pub given_or_default : Option ℕ → Option ℕ → ℕ → ℕ
given_or_default (some given) probed default = given
given_or_default none none default = default
given_or_default none (some probed) default = if nat_eq probed 0 then default else probed

abbrev pub require_codec : Option Codec → Result ProbeError Codec
require_codec (some codec) = ok codec
require_codec none = err no_codec

abbrev pub require_size : Option ℕ → Option ℕ → Result ProbeError (ℕ × ℕ)
require_size (some width) (some height) =
    if nat_eq width 0 || nat_eq height 0 then err no_dimensions else ok (width, height)
require_size _ _ = err no_dimensions

abbrev pub config_of :
    VideoProbeInfo → Codec → Option ℕ → Option ℕ → ℕ × ℕ → Result ProbeError VideoConfig
config_of video_probe codec fps bitrate (width, height) =
    let video_fps = given_or_default fps video_probe.fps 30 in
    ok (record {
      codec = codec;
      width = width;
      height = height;
      fps = video_fps;
      bitrate =
          given_or_default bitrate video_probe.bitrate (native_video_bitrate height video_fps);
    })

unfoldable pub resolve_video_probe_config :
    VideoProbeInfo
    → Option Codec
    → Option ℕ
    → Option ℕ
    → Option ℕ
    → Option ℕ
    → Result ProbeError VideoConfig
unfolding native_video_bitrate
resolve_video_probe_config video_probe codec width height fps bitrate =
    require_codec (given_or codec video_probe.codec) >>= λ video_codec.
    require_size (given_or width video_probe.width) (given_or height video_probe.height)
    >>= config_of video_probe video_codec fps bitrate
