-- ===== src/Send.antt =====
-- The choice of video streams to send and the cache of keyframes, of
-- discord/ext/native_voice/client.py. A `VoiceStream` is discord.py's; these are the fields that the
-- choice reads.
pub mod Select
pub mod Keyframe
pub mod Cache
mod Tests
use discord_native_voice.Prelude.{
  ℕ, zero, suc, ◌+◌, ◌*◌, ◌/◌, ◌%◌, Bool, true, false, not, ◌||◌, ◌&&◌, String, Option, none, some,
  List, [], ◌∷◌, ◌++◌, length, drop, elem, is_empty, ltb, leb, nat_eq, max, ℕ-eq, ◌==◌,
  if◌then◌else◌,
}
use discord_native_voice.Prelude.Int.{ℤ, pos, ltb_ℤ}
use discord_native_voice.Prelude.Dict.{Dict, get, put, erase}
use discord_native_voice.Prelude.Bytes.{Bytes}
use discord_native_voice.Rtp.{Codec, h264, h265, RtcpReceiverReport}
use discord_native_voice.Counter.{String-eq}
use discord_native_voice.Reports.{Reports, prune_rtcp_receiver_reports}

pub record VoiceStream : Type 0 where
  pub ssrc : Option ℕ
  pub rid : String
  pub quality : ℕ
  pub active : Bool

-- What the remote side wants of each SSRC.
pub record SinkWants : Type 0 where
  pub received : Bool
  pub wants : Dict ℕ ℤ
  pub any : Option ℤ

unfoldable pub some_report : ℕ → Dict (ℕ × ℕ) RtcpReceiverReport → Bool
some_report ssrc [] = false
some_report ssrc ((key, report) ∷ reports) =
    nat_eq report.source_ssrc ssrc || some_report ssrc reports

-- `any is not None and any > 0`, `want > 0`
abbrev pub is_wanted : Option ℤ → Bool
is_wanted none = false
is_wanted (some want) = ltb_ℤ (pos 0) want

abbrev pub want_or_any : Option ℤ → Option ℤ → Bool
want_or_any none any = is_wanted any
want_or_any (some want) any = is_wanted (some want)

-- `_video_stream_has_remote_receivers`, by the SSRC of the stream
unfoldable pub has_remote_receivers : ℕ → SinkWants → Option ℕ → Reports → Bool × Reports
unfolding prune_rtcp_receiver_reports some_report
has_remote_receivers now w none r = (false, r)
has_remote_receivers now w (some ssrc) r =
    let pruned = prune_rtcp_receiver_reports now r in
    (
      some_report ssrc pruned.receiver_reports
          || (w.received && want_or_any (get ssrc w.wants) w.any),
      pruned,
    )

unfoldable pub video_stream_should_send : ℕ → SinkWants → VoiceStream → Reports → Bool × Reports
unfolding has_remote_receivers
video_stream_should_send now w stream r =
    if not stream.active
    then (false, r)
    else if leb 100 stream.quality
    then (true, r)
    else has_remote_receivers now w stream.ssrc r

unfoldable pub sending : ℕ → SinkWants → List VoiceStream → Reports → List VoiceStream × Reports
unfolding video_stream_should_send
sending now w [] r = ([], r)
sending now w (stream ∷ streams) r =
    let (chosen, r1) = video_stream_should_send now w stream r in
    let (rest, r2) = sending now w streams r1 in (if chosen then stream ∷ rest else rest, r2)

-- `max(streams, key=lambda stream: stream.quality)`: the first of the highest
unfoldable pub highest : VoiceStream → List VoiceStream → VoiceStream
highest best [] = best
highest best (stream ∷ streams) =
    if ltb best.quality stream.quality then highest stream streams else highest best streams

-- `_select_active_video_streams`; there is at least one stream, or `max` raises
unfoldable pub select_active_video_streams :
    Bool → ℕ → SinkWants → VoiceStream → List VoiceStream → Reports → List VoiceStream × Reports
unfolding sending highest
select_active_video_streams simulcast now w stream streams r =
    let (chosen, r1) = sending now w (stream ∷ streams) r in
    if not simulcast
    then (highest stream streams ∷ [], r)
    else (if is_empty chosen then highest stream streams ∷ [] else chosen, r1)

abbrev pub same_option : Option ℕ → Option ℕ → Bool
same_option none none = true
same_option (some a) (some b) = nat_eq a b
same_option _ _ = false

-- `_resolve_video_send_stream`: the first active stream, or the active one with the SSRC or the RID
-- of the stream that is given; nothing where the source raises
unfoldable pub resolve_video_send_stream :
    Option VoiceStream → List VoiceStream → Option VoiceStream
resolve_video_send_stream none [] = none
resolve_video_send_stream none (active ∷ rest) = some active
resolve_video_send_stream (some stream) [] = none
resolve_video_send_stream (some stream) (active ∷ rest) =
    let later = resolve_video_send_stream (some stream) rest in
    if same_option active.ssrc stream.ssrc || active.rid == stream.rid then some active else later

-- `data.find(pattern)`
unfoldable pub starts_with : Bytes → Bytes → Bool
starts_with [] bytes = true
starts_with (p ∷ pattern) [] = false
starts_with (p ∷ pattern) (b ∷ bytes) = nat_eq p b && starts_with pattern bytes

abbrev pub shift : Option ℕ → Option ℕ
shift none = none
shift (some n) = some (n + 1)

unfoldable pub find : Bytes → Bytes → Option ℕ
unfolding starts_with
find needle [] = if starts_with needle [] then some 0 else none
find needle (b ∷ bytes) =
    let later = shift (find needle bytes) in
    if starts_with needle (b ∷ bytes) then some 0 else later

-- The position after the next start code, of three or four bytes
unfoldable pub after_start : Option ℕ → Option ℕ → Option ℕ
after_start none none = none
after_start (some start3) none = some (start3 + 3)
after_start none (some start4) = some (start4 + 4)
after_start (some start3) (some start4) =
    if leb start4 start3 then some (start4 + 4) else some (start3 + 3)

-- The loop of `_is_config_keyframe`, on the bytes from `index` on; it counts at most 16 units.
unfoldable pub nal_types : Codec → ℕ → Bytes → List ℕ
unfolding find after_start
nal_types codec zero frame = []
nal_types codec (suc rounds) frame =
    if ltb (length frame) 3
    then []
    else elim (after_start (find (0 ∷ 0 ∷ 1 ∷ []) frame) (find (0 ∷ 0 ∷ 0 ∷ 1 ∷ []) frame)) [
      | none ↦ []
      | some start ↦ elim codec [
        | h264 ↦ elim (drop start frame) [
          | [] ↦ []
          | b ∷ rest ↦
              let nal_type = b % 32 in
              let more = nal_types codec rounds rest in
              nal_type ∷ (if leb 1 nal_type && leb nal_type 5 then [] else more)
        ]
        | _ ↦ elim (drop start frame) [
          | [] ↦ []
          | b ∷ [] ↦ []
          | b ∷ c ∷ rest ↦
              let nal_type = b / 2 % 64 in
              let more = nal_types codec rounds rest in
              nal_type ∷ (if leb nal_type 31 then [] else more)
        ]
      ]
    ]

unfoldable pub has_all : List ℕ → List ℕ → Bool
has_all [] types = true
has_all (n ∷ needed) types = elem n types && has_all needed types

unfoldable pub has_some : List ℕ → List ℕ → Bool
has_some [] types = false
has_some (n ∷ wanted) types = elem n types || has_some wanted types

unfoldable pub is_config_keyframe : Codec → Bytes → Bool
unfolding nal_types has_all has_some
is_config_keyframe h264 frame =
    let types = nal_types h264 16 frame in has_all (7 ∷ 8 ∷ []) types && has_some (5 ∷ []) types
is_config_keyframe h265 frame =
    let types = nal_types h265 16 frame in
    has_all (32 ∷ 33 ∷ 34 ∷ []) types && has_some (16 ∷ 17 ∷ 18 ∷ 19 ∷ 20 ∷ 21 ∷ []) types
is_config_keyframe _ frame = false

-- A cached frame: its bytes, its duration in microseconds, its stream
abbrev pub CachedFrame : Type 0
CachedFrame = Bytes × ℕ × VoiceStream

pub record KeyframeCache : Type 0 where
  pub codec : Option Codec
  pub replay_active : Bool
  pub max_frames : ℕ
  pub keyframes : Dict ℕ (List CachedFrame)

-- `_cache_video_frame` of a frame that is no keyframe, by the frames of its SSRC
unfoldable pub append_cached :
    ℕ → CachedFrame → Option (List CachedFrame) → KeyframeCache → KeyframeCache
append_cached media_ssrc frame none c = c
append_cached media_ssrc frame (some frames) c =
    if leb (max 1 c.max_frames) (length frames)
    then record c { keyframes = erase media_ssrc c.keyframes }
    else record c { keyframes = put media_ssrc (frames ++ (frame ∷ [])) c.keyframes }

unfoldable pub cache_with : ℕ → CachedFrame → Option Codec → KeyframeCache → KeyframeCache
unfolding is_config_keyframe append_cached
cache_with media_ssrc frame none c = c
cache_with media_ssrc frame (some codec) c =
    if c.replay_active
    then c
    else if is_config_keyframe codec frame.0
    then record c { keyframes = put media_ssrc (frame ∷ []) c.keyframes }
    else append_cached media_ssrc frame (get media_ssrc c.keyframes) c

unfoldable pub cache_video_frame : ℕ → CachedFrame → KeyframeCache → KeyframeCache
unfolding cache_with
cache_video_frame media_ssrc frame c = cache_with media_ssrc frame c.codec c
