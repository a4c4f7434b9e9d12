-- ===== src/Sources/Simulcast.antt =====
-- `SimulcastVideoSource` of discord/ext/native_voice/media.py: a source of video for each RID.
use discord_native_voice.Prelude.{
  Bool, true, false, not, ◌||◌, ◌&&◌, String, Option, none, some, List, [], ◌∷◌, length, ltb,
  is_empty, if◌then◌else◌,
}
use discord_native_voice.Prelude.Dict.{Dict, get, put}
use discord_native_voice.Prelude.Result.{Result, ok, err, ◌>>=◌, map_ok}
use discord_native_voice.Counter.{String-eq}
use discord_native_voice.Rtp.{Codec}
use discord_native_voice.Sinks.{same_codec}
use discord_native_voice.Sources.{SourceOps, VideoFrame}

-- The errors of the constructor and of a RID that is asked for in vain
pub data SimulcastError : Type 0 where
  no_sources : SimulcastError
  no_video codec_differs unknown_rid : String → SimulcastError

pub record SimulcastVideoSource (S : Type 0) : Type 0 where
  pub sources : Dict String S
  pub closed : Bool

module _ {S : Type 0} (ops : SourceOps S) (codec_of : S → Option Codec) where
  -- The first loop of `__init__`, on the sources so far
  unfoldable pub normalize :
      List (String × S) → Dict String S → Result SimulcastError (Dict String S)
  normalize [] sources = ok sources
  normalize ((rid, source) ∷ rest) sources =
      let more = normalize rest (put rid source sources) in
      if not (ops.has_video source) then err (no_video rid) else more

  -- The second: the codecs that are known agree
  unfoldable pub check_codecs : Dict String S → Option Codec → Result SimulcastError (Option Codec)
  check_codecs [] codec = ok codec
  check_codecs ((rid, source) ∷ rest) codec = elim (codec_of source) [
    | none ↦ check_codecs rest codec
    | some found ↦ elim codec [
      | none ↦ check_codecs rest (some found)
      | some expected ↦
          let more = check_codecs rest (some expected) in
          if not (same_codec found expected) then err (codec_differs rid) else more
    ]
  ]

  abbrev pub opened : Dict String S → SimulcastVideoSource S
  opened sources = record { sources = sources; closed = false }

  -- `SimulcastVideoSource.__init__`
  unfoldable pub new_simulcast : List (String × S) → Result SimulcastError (SimulcastVideoSource S)
  unfolding normalize check_codecs
  new_simulcast sources =
      if is_empty sources
      then err no_sources
      else normalize sources [] >>= λ normalized.
          map_ok (λ codec. opened normalized) (check_codecs normalized none)

module _ {S : Type 0} (ops : SourceOps S) where
  unfoldable pub some_video : Dict String S → Bool
  some_video [] = false
  some_video ((rid, source) ∷ sources) =
      (ops.has_video source && not (ops.is_finished source)) || some_video sources

  unfoldable pub all_finished : Dict String S → Bool
  all_finished [] = true
  all_finished ((rid, source) ∷ sources) = ops.is_finished source && all_finished sources

  -- `has_video`, `supports_simulcast`, `is_finished`
  unfoldable pub simulcast_has_video : SimulcastVideoSource S → Bool
  unfolding some_video
  simulcast_has_video s = not s.closed && some_video s.sources

  unfoldable pub supports_simulcast : SimulcastVideoSource S → Bool
  supports_simulcast s = not s.closed && ltb 1 (length s.sources)

  unfoldable pub simulcast_is_finished : SimulcastVideoSource S → Bool
  unfolding all_finished
  simulcast_is_finished s = s.closed || all_finished s.sources

  abbrev pub Read : Type 0
  Read = Dict String VideoFrame × Dict String S

  abbrev pub store_frame :
      String → Dict String VideoFrame → Dict String S → Option VideoFrame × S → Read
  store_frame rid frames sources (none, source) = (frames, put rid source sources)
  store_frame rid frames sources (some frame, source) =
      (put rid frame frames, put rid source sources)

  abbrev pub read_one :
      String → Option S → Dict String VideoFrame → Dict String S → Result SimulcastError Read
  read_one rid none frames sources = err (unknown_rid rid)
  read_one rid (some source) frames sources =
      if ops.is_finished source
      then ok (frames, sources)
      else ok (store_frame rid frames sources (ops.read_video source))

  -- The loop of `read_video_streams`, over the RIDs of the streams
  unfoldable pub read_rids :
      List String → Dict String VideoFrame → Dict String S → Result SimulcastError Read
  read_rids [] frames sources = ok (frames, sources)
  read_rids (rid ∷ rids) frames sources =
      read_one rid (get rid sources) frames sources >>= λ got. read_rids rids got.0 got.1

  abbrev pub frames_or_end :
      SimulcastVideoSource S → Read → Option (Dict String VideoFrame) × SimulcastVideoSource S
  frames_or_end s (frames, sources) =
      let next = record s { sources = sources } in
      (if is_empty frames && simulcast_is_finished next then none else some frames, next)

  -- `SimulcastVideoSource.read_video_streams`, by the RIDs of the streams
  unfoldable pub simulcast_read_video_streams :
      List String
      → SimulcastVideoSource S
      → Result SimulcastError (Option (Dict String VideoFrame) × SimulcastVideoSource S)
  unfolding read_rids simulcast_is_finished
  simulcast_read_video_streams rids s =
      if s.closed
      then ok (none, s)
      else if is_empty rids
      then ok (some [], s)
      else map_ok (frames_or_end s) (read_rids rids [] s.sources)
