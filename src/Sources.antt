-- ===== src/Sources.antt =====
-- The sources of discord/ext/native_voice/media.py that are no processes: PCM streams, frames from an
-- iterator, wrappers, mixtures and simulcast. `FRAME_SIZE` of discord.py's Opus encoder is a
-- parameter, and so is the native function that mixes PCM.
pub mod Multi
pub mod Simulcast
pub mod Probe
pub mod Pcm
mod Tests
use discord_native_voice.Prelude.{
  ℕ, zero, suc, ◌+◌, ◌-◌, ◌<◌, Bool, true, false, not, ◌||◌, ◌&&◌, Option, none, some, List, [],
  ◌∷◌, ◌++◌, length, ltb, is_empty, if◌then◌else◌,
}
use discord_native_voice.Prelude.Bytes.{Bytes}
use discord_native_voice.Frames.{ByteStream}

-- The bytes of a frame and its duration in microseconds
abbrev pub VideoFrame : Type 0
VideoFrame = Bytes × ℕ

-- `MediaSource`
pub record SourceOps (S : Type 0) : Type 0 where
  pub has_audio : S → Bool
  pub has_video : S → Bool
  pub is_opus : S → Bool
  pub is_finished : S → Bool
  pub read : S → Bytes × S
  pub read_video : S → Option VideoFrame × S
  pub cleanup : S → S

-- What the functions on PCM of the native extension raise
pub data AudioError : Type 0 where
  not_whole_frame length_mismatch : AudioError

abbrev pub zeros : ℕ → Bytes
zeros zero = []
zeros (suc n) = 0 ∷ zeros n

-- `PCMMediaSource`; whether the stream is to be closed is not modelled
pub record PcmMediaSource (S : Type 0) : Type 0 where
  pub stream : S
  pub closed : Bool

module _ {S : Type 0} ⦃io : ByteStream S⦄ where
  -- `PCMMediaSource.read`, for a frame size
  unfoldable pub pcm_read : ℕ → PcmMediaSource S → Bytes × PcmMediaSource S
  pcm_read frame_size source =
      let got = io.read frame_size source.stream in
      if source.closed
      then ([], source)
      else if is_empty got.0
      then ([], record { stream = got.1; closed = true })
      else if ltb (length got.0) frame_size
      then (got.0 ++ zeros (frame_size - length got.0), record { stream = got.1; closed = true })
      else (got.0, record { stream = got.1; closed = false })

-- `AudioFrameSource`, with the frames that its iterator has still to give
pub record AudioFrameSource : Type 0 where
  pub frames : List Bytes
  pub opus : Bool
  pub closed : Bool

abbrev pub frame_read : ℕ → List Bytes → AudioFrameSource → Bytes × AudioFrameSource
frame_read frame_size [] source = ([], record source { closed = true })
frame_read frame_size (frame ∷ frames) source =
    if is_empty frame
    then (frame, record source { frames = frames; closed = true })
    else if not source.opus && ltb (length frame) frame_size
    then (
      frame ++ zeros (frame_size - length frame),
      record source { frames = frames; closed = true },
    )
    else (frame, record source { frames = frames })

-- `AudioFrameSource.read`
unfoldable pub audio_frame_read : ℕ → AudioFrameSource → Bytes × AudioFrameSource
audio_frame_read frame_size source =
    if source.closed then ([], source) else frame_read frame_size source.frames source

-- `VideoFrameSource`, with the frames that its iterator has still to give: bytes, which get the
-- source's frame time, or frames
pub record VideoFrameSource : Type 0 where
  pub frames : List (Bytes × Option ℕ)
  pub frame_time : ℕ
  pub closed : Bool

abbrev pub frame_time_or : ℕ → Option ℕ → ℕ
frame_time_or default none = default
frame_time_or default (some frame_time) = frame_time

abbrev pub next_video_frame :
    List (Bytes × Option ℕ) → VideoFrameSource → Option VideoFrame × VideoFrameSource
next_video_frame [] source = (none, record source { closed = true })
next_video_frame ((payload, frame_time) ∷ frames) source =
    (some (payload, frame_time_or source.frame_time frame_time), record source { frames = frames })

-- `VideoFrameSource.read_video`
unfoldable pub video_frame_read : VideoFrameSource → Option VideoFrame × VideoFrameSource
video_frame_read source =
    if source.closed then (none, source) else next_video_frame source.frames source

-- `AudioMediaSource`
pub record AudioMediaSource (S : Type 0) : Type 0 where
  pub original : S
  pub finished : Bool
  pub cleaned : Bool

module _ {S : Type 0} (ops : SourceOps S) where
  abbrev pub after_audio : AudioMediaSource S → Bytes × S → Bytes × AudioMediaSource S
  after_audio source (payload, original) =
      (payload, record source { original = original; finished = is_empty payload })

  -- `AudioMediaSource.read`
  unfoldable pub audio_media_read : AudioMediaSource S → Bytes × AudioMediaSource S
  audio_media_read source =
      if source.cleaned || source.finished
      then ([], source)
      else after_audio source (ops.read source.original)

  -- `AudioMediaSource.cleanup`
  unfoldable pub audio_media_cleanup : AudioMediaSource S → AudioMediaSource S
  audio_media_cleanup source =
      if source.cleaned
      then source
      else record source { original = ops.cleanup source.original; finished = true; cleaned = true }

  -- `MediaSource` as `AudioMediaSource` has it: no video
  unfoldable pub audio_media_ops : SourceOps (AudioMediaSource S)
  unfolding audio_media_read audio_media_cleanup
  audio_media_ops = record {
    has_audio = λ s. not s.cleaned && not s.finished;
    has_video = λ s. false;
    is_opus = λ s. not s.cleaned && ops.is_opus s.original;
    is_finished = λ s. s.cleaned || s.finished;
    read = audio_media_read;
    read_video = λ s. (none, s);
    cleanup = audio_media_cleanup;
  }
