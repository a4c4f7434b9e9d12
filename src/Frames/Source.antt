-- ===== src/Frames/Source.antt =====
-- `EncodedVideoSource` of discord/ext/native_voice/media.py: its two readers, and what reading it to
-- its end gives.
pub mod Slices
use discord_native_voice.Prelude.{
  ℕ, zero, suc, ◌+◌, Bool, true, false, not, Option, none, some, List, [], ◌∷◌, ◌++◌, length,
  is_empty, if◌then◌else◌,
}
use discord_native_voice.Prelude.Bytes.{Bytes}
use discord_native_voice.Prelude.Result.{Result, ok, err, ◌>>=◌}
use discord_native_voice.Rtp.{Codec, opus, av1, h265, h264, vp8, vp9}
use discord_native_voice.Frames.{ByteStream}
use discord_native_voice.Frames.Ivf.{ReadError, open_ivf, read_frame}
use discord_native_voice.Frames.AnnexB.{AnnexBReader, read_annex_b_frame}

pub data Reader (S : Type 0) : Type 0 where
  ivf : S → Reader S
  annex_b : AnnexBReader S → Reader S

pub record VideoSource (S : Type 0) : Type 0 where
  pub reader : Reader S
  pub closed : Bool

-- `codec in _IVF_CODECS`
abbrev pub is_ivf_codec : Codec → Bool
is_ivf_codec vp8 = true
is_ivf_codec vp9 = true
is_ivf_codec av1 = true
is_ivf_codec _ = false

module _ {S : Type 0} where
  -- `_AnnexBFrameReader.__init__`
  abbrev pub new_reader : Codec → S → AnnexBReader S
  new_reader codec s = record {
    stream = s;
    codec = codec;
    buffer = [];
    search_pos = 0;
    aud_positions = [];
  }

module _ {S : Type 0} ⦃io : ByteStream S⦄ where
  -- `EncodedVideoSource.__init__`, for a codec name that `_coerce_video_codec` has normalized
  unfoldable pub open_source : Codec → S → Result ReadError (VideoSource S)
  open_source codec s =
      if is_ivf_codec codec
      then open_ivf s >>= (λ next. ok (record { reader = ivf next; closed = false }))
      else ok (record { reader = annex_b (new_reader codec s); closed = false })

  -- The reader's `read_frame`. `AnnexB.Slices` has it that no Annex B read ends for want of fuel.
  abbrev pub annex_b_result : AnnexBReader S → Option (Bytes × AnnexBReader S) → Bytes × Reader S
  annex_b_result r none = ([], annex_b r)
  annex_b_result r (some (frame, next)) = (frame, annex_b next)

  unfoldable pub read_next : Reader S → Result ReadError (Bytes × Reader S)
  unfolding read_frame read_annex_b_frame
  read_next (ivf s) = read_frame s >>= (λ got. ok (got.0, ivf got.1))
  read_next (annex_b r) = ok (annex_b_result r (read_annex_b_frame r))

  -- `read_video`, with the bytes of the `VideoFrame`
  unfoldable pub read_video : VideoSource S → Result ReadError (Option Bytes × VideoSource S)
  unfolding read_next
  read_video source =
      if source.closed
      then ok (none, source)
      else read_next source.reader >>= (λ got.
        if is_empty got.0
        then ok (none, record { reader = got.1; closed = true })
        else ok (some got.0, record { reader = got.1; closed = false }))

-- The frames of so many calls of `read_video`, and whether the source has ended.
abbrev pub Frames : Type 0
Frames = Bool × List Bytes

abbrev pub with_frame : Bytes → Frames → Frames
with_frame frame (ended, frames) = (ended, frame ∷ frames)

-- The rest is read after a frame.
abbrev pub then_rest :
    {S : Type 0}
    → (VideoSource S → Result ReadError Frames)
    → Option Bytes × VideoSource S
    → Result ReadError Frames
then_rest rest (none, next) = ok (true, [])
then_rest rest (some frame, next) = rest next >>= (λ frames. ok (with_frame frame frames))

module _ {S : Type 0} ⦃io : ByteStream S⦄ where
  unfoldable pub read_all : ℕ → VideoSource S → Result ReadError Frames
  read_all zero source = ok (false, [])
  read_all (suc fuel) source = read_video source >>= then_rest (read_all fuel)
