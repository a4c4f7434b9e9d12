-- ===== src/Frames/Source/Slices.antt =====
-- An H264 or H265 stream read to its end through `EncodedVideoSource`.
use discord_native_voice.Prelude.{
  ℕ, zero, suc, ◌<◌, ◌≡◌, refl, sym, ap, ◌∙◌, true, false, inl, inr, ◌⊎◌, Option, none, some, List,
  [], ◌∷◌, ◌++◌, length, is_empty, arith, Bool-cases, length-append, length_nonempty, is_empty_eq,
  if◌then◌else◌,
}
use mathlib.Core.Path.{subst}
use discord_native_voice.Prelude.Bytes.{Bytes}
use discord_native_voice.Prelude.Result.{Result, ok, err, ◌>>=◌}
use discord_native_voice.Rtp.{Codec}
use discord_native_voice.Frames.{ByteStream}
use discord_native_voice.Frames.Ivf.{ReadError}
use discord_native_voice.Frames.AnnexB.{AnnexBReader, read_annex_b_frame}
use discord_native_voice.Frames.AnnexB.Slices.{
  StartsAtZero, remaining, Slices, read_annex_b_frame-Slices,
}
use discord_native_voice.Frames.Source.{
  VideoSource, annex_b, new_reader, is_ivf_codec, open_source, annex_b_result, read_next,
  read_video, Frames, with_frame, then_rest, read_all,
}

-- `b''.join(frames)`
abbrev pub concat : List Bytes → Bytes
concat [] = []
concat (frame ∷ frames) = frame ++ concat frames

-- The frames, all of them, are the bytes from some place on.
abbrev pub Suffix : Bytes → Result ReadError Frames → Type 0
Suffix bytes (err e) = ⊥
Suffix bytes (ok (ended, frames)) =
    (ended ≡ true) × ((skipped : Bytes) × (skipped ++ concat frames ≡ bytes))

-- The frames are the bytes.
abbrev pub Whole : Bytes → Result ReadError Frames → Type 0
Whole bytes (err e) = ⊥
Whole bytes (ok (ended, frames)) = (ended ≡ true) × (concat frames ≡ bytes)

Whole-cons :
    (frame bytes : Bytes) (o : Result ReadError Frames)
    → Whole bytes o
    → Whole (frame ++ bytes) (o >>= (λ frames. ok (with_frame frame frames)))
Whole-cons frame bytes (err e) h = h
Whole-cons frame bytes (ok (ended, frames)) h = (h.0, ap (λ x. frame ++ x) h.1)

Suffix-skip :
    (skipped bytes : Bytes) (o : Result ReadError Frames)
    → Whole bytes o
    → Suffix (skipped ++ bytes) o
Suffix-skip skipped bytes (err e) h = h
Suffix-skip skipped bytes (ok (ended, frames)) h = (h.0, (skipped, ap (λ x. skipped ++ x) h.1))

append_empty : (xs ys : Bytes) → xs ++ ys ≡ [] → ys ≡ []
append_empty [] ys h = h
append_empty (x ∷ xs) ys h = cc

module _ {S : Type 0} ⦃io : ByteStream S⦄ where
  -- The source on an Annex B reader.
  abbrev source_of : AnnexBReader S → VideoSource S
  source_of r = record { reader = annex_b r; closed = false }

  -- Nothing is left, or a delimiter is at the front of the buffer.
  abbrev Cut : AnnexBReader S → Type 0
  Cut r = (remaining r ≡ []) ⊎ StartsAtZero r.aud_positions

  -- What `read_all` makes of the result of a call.
  abbrev rest_of : ℕ → AnnexBReader S → Option (Bytes × AnnexBReader S) → Result ReadError Frames
  rest_of fuel r o =
      (if is_empty (annex_b_result r o).0
        then ok (none, record { reader = (annex_b_result r o).1; closed = true })
        else ok (
          some (annex_b_result r o).0,
          record { reader = (annex_b_result r o).1; closed = false },
        ))
      >>= then_rest (read_all fuel)

  Whole-rest_of :
      (fuel : ℕ) (r : AnnexBReader S) (o : Option (Bytes × AnnexBReader S))
      → Slices r o
      → length (remaining r) < suc fuel
      → ((r' : AnnexBReader S)
          → length (remaining r') < fuel
          → Cut r'
          → Whole (remaining r') (read_all fuel (source_of r')))
      → (skipped : Bytes) × (bytes : Bytes) × (skipped ++ bytes ≡ remaining r)
        × (StartsAtZero r.aud_positions → skipped ≡ [])
        × Whole bytes (rest_of fuel r o)
  Whole-rest_of fuel r none h size ih = absurd h
  Whole-rest_of fuel r (some (frame, r')) (skipped, split, at_front, after, last) size ih = (
    skipped,
    frame ++ remaining r',
    split,
    at_front,
    elim (Bool-cases (is_empty frame)) [
      | inl e ↦
          let none_read = is_empty_eq frame e in
          rw e (refl, sym (ap (λ x. x ++ remaining r') none_read ∙ last none_read))
      | inr e ↦
          let total = ap length split in
          let parts = length-append skipped (frame ++ remaining r') in
          let frame_parts = length-append frame (remaining r') in
          let some_bytes = length_nonempty frame e in
          rw e (
            Whole-cons frame (remaining r') (read_all fuel (source_of r'))
              (ih r' (omega arith) after))
    ],
  )

  Whole-read_all :
      (fuel : ℕ) (r : AnnexBReader S)
      → length (remaining r) < fuel
      → Cut r
      → Whole (remaining r) (read_all fuel (source_of r))
  unfolding read_all read_video read_next
  Whole-read_all zero r h at = absurd (omega arith)
  Whole-read_all (suc fuel) r h at =
      let (skipped, bytes, split, at_front, whole) =
        Whole-rest_of fuel r (read_annex_b_frame r) (read_annex_b_frame-Slices r) h
          (λ r'. Whole-read_all fuel r') in
      let all : bytes ≡ remaining r = elim at [
        | inl none_left ↦ append_empty skipped bytes (split ∙ none_left) ∙ sym none_left
        | inr z ↦ ap (λ x. x ++ bytes) (sym (at_front z)) ∙ split
      ] in
      subst (λ x. Whole x (rest_of fuel r (read_annex_b_frame r))) all whole

  -- However the stream cuts its reads, reading an H264 or H265 source to its end ends, and its
  -- frames joined together are the bytes of the stream from some place on: no byte after the first
  -- frame's start is lost, repeated or moved.
  pub read_all-Suffix :
      (codec : Codec) (s : S) (fuel : ℕ)
      → is_ivf_codec codec ≡ false
      → length (io.left s) < fuel
      → Suffix (io.left s) (open_source codec s >>= read_all fuel)
  unfolding open_source read_all read_video read_next
  read_all-Suffix codec s zero e h = absurd (omega arith)
  read_all-Suffix codec s (suc fuel) e h =
      let r = new_reader codec s in
      let (skipped, bytes, split, at_front, whole) =
        Whole-rest_of fuel r (read_annex_b_frame r) (read_annex_b_frame-Slices r) (omega arith)
          (λ r'. Whole-read_all fuel r') in
      rw e (
        subst (λ x. Suffix x (rest_of fuel r (read_annex_b_frame r))) split
          (Suffix-skip skipped bytes _ whole))
