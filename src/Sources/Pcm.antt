-- ===== src/Sources/Pcm.antt =====
-- What `PCMMediaSource` reads from a stream.
use discord_native_voice.Prelude.{
  ℕ, zero, suc, ◌-◌, ◌<◌, min, ◌≡◌, refl, sym, ap, ◌∙◌, true, false, inl, inr, List, [], ◌∷◌, ◌++◌,
  length, All, length-append, append_assoc, append_nil, is_empty, is_empty_eq, length_nonempty, ltb,
  arith, Bool-cases, if◌then◌else◌,
}
use discord_native_voice.Prelude.Bytes.{Bytes}
use discord_native_voice.Frames.{ByteStream}
use discord_native_voice.Frames.Source.Slices.{concat}
use discord_native_voice.Sources.{zeros, PcmMediaSource, pcm_read}

length-zeros : (n : ℕ) → length (zeros n) ≡ n
length-zeros zero = refl
length-zeros (suc n) = ap suc (length-zeros n)

-- Frames of one size that are the bytes and silence after them.
abbrev pub Padded : ℕ → Bytes → List Bytes → Type 0
Padded frame_size bytes frames =
    All (λ frame. length frame ≡ frame_size) frames
    × ((pad : ℕ) × (pad < frame_size) × (concat frames ≡ bytes ++ zeros pad))

length_zero : (xs : Bytes) → length xs ≡ 0 → xs ≡ []
length_zero [] h = refl
length_zero (x ∷ xs) h = absurd (omega arith)

is_empty_append : (xs ys : Bytes) → is_empty xs ≡ false → is_empty (xs ++ ys) ≡ false
is_empty_append [] ys h = cc
is_empty_append (x ∷ xs) ys h = refl

module _ {S : Type 0} ⦃io : ByteStream S⦄ where
  -- The frames of so many reads, up to the first that gives nothing
  unfoldable pub read_pcm : ℕ → ℕ → PcmMediaSource S → List Bytes
  read_pcm frame_size zero source = []
  read_pcm frame_size (suc fuel) source =
      let got = pcm_read frame_size source in
      let rest = read_pcm frame_size fuel got.1 in if is_empty got.0 then [] else got.0 ∷ rest

  closed_reads :
      (frame_size fuel : ℕ) (source : PcmMediaSource S)
      → source.closed ≡ true
      → read_pcm frame_size fuel source ≡ []
  unfolding read_pcm pcm_read
  closed_reads frame_size zero source h = refl
  closed_reads frame_size (suc fuel) source h = rw h refl

  -- A stream that returns as many bytes as asked for, until it ends, is read to its end in frames of
  -- one size: all its bytes in their order, and less than a frame of zeros after the last.
  pub read_pcm-Padded :
      (frame_size fuel : ℕ) (s : S)
      → 0 < frame_size
      → ((n : ℕ) (t : S) → length (io.read n t).0 ≡ min n (length (io.left t)))
      → length (io.left s) < fuel
      → Padded frame_size
          (io.left s)
          (read_pcm frame_size fuel (record { stream = s; closed = false }))
  unfolding read_pcm pcm_read
  read_pcm-Padded frame_size zero s some_size full enough = absurd (omega arith)
  read_pcm-Padded frame_size (suc fuel) s some_size full enough =
      let chunk = (io.read frame_size s).0 in
      let next = (io.read frame_size s).1 in
      let split = io.read_splits frame_size s in
      elim (Bool-cases (is_empty chunk)) [
        | inl e ↦
            let ended = io.read_ends frame_size s some_size (is_empty_eq chunk e) in
            rw e (tt, (0, some_size, sym (append_nil (io.left s) ∙ ended)))
        | inr e ↦ elim (Bool-cases (ltb (length chunk) frame_size)) [
          | inl short ↦
              let got = full frame_size s in
              let total = ap length split in
              let parts = length-append chunk (io.left next) in
              let drained : io.left next ≡ [] = length_zero (io.left next) (ground arith) in
              let pad = frame_size - length chunk in
              let all : chunk ≡ io.left s =
                sym (append_nil chunk) ∙ ap (λ x. chunk ++ x) (sym drained) ∙ split in
              let padded : is_empty (chunk ++ zeros pad) ≡ false =
                is_empty_append chunk (zeros pad) e in
              let ended =
                closed_reads frame_size fuel (record { stream = next; closed = true }) refl in
              let size : length (chunk ++ zeros pad) ≡ frame_size =
                ground (arith, length-append chunk (zeros pad), length-zeros pad) in
              rw (e, short, padded, ended)
                (
                  (size, tt),
                  (
                    pad,
                    ground (arith, length_nonempty chunk e),
                    append_nil (chunk ++ zeros pad) ∙ ap (λ x. x ++ zeros pad) all,
                  ),
                )
          | inr whole ↦
              let some_bytes = length_nonempty chunk e in
              let total = ap length split in
              let parts = length-append chunk (io.left next) in
              let fits = io.read_fits frame_size s in
              let (sizes, (pad, few, joined)) =
                read_pcm-Padded frame_size fuel next some_size full (omega arith) in
              rw (e, whole, e)
                (
                  (ground arith, sizes),
                  (
                    pad,
                    few,
                    ap (λ x. chunk ++ x) joined
                        ∙ sym (append_assoc chunk (io.left next) (zeros pad))
                        ∙ ap (λ x. x ++ zeros pad) split,
                  ),
                )
        ]
      ]
