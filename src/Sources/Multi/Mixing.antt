-- ===== src/Sources/Multi/Mixing.antt =====
-- Which sources of a `MultiMediaSource` are read together.
use discord_native_voice.Prelude.{
  ℕ, ◌≡◌, ◌≢◌, ◌⊎◌, refl, sym, ap, ◌∙◌, true, false, not, ◌||◌, inl, inr, List, [], ◌∷◌, length,
  select, elem, elem-select, is_empty, nat_eq, arith, Bool-cases,
}
use discord_native_voice.Prelude.Bytes.{Bytes}
use discord_native_voice.Prelude.Result.{Result, ok, err}
use discord_native_voice.Sources.{SourceOps, AudioError}
use discord_native_voice.Sources.Multi.{
  MultiError, no_sources, opus_not_mixable, MultiMediaSource, Store, set_at, audio_source_done,
  active_audio_sources, multi_is_opus, read_sources, read_opus, multi_read, some_source,
}

-- An Opus source is the only audio source.
abbrev pub IsMulti : MultiMediaSource → Type 0
IsMulti m =
    (m.opus_audio_sources ≡ [])
    ⊎ ((n : ℕ) × (m.audio_sources ≡ n ∷ []) × (m.opus_audio_sources ≡ n ∷ []))

module _ {S : Type 0} (ops : SourceOps S) where
  -- What the constructor makes of a list of sources.
  abbrev pub Makes : List ℕ → Store S → Result MultiError MultiMediaSource → Type 0
  Makes sources store (ok m) =
      IsMulti m × (m.audio_sources ≡ select (λ n. ops.has_audio (store n)) sources)
  Makes sources store (err no_sources) = sources ≡ []
  Makes sources store (err opus_not_mixable) =
      (length (select (λ n. ops.has_audio (store n)) sources) ≢ 1)
      × ((n : ℕ) × (elem n (select (λ n. ops.has_audio (store n)) sources) ≡ true)
          × (ops.is_opus (store n) ≡ true))

  read_sources_other :
      (n : ℕ) (ns : List ℕ) (store : Store S)
      → elem n ns ≡ false
      → (read_sources ops ns store).2 n ≡ store n
  unfolding read_sources elem
  read_sources_other n [] store h = refl
  read_sources_other n (m ∷ ns) store h =
      let other : nat_eq n m ≡ false = ground arith in
      let later : elem n ns ≡ false = ground arith in
      read_sources_other n ns (set_at m (ops.read (store m)).1 store) later ∙ rw other refl

  read_opus_other :
      (m : MultiMediaSource) (store : Store S) (n : ℕ) (opus : List ℕ)
      → ((opus ≡ []) ⊎ ((k : ℕ) × (m.audio_sources ≡ k ∷ []) × (opus ≡ k ∷ [])))
      → audio_source_done ops m store n ≡ true
      → some_source (λ k. not (audio_source_done ops m store k)) opus ≡ true
      → (read_opus ops opus m store).2 n ≡ store n
  unfolding some_source
  read_opus_other m store n [] multi done reading = refl
  read_opus_other m store n (k ∷ j ∷ opus) multi done reading =
      absurd
        (elim multi [ inl e ↦ cc e | inr (i, only, e) ↦ let size = ap length e in omega arith ])
  read_opus_other m store n (k ∷ []) multi done reading = elim (Bool-cases (nat_eq n k)) [
    | inl same ↦
        let e : n ≡ k = ground arith in
        let done_k : audio_source_done ops m store k ≡ true =
          ap (audio_source_done ops m store) (sym e) ∙ done in
        absurd (cc (sym reading ∙ ap (λ b. not b || false) done_k))
    | inr other ↦ rw other refl
  ]

  -- A source that is done is not read again: `read` leaves it as it is, also where the mixing raises.
  pub multi_read_done :
      (mix : List Bytes → Result AudioError Bytes) (m : MultiMediaSource) (store : Store S) (n : ℕ)
      → IsMulti m
      → audio_source_done ops m store n ≡ true
      → (multi_read ops mix m store).2 n ≡ store n
  unfolding multi_read
  multi_read_done mix m store n multi done =
      let active = active_audio_sources ops m store in
      elim (Bool-cases (is_empty active)) [
        | inl none_active ↦ rw none_active refl
        | inr some_active ↦ elim (Bool-cases (multi_is_opus ops m store)) [
          | inl opus ↦
              rw (some_active, opus)
                (read_opus_other m store n m.opus_audio_sources multi done opus)
          | inr mixed ↦
              let left_out : elem n active ≡ false =
                elem-select n (λ k. not (audio_source_done ops m store k)) m.audio_sources
                ∙ rw done refl in
              rw (some_active, mixed) (read_sources_other n active store left_out)
        ]
      ]
