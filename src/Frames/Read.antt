-- ===== src/Frames/Read.antt =====
-- What `_read_exact` of discord/ext/native_voice/media.py reads.
use discord_native_voice.Prelude.{
  ℕ, zero, suc, ◌+◌, ◌-◌, ◌≤◌, ◌≡◌, refl, sym, ap, ◌∙◌, inl, inr, [], ◌++◌, length, take, drop,
  take_nil, drop_nil, ltb, is_empty, arith, Bool-cases, length-append, take-append, drop-append,
  append_nil, append_assoc, is_empty_eq, length_nonempty,
}
use mathlib.Core.Path.{subst}
use discord_native_voice.Prelude.Bytes.{Bytes}
use discord_native_voice.Frames.{ByteStream, read_loop, read_exact}

-- The bytes gathered and the bytes that stay.
abbrev Splits : ℕ → Bytes → Bytes → Bytes → Bytes → Type 0
Splits n chunks before got after = (got ≡ chunks ++ take n before) × (after ≡ drop n before)

-- A read that takes `c` off the front, before the others.
Splits-step :
    (n : ℕ) (chunks c before' before got after : Bytes)
    → c ++ before' ≡ before
    → length c ≤ n
    → Splits (n - length c) (chunks ++ c) before' got after
    → Splits n chunks before got after
Splits-step n chunks c before' before got after split fits h = (
  h.0
      ∙ append_assoc chunks c (take (n - length c) before')
      ∙ ap (λ r. chunks ++ r) (sym (take-append n c before' fits) ∙ ap (take n) split),
  h.1 ∙ sym (drop-append n c before' fits) ∙ ap (drop n) split,
)

-- A read at the end of the stream.
Splits-end :
    (n : ℕ) (chunks before after : Bytes)
    → before ≡ []
    → after ≡ before
    → Splits n chunks before chunks after
Splits-end n chunks before after empty same = (
  sym (append_nil chunks) ∙ ap (λ r. chunks ++ r) (sym (take_nil n) ∙ ap (take n) (sym empty)),
  same ∙ empty ∙ sym (drop_nil n) ∙ ap (drop n) (sym empty),
)

module _ {S : Type 0} ⦃io : ByteStream S⦄ where
  abbrev LoopSplits : ℕ → ℕ → Bytes → S → Type 0
  LoopSplits fuel size chunks s =
      Splits (size - length chunks) chunks (io.left s) (read_loop fuel size chunks s).0
        (io.left (read_loop fuel size chunks s).1)

  read_loop-Splits :
      (fuel size : ℕ) (chunks : Bytes) (s : S)
      → size ≤ fuel + length chunks
      → length chunks ≤ size
      → LoopSplits fuel size chunks s
  unfolding read_loop
  read_loop-Splits zero size chunks s enough fits =
      let none_left : size - length chunks ≡ 0 = omega arith in
      rw none_left (sym (append_nil chunks), refl)
  read_loop-Splits (suc fuel) size chunks s enough fits =
      elim (Bool-cases (ltb (length chunks) size)) [
        | inl more ↦
            let want = size - length chunks in
            let c = (io.read want s).0 in
            let s' = (io.read want s).1 in
            elim (Bool-cases (is_empty c)) [
              | inl none_read ↦
                  let e : c ≡ [] = is_empty_eq c none_read in
                  rw (more, none_read)
                    (Splits-end want chunks (io.left s) (io.left s')
                      (io.read_ends want s (ground arith) e)
                      (sym (ap (λ x. x ++ io.left s') e) ∙ io.read_splits want s))
              | inr some_read ↦
                  let some_bytes = length_nonempty c some_read in
                  let size_now = length-append chunks c in
                  let fit = io.read_fits want s in
                  let enough' : size ≤ fuel + length (chunks ++ c) = ground arith in
                  let fits' : length (chunks ++ c) ≤ size = ground arith in
                  let rest = read_loop-Splits fuel size (chunks ++ c) s' enough' fits' in
                  let same : size - length (chunks ++ c) ≡ want - length c = ground arith in
                  rw (more, some_read)
                    (Splits-step want chunks c (io.left s') (io.left s)
                      (read_loop fuel size (chunks ++ c) s').0
                      (io.left (read_loop fuel size (chunks ++ c) s').1) (io.read_splits want s) fit
                      (subst
                        (λ n.
                          Splits n (chunks ++ c) (io.left s')
                            (read_loop fuel size (chunks ++ c) s').0
                            (io.left (read_loop fuel size (chunks ++ c) s').1))
                        same rest))
            ]
        | inr done ↦
            let none_left : size - length chunks ≡ 0 = ground arith in
            rw (done, none_left) (sym (append_nil chunks), refl)
      ]

  -- However the stream cuts its reads, `_read_exact` returns the next `size` bytes, fewer only when
  -- the stream ends before them, and leaves what follows them.
  pub read_exact_lem :
      (size : ℕ) (s : S)
      → ((read_exact size s).0 ≡ take size (io.left s))
        × (io.left (read_exact size s).1 ≡ drop size (io.left s))
  unfolding read_exact
  read_exact_lem size s =
      subst (λ n. Splits n [] (io.left s) (read_exact size s).0 (io.left (read_exact size s).1))
        (omega arith) (read_loop-Splits size size [] s (omega arith) (omega arith))
