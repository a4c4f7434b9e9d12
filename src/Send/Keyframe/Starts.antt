-- ===== src/Send/Keyframe/Starts.antt =====
-- Where the scan for NAL units of discord/ext/native_voice/client.py has found a start code.
use mathlib.Core.Path.{subst}
use discord_native_voice.Prelude.{
  ℕ, suc, ◌+◌, ◌≡◌, refl, sym, ap, ◌∙◌, true, Option, none, some, [], ◌∷◌, ◌++◌, length, drop,
  append_assoc, leb, arith, Bool-cases, inl, inr,
}
use discord_native_voice.Prelude.Bytes.{Bytes}
use discord_native_voice.Send.{starts_with, shift, find, after_start}

starts_with_lem :
    (needle bytes : Bytes)
    → starts_with needle bytes ≡ true
    → bytes ≡ needle ++ drop (length needle) bytes
unfolding starts_with
starts_with_lem [] bytes h = refl
starts_with_lem (p ∷ needle) [] h = cc
starts_with_lem (p ∷ needle) (b ∷ bytes) h =
    let same : b ≡ p = ground arith in
    let rest : starts_with needle bytes ≡ true = ground arith in
    ap (λ r. r ∷ bytes) same ∙ ap (λ r. p ∷ r) (starts_with_lem needle bytes rest)

-- The needle stands before what is left from there on.
abbrev Splits : Bytes → Bytes → ℕ → Type 0
Splits needle bytes start =
    (before : Bytes) × (bytes ≡ before ++ (needle ++ drop (start + length needle) bytes))

shift_eq : (o : Option ℕ) (i : ℕ) → shift o ≡ some i → (j : ℕ) × (o ≡ some j) × (i ≡ j + 1)
shift_eq none i h = cc
shift_eq (some j) i h = (j, refl, some_inj i (j + 1) (sym h))
  where
    some_inj : (a b : ℕ) → some a ≡ some b → a ≡ b
    some_inj a b e = cc

here-Splits :
    (needle bytes : Bytes) (i : ℕ) → starts_with needle bytes ≡ true → 0 ≡ i → Splits needle bytes i
here-Splits needle bytes i h e = (
  [],
  starts_with_lem needle bytes h
      ∙ ap (λ k. needle ++ drop k bytes)
          (let same : length needle ≡ i + length needle = omega (arith, e) in same),
)

nothing_found : (i : ℕ) → none ≡ some i → ⊥
nothing_found i h = cc

find-Splits : (needle bytes : Bytes) (i : ℕ) → find needle bytes ≡ some i → Splits needle bytes i
unfolding find
find-Splits needle [] i h = elim (Bool-cases (starts_with needle [])) [
  | inl e ↦
      let zero_at : some 0 ≡ some i = sym (rw e refl) ∙ h in
      here-Splits needle [] i e (let z : 0 ≡ i = cc in z)
  | inr e ↦ absurd (nothing_found i (sym (rw e refl) ∙ h))
]
find-Splits needle (b ∷ bytes) i h = elim (Bool-cases (starts_with needle (b ∷ bytes))) [
  | inl e ↦
      let zero_at : some 0 ≡ some i = sym (rw e refl) ∙ h in
      here-Splits needle (b ∷ bytes) i e (let z : 0 ≡ i = cc in z)
  | inr e ↦
      let later : shift (find needle bytes) ≡ some i = sym (rw e refl) ∙ h in
      let (j, found, next) = shift_eq (find needle bytes) i later in
      let (before, split) = find-Splits needle bytes j found in
      (
        b ∷ before,
        ap (λ r. b ∷ r) split
            ∙ ap (λ k. b ∷ (before ++ (needle ++ drop k (b ∷ bytes))))
                (let same : suc (j + length needle) ≡ i + length needle = omega (arith, next) in
                  same),
      )
]

-- Three bytes of start code stand before what the loop reads.
abbrev pub Starts : Bytes → ℕ → Type 0
Starts frame start = (before : Bytes) × (frame ≡ before ++ (0 ∷ 0 ∷ 1 ∷ drop start frame))

short-Starts : (frame : Bytes) (i : ℕ) → find (0 ∷ 0 ∷ 1 ∷ []) frame ≡ some i → Starts frame (i + 3)
short-Starts frame i h = find-Splits (0 ∷ 0 ∷ 1 ∷ []) frame i h

long-Starts :
    (frame : Bytes) (i : ℕ) → find (0 ∷ 0 ∷ 0 ∷ 1 ∷ []) frame ≡ some i → Starts frame (i + 4)
long-Starts frame i h =
    let (before, split) = find-Splits (0 ∷ 0 ∷ 0 ∷ 1 ∷ []) frame i h in
    (
      before ++ (0 ∷ []),
      split ∙ sym (append_assoc before (0 ∷ []) (0 ∷ 0 ∷ 1 ∷ drop (i + 4) frame)),
    )

subst_start : (frame : Bytes) (a b : ℕ) → some a ≡ some b → Starts frame a → Starts frame b
subst_start frame a b e h = subst (Starts frame) (let same : a ≡ b = cc in same) h

pub after_start-Starts :
    (frame : Bytes) (a b : Option ℕ) (start : ℕ)
    → find (0 ∷ 0 ∷ 1 ∷ []) frame ≡ a
    → find (0 ∷ 0 ∷ 0 ∷ 1 ∷ []) frame ≡ b
    → after_start a b ≡ some start
    → Starts frame start
unfolding after_start
after_start-Starts frame none none start e3 e4 h = cc
after_start-Starts frame (some i) none start e3 e4 h =
    subst_start frame (i + 3) start h (short-Starts frame i e3)
after_start-Starts frame none (some j) start e3 e4 h =
    subst_start frame (j + 4) start h (long-Starts frame j e4)
after_start-Starts frame (some i) (some j) start e3 e4 h = elim (Bool-cases (leb j i)) [
  | inl e ↦ subst_start frame (j + 4) start (sym (rw e refl) ∙ h) (long-Starts frame j e4)
  | inr e ↦ subst_start frame (i + 3) start (sym (rw e refl) ∙ h) (short-Starts frame i e3)
]
