-- ===== src/Send/Keyframe/Units.antt =====
-- The NAL units that the scan of discord/ext/native_voice/client.py lists stand in the frame.
use mathlib.Core.Path.{subst}
use discord_native_voice.Prelude.{
  ℕ, suc, zero, ◌/◌, ◌%◌, ◌≤◌, ◌≡◌, refl, sym, ap, ◌∙◌, Bool, true, false, ◌&&◌, Option, none, some,
  List, [], ◌∷◌, ◌++◌, length, drop, append_assoc, elem, ltb, leb, nat_eq, arith, Bool-cases,
  Option-cases, inl, inr, ◌⊎◌, if◌then◌else◌,
}
use discord_native_voice.Prelude.Bytes.{Bytes}
use discord_native_voice.Rtp.{Codec, h264, h265, av1, vp8, vp9, opus, pcm}
use discord_native_voice.Send.{find, after_start, nal_types, has_some}
use discord_native_voice.Send.Keyframe.Starts.{after_start-Starts}

-- The header of a unit of the given type: one byte in H.264, two in H.265.
abbrev pub IsUnit : Codec → ℕ → Bytes → Type 0
IsUnit h264 t (b ∷ rest) = b % 32 ≡ t
IsUnit h265 t (b ∷ c ∷ rest) = b / 2 % 64 ≡ t
IsUnit _ t _ = ⊥

-- The frame has a unit of this type behind a start code.
abbrev pub HasUnit : Codec → ℕ → Bytes → Type 0
HasUnit codec t frame =
    (before after : Bytes) × (frame ≡ before ++ (0 ∷ 0 ∷ 1 ∷ after)) × IsUnit codec t after

-- A unit in the rest of a frame is one of the frame.
HasUnit-after :
    (codec : Codec) (t : ℕ) (before rest : Bytes)
    → HasUnit codec t rest
    → HasUnit codec t (before ++ rest)
HasUnit-after codec t before rest (between, after, split, unit) = (
  before ++ between,
  after,
  ap (λ r. before ++ r) split ∙ sym (append_assoc before between (0 ∷ 0 ∷ 1 ∷ after)),
  unit,
)

-- The types that the loop lists from a unit on.
abbrev units : Codec → ℕ → Bytes → List ℕ
units h264 rounds [] = []
units h264 rounds (b ∷ rest) =
    let nal_type = b % 32 in
    let more = nal_types h264 rounds rest in
    nal_type ∷ (if leb 1 nal_type && leb nal_type 5 then [] else more)
units h265 rounds (b ∷ c ∷ rest) =
    let nal_type = b / 2 % 64 in
    let more = nal_types h265 rounds rest in nal_type ∷ (if leb nal_type 31 then [] else more)
units _ rounds bytes = []

elem_if :
    (t : ℕ) (b : Bool) (more : List ℕ) → elem t (if b then [] else more) ≡ true → elem t more ≡ true
unfolding elem
elem_if t true more h = cc
elem_if t false more h = h

units-HasUnit :
    (codec : Codec) (t rounds : ℕ) (before bytes : Bytes)
    → ((rest : Bytes) → elem t (nal_types codec rounds rest) ≡ true → HasUnit codec t rest)
    → elem t (units codec rounds bytes) ≡ true
    → HasUnit codec t (before ++ (0 ∷ 0 ∷ 1 ∷ bytes))
unfolding elem
units-HasUnit h264 t rounds before [] ih h = cc
units-HasUnit h264 t rounds before (b ∷ rest) ih h = elim (Bool-cases (nat_eq (b % 32) t)) [
  | inl e ↦ (before, b ∷ rest, refl, ground arith)
  | inr e ↦
      let later =
        elem_if t (leb 1 (b % 32) && leb (b % 32) 5) (nal_types h264 rounds rest)
          (sym (rw e refl) ∙ h) in
      HasUnit-after h264 t before (0 ∷ 0 ∷ 1 ∷ b ∷ rest)
        (HasUnit-after h264 t (0 ∷ 0 ∷ 1 ∷ b ∷ []) rest (ih rest later))
]
units-HasUnit h265 t rounds before [] ih h = cc
units-HasUnit h265 t rounds before (b ∷ []) ih h = cc
units-HasUnit h265 t rounds before (b ∷ c ∷ rest) ih h = elim (Bool-cases (nat_eq (b / 2 % 64) t)) [
  | inl e ↦ (before, b ∷ c ∷ rest, refl, ground arith)
  | inr e ↦
      let later =
        elem_if t (leb (b / 2 % 64) 31) (nal_types h265 rounds rest) (sym (rw e refl) ∙ h) in
      HasUnit-after h265 t before (0 ∷ 0 ∷ 1 ∷ b ∷ c ∷ rest)
        (HasUnit-after h265 t (0 ∷ 0 ∷ 1 ∷ b ∷ c ∷ []) rest (ih rest later))
]
units-HasUnit av1 t rounds before bytes ih h = cc
units-HasUnit vp8 t rounds before bytes ih h = cc
units-HasUnit vp9 t rounds before bytes ih h = cc
units-HasUnit opus t rounds before bytes ih h = cc
units-HasUnit pcm t rounds before bytes ih h = cc

h264_units :
    (rounds : ℕ) (bytes : Bytes)
    → elim bytes as (λ _. List ℕ) [
      | [] ↦ []
      | b ∷ rest ↦
          let nal_type = b % 32 in
          let more = nal_types h264 rounds rest in
          nal_type ∷ (if leb 1 nal_type && leb nal_type 5 then [] else more)
    ]
      ≡ units h264 rounds bytes
h264_units rounds [] = refl
h264_units rounds (b ∷ rest) = refl

h265_units :
    (rounds : ℕ) (bytes : Bytes)
    → elim bytes as (λ _. List ℕ) [
      | [] ↦ []
      | b ∷ tail ↦ elim tail as (λ _. List ℕ) [
        | [] ↦ []
        | c ∷ rest ↦
            let nal_type = b / 2 % 64 in
            let more = nal_types h265 rounds rest in
            nal_type ∷ (if leb nal_type 31 then [] else more)
      ]
    ]
      ≡ units h265 rounds bytes
h265_units rounds [] = refl
h265_units rounds (b ∷ []) = refl
h265_units rounds (b ∷ c ∷ rest) = refl

-- Where the loop starts to read in a frame, if it has three bytes.
abbrev start_of : Bytes → Option ℕ
start_of frame = after_start (find (0 ∷ 0 ∷ 1 ∷ []) frame) (find (0 ∷ 0 ∷ 0 ∷ 1 ∷ []) frame)

start_of-HasUnit :
    (codec : Codec) (t rounds start : ℕ) (frame : Bytes)
    → ((rest : Bytes) → elem t (nal_types codec rounds rest) ≡ true → HasUnit codec t rest)
    → start_of frame ≡ some start
    → elem t (units codec rounds (drop start frame)) ≡ true
    → HasUnit codec t frame
start_of-HasUnit codec t rounds start frame ih e h =
    let (before, split) =
      after_start-Starts frame (find (0 ∷ 0 ∷ 1 ∷ []) frame) (find (0 ∷ 0 ∷ 0 ∷ 1 ∷ []) frame) start
        refl refl e in
    subst (HasUnit codec t) (sym split)
      (units-HasUnit codec t rounds before (drop start frame) ih h)

elem_nil : {A : Type 0} (t : ℕ) → elem t [] ≡ true → A
unfolding elem
elem_nil t h = cc

-- A round of the loop that finds a start code.
pub round_h264 :
    (rounds start : ℕ) (frame : Bytes)
    → ltb (length frame) 3 ≡ false
    → start_of frame ≡ some start
    → nal_types h264 (suc rounds) frame ≡ units h264 rounds (drop start frame)
unfolding nal_types
round_h264 rounds start frame e found = rw (e, found) (h264_units rounds (drop start frame))

pub round_h265 :
    (rounds start : ℕ) (frame : Bytes)
    → ltb (length frame) 3 ≡ false
    → start_of frame ≡ some start
    → nal_types h265 (suc rounds) frame ≡ units h265 rounds (drop start frame)
unfolding nal_types
round_h265 rounds start frame e found = rw (e, found) (h265_units rounds (drop start frame))

-- A frame that is too short, or has no start code.
no_round :
    (codec : Codec) (rounds : ℕ) (frame : Bytes)
    → ((ltb (length frame) 3 ≡ true) ⊎ ((ltb (length frame) 3 ≡ false) × (start_of frame ≡ none)))
    → nal_types codec (suc rounds) frame ≡ []
unfolding nal_types
no_round codec rounds frame (inl e) = rw e refl
no_round codec rounds frame (inr (e, absent)) = rw (e, absent) refl

no_rounds : (codec : Codec) (frame : Bytes) → nal_types codec zero frame ≡ []
unfolding nal_types
no_rounds codec frame = refl

module _ (codec : Codec)
    (round : (rounds start : ℕ) (frame : Bytes)
      → ltb (length frame) 3 ≡ false
      → start_of frame ≡ some start
      → nal_types codec (suc rounds) frame ≡ units codec rounds (drop start frame)) where
  pub nal_types-HasUnit :
      (t rounds : ℕ) (frame : Bytes)
      → elem t (nal_types codec rounds frame) ≡ true
      → HasUnit codec t frame
  nal_types-HasUnit t zero frame h = elem_nil t (ap (elem t) (sym (no_rounds codec frame)) ∙ h)
  nal_types-HasUnit t (suc rounds) frame h = elim (Bool-cases (ltb (length frame) 3)) [
    | inl e ↦ elem_nil t (ap (elem t) (sym (no_round codec rounds frame (inl e))) ∙ h)
    | inr e ↦ elim (Option-cases (start_of frame)) [
      | inl absent ↦
          elem_nil t (ap (elem t) (sym (no_round codec rounds frame (inr (e, absent)))) ∙ h)
      | inr (start, found) ↦
          start_of-HasUnit codec t rounds start frame (nal_types-HasUnit t rounds) found
            (ap (elem t) (sym (round rounds start frame e found)) ∙ h)
    ]
  ]

pub has_some_lem :
    (wanted types : List ℕ)
    → has_some wanted types ≡ true
    → (t : ℕ) × (elem t wanted ≡ true) × (elem t types ≡ true)
unfolding has_some elem
has_some_lem [] types h = cc
has_some_lem (n ∷ wanted) types h = elim (Bool-cases (elem n types)) [
  | inl e ↦ (n, ground arith, e)
  | inr e ↦
      let rest : has_some wanted types ≡ true = sym (rw e refl) ∙ h in
      let (t, inside, listed) = has_some_lem wanted types rest in (t, ground arith, listed)
]

pub only_five :
    (t : ℕ) (types : List ℕ) → elem t (5 ∷ []) ≡ true → elem t types ≡ true → elem 5 types ≡ true
unfolding elem
only_five t types five listed =
    ap (λ k. elem k types) (let same : 5 ≡ t = ground arith in same) ∙ listed

pub random_access : (t : ℕ) → elem t (16 ∷ 17 ∷ 18 ∷ 19 ∷ 20 ∷ 21 ∷ []) ≡ true → (16 ≤ t) × (t ≤ 21)
unfolding elem
random_access t h = ground arith
