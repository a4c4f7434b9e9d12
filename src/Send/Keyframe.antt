-- ===== src/Send/Keyframe.antt =====
-- What `_is_config_keyframe` of discord/ext/native_voice/client.py has found in a frame: units of
-- H.264 and H.265, each behind a start code.
pub mod Starts
pub mod Units
use mathlib.Core.Path.{subst}
use discord_native_voice.Prelude.{
  ℕ, suc, zero, ◌+◌, ◌/◌, ◌%◌, ◌≤◌, ◌≡◌, refl, sym, ap, ◌∙◌, Bool, true, false, ◌&&◌, ◌||◌, Option,
  none, some, List, [], ◌∷◌, ◌++◌, length, drop, append_assoc, elem, ltb, leb, nat_eq, arith,
  Bool-cases, Option-cases, inl, inr, ◌⊎◌, if◌then◌else◌,
}
use discord_native_voice.Prelude.Bytes.{Bytes}
use discord_native_voice.Rtp.{Codec, h264, h265, av1, vp8, vp9, opus, pcm}
use discord_native_voice.Send.{
  starts_with, shift, find, after_start, nal_types, has_all, has_some, is_config_keyframe,
}
use discord_native_voice.Send.Keyframe.Units.{
  HasUnit, nal_types-HasUnit, round_h264, round_h265, has_some_lem, random_access, only_five,
}

-- A keyframe with its parameter sets: SPS, PPS and an IDR slice in H.264; VPS, SPS, PPS and a slice
-- of a random access picture in H.265.
abbrev pub IsConfigKeyframe : Codec → Bytes → Type 0
IsConfigKeyframe h264 frame = HasUnit h264 7 frame × HasUnit h264 8 frame × HasUnit h264 5 frame
IsConfigKeyframe h265 frame =
    HasUnit h265 32 frame
    × HasUnit h265 33 frame
    × HasUnit h265 34 frame
    × ((t : ℕ) × (16 ≤ t) × (t ≤ 21) × HasUnit h265 t frame)
IsConfigKeyframe _ frame = ⊥

both : (a b : Bool) → (a && b) ≡ true → (a ≡ true) × (b ≡ true)
both a b h = (ground arith, ground arith)

h264_parts :
    (types : List ℕ)
    → (has_all (7 ∷ 8 ∷ []) types && has_some (5 ∷ []) types) ≡ true
    → (elem 7 types ≡ true) × (elem 8 types ≡ true) × (has_some (5 ∷ []) types ≡ true)
unfolding has_all
h264_parts types h =
    let (all, some_of) = both (has_all (7 ∷ 8 ∷ []) types) (has_some (5 ∷ []) types) h in
    let (sps, rest) = both (elem 7 types) (elem 8 types && true) all in
    (sps, (both (elem 8 types) true rest).0, some_of)

abbrev random_access_types : List ℕ
random_access_types = 16 ∷ 17 ∷ 18 ∷ 19 ∷ 20 ∷ 21 ∷ []

h265_parts :
    (types : List ℕ)
    → (has_all (32 ∷ 33 ∷ 34 ∷ []) types && has_some random_access_types types) ≡ true
    → (elem 32 types ≡ true)
      × (elem 33 types ≡ true)
      × (elem 34 types ≡ true)
      × (has_some random_access_types types ≡ true)
unfolding has_all
h265_parts types h =
    let (all, some_of) =
      both (has_all (32 ∷ 33 ∷ 34 ∷ []) types) (has_some random_access_types types) h in
    let (vps, rest) = both (elem 32 types) (elem 33 types && (elem 34 types && true)) all in
    let (sps, last) = both (elem 33 types) (elem 34 types && true) rest in
    (vps, sps, (both (elem 34 types) true last).0, some_of)

-- What the client takes for a keyframe has units of all the types that one needs.
pub is_config_keyframe-IsConfigKeyframe :
    (codec : Codec) (frame : Bytes)
    → is_config_keyframe codec frame ≡ true
    → IsConfigKeyframe codec frame
unfolding is_config_keyframe
is_config_keyframe-IsConfigKeyframe h264 frame h =
    let types = nal_types h264 16 frame in
    let (sps, pps, wanted) = h264_parts types h in
    let (t, five, listed) = has_some_lem (5 ∷ []) types wanted in
    let unit : (t : ℕ) → elem t types ≡ true → HasUnit h264 t frame =
      λ t e. nal_types-HasUnit h264 round_h264 t 16 frame e in
    (unit 7 sps, unit 8 pps, unit 5 (only_five t types five listed))
is_config_keyframe-IsConfigKeyframe h265 frame h =
    let types = nal_types h265 16 frame in
    let (vps, sps, pps, wanted) = h265_parts types h in
    let (t, inside, listed) = has_some_lem random_access_types types wanted in
    let (low, high) = random_access t inside in
    let unit : (t : ℕ) → elem t types ≡ true → HasUnit h265 t frame =
      λ t e. nal_types-HasUnit h265 round_h265 t 16 frame e in
    (unit 32 vps, unit 33 sps, unit 34 pps, (t, low, high, unit t listed))
is_config_keyframe-IsConfigKeyframe av1 frame h = cc
is_config_keyframe-IsConfigKeyframe vp8 frame h = cc
is_config_keyframe-IsConfigKeyframe vp9 frame h = cc
is_config_keyframe-IsConfigKeyframe opus frame h = cc
is_config_keyframe-IsConfigKeyframe pcm frame h = cc
