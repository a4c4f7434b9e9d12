-- ===== src/Send/Cache.antt =====
-- The cached frames of a stream always start with a keyframe (discord/ext/native_voice/client.py).
use mathlib.Core.Path.{subst}
use discord_native_voice.Prelude.{
  ℕ, ◌≤◌, ◌≡◌, refl, sym, max, Bool, true, false, Option, none, some, List, [], ◌∷◌, ◌++◌, length,
  length-append, leb, arith, ℕ-eq, Bool-cases, inl, inr, if◌then◌else◌,
}
use discord_native_voice.Prelude.Dict.{
  get, put, erase, get-erase, IsUnique, IsUnique-put, IsUnique-erase, EveryEntry, EveryEntry-put,
}
use discord_native_voice.Rtp.{Codec}
use discord_native_voice.Send.Keyframe.{IsConfigKeyframe, is_config_keyframe-IsConfigKeyframe}
use discord_native_voice.Send.{
  CachedFrame, KeyframeCache, is_config_keyframe, append_cached, cache_with, cache_video_frame,
}

-- The first frame has the units of a keyframe and of its parameter sets.
abbrev pub StartsWithKeyframe : Codec → List CachedFrame → Type 0
StartsWithKeyframe codec [] = ⊥
StartsWithKeyframe codec (frame ∷ frames) = IsConfigKeyframe codec frame.0

pub record IsReplay (codec : Codec) (limit : ℕ) (frames : List CachedFrame) : Type 0 where
  pub starts : StartsWithKeyframe codec frames
  pub bounded : length frames ≤ max 1 limit

-- Every SSRC is listed once, with frames that can be replayed.
pub record IsCache (codec : Codec) (c : KeyframeCache) : Type 0 where
  pub one_list : IsUnique c.keyframes
  pub replays : EveryEntry (IsReplay codec c.max_frames) c.keyframes

StartsWithKeyframe-append :
    (codec : Codec) (frames more : List CachedFrame)
    → StartsWithKeyframe codec frames
    → StartsWithKeyframe codec (frames ++ more)
StartsWithKeyframe-append codec [] more h = absurd h
StartsWithKeyframe-append codec (frame ∷ frames) more h = h

put-IsCache :
    (codec : Codec) (ssrc : ℕ) (frames : List CachedFrame) (c : KeyframeCache)
    → IsReplay codec c.max_frames frames
    → IsCache codec c
    → IsCache codec (record c { keyframes = put ssrc frames c.keyframes })
put-IsCache codec ssrc frames c ok h = record {
  one_list = IsUnique-put ssrc frames c.keyframes h.one_list;
  replays = EveryEntry-put (IsReplay codec c.max_frames) ssrc frames c.keyframes h.replays ok;
}

erase-IsCache :
    (codec : Codec) (ssrc : ℕ) (c : KeyframeCache)
    → IsCache codec c
    → IsCache codec (record c { keyframes = erase ssrc c.keyframes })
erase-IsCache codec ssrc c h = record {
  one_list = IsUnique-erase ssrc c.keyframes h.one_list;
  replays =
      λ k frames g. h.replays k frames (ground (arith, get-erase ssrc k c.keyframes h.one_list));
}

append_cached-IsCache :
    (codec : Codec) (ssrc : ℕ) (frame : CachedFrame) (found : Option (List CachedFrame))
    (c : KeyframeCache)
    → get ssrc c.keyframes ≡ found
    → IsCache codec c
    → IsCache codec (append_cached ssrc frame found c)
unfolding append_cached
append_cached-IsCache codec ssrc frame none c e h = h
append_cached-IsCache codec ssrc frame (some frames) c e h =
    let old = h.replays ssrc frames e in
    elim (Bool-cases (leb (max 1 c.max_frames) (length frames))) [
      | inl full ↦ rw full (erase-IsCache codec ssrc c h)
      | inr fits ↦ rw fits (
          put-IsCache codec ssrc (frames ++ (frame ∷ [])) c
            (record {
              starts = StartsWithKeyframe-append codec frames (frame ∷ []) old.starts;
              bounded = ground (arith, length-append frames (frame ∷ []));
            })
            h)
    ]

if-IsCache :
    (codec : Codec) (b : Bool) (c c' : KeyframeCache)
    → IsCache codec c
    → IsCache codec c'
    → IsCache codec (if b then c else c')
if-IsCache codec true c c' h h' = h
if-IsCache codec false c c' h h' = h'

cache_with-IsCache :
    (codec : Codec) (ssrc : ℕ) (frame : CachedFrame) (c : KeyframeCache)
    → IsCache codec c
    → IsCache codec (cache_with ssrc frame (some codec) c)
unfolding cache_with
cache_with-IsCache codec ssrc frame c h =
    if-IsCache codec c.replay_active c _ h (elim (Bool-cases (is_config_keyframe codec frame.0)) [
      | inl key ↦ rw key (
          put-IsCache codec ssrc (frame ∷ []) c
            (record {
              starts = is_config_keyframe-IsConfigKeyframe codec frame.0 key;
              bounded = omega arith;
            })
            h)
      | inr other ↦
          rw other (append_cached-IsCache codec ssrc frame (get ssrc c.keyframes) c refl h)
    ])

-- While frames of one codec are cached, every cached list can be replayed: its first frame has, each
-- behind a start code, a sequence and a picture parameter set and a slice of an IDR picture (H.264), or
-- a video, a sequence and a picture parameter set and a slice of a random access picture (H.265). It has no more frames than the setting allows, one at least.
pub cache_video_frame-IsCache :
    (codec : Codec) (ssrc : ℕ) (frame : CachedFrame) (c : KeyframeCache)
    → c.codec ≡ some codec
    → IsCache codec c
    → IsCache codec (cache_video_frame ssrc frame c)
unfolding cache_video_frame
cache_video_frame-IsCache codec ssrc frame c e h =
    subst (λ o. IsCache codec (cache_with ssrc frame o c)) (sym e)
      (cache_with-IsCache codec ssrc frame c h)
