-- ===== src/Send/Tests.antt =====
-- The theorems on the send side (discord/ext/native_voice/client.py) at two streams and a frame.
use discord_native_voice.Prelude.{◌≤◌, ◌≡◌, refl, true, false, some, none, [], ◌∷◌, All, elem, ℕ-eq}
use discord_native_voice.Prelude.Dict.{get}
use discord_native_voice.Prelude.Bytes.{Bytes}
use discord_native_voice.Rtp.{h264}
use discord_native_voice.Reports.{Reports}
use discord_native_voice.Send.{
  VoiceStream, SinkWants, KeyframeCache, select_active_video_streams, is_config_keyframe,
  cache_video_frame,
}
use discord_native_voice.Send.Select.{IsSelection, select_active-IsSelection, select_active_highest}
use discord_native_voice.Send.Cache.{IsCache, cache_video_frame-IsCache}

abbrev full : VoiceStream
full = record { ssrc = some 7; rid = "100"; quality = 100; active = true }

abbrev half : VoiceStream
half = record { ssrc = some 9; rid = "50"; quality = 50; active = true }

abbrev wants : SinkWants
wants = record { received = false; wants = []; any = none }

abbrev reports : Reports
reports = record {
  states = [];
  sender_reports = [];
  sender_report_lsr = [];
  receiver_reports = [];
  interval = 1000000;
  ttl = 5000000;
}

select_active-IsSelection_example :
    IsSelection
      (half ∷ full ∷ [])
      (select_active_video_streams true 5 wants half (full ∷ []) reports).0
select_active-IsSelection_example = select_active-IsSelection true 5 wants half (full ∷ []) reports

select_active_highest_example :
    (best : VoiceStream) × (((select_active_video_streams false 5 wants half (full ∷ []) reports).0
        ≡ best ∷ [])
      × All (λ s. s.quality ≤ best.quality) (half ∷ full ∷ []))
select_active_highest_example = select_active_highest 5 wants half (full ∷ []) reports

-- Parameter sets of types 7 and 8, then a slice of type 5.
abbrev keyframe : Bytes
keyframe = 0 ∷ 0 ∷ 0 ∷ 1 ∷ 0x67 ∷ 9 ∷ 0 ∷ 0 ∷ 1 ∷ 0x68 ∷ 9 ∷ 0 ∷ 0 ∷ 0 ∷ 1 ∷ 0x65 ∷ 9 ∷ []

keyframe_is_found : is_config_keyframe h264 keyframe ≡ true
unfolding is_config_keyframe elem
keyframe_is_found = refl

abbrev empty_cache : KeyframeCache
empty_cache = record { codec = some h264; replay_active = false; max_frames = 4; keyframes = [] }

empty_cache-IsCache : IsCache h264 empty_cache
unfolding get
empty_cache-IsCache = record { one_list = tt; replays = λ k frames g. cc }

cache_video_frame-IsCache_example :
    IsCache h264 (cache_video_frame 7 (keyframe, 33000, full) empty_cache)
cache_video_frame-IsCache_example =
    cache_video_frame-IsCache h264 7 (keyframe, 33000, full) empty_cache refl empty_cache-IsCache
