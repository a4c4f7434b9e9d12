-- ===== src/Player/Tests.antt =====
-- The pacing of the player at concrete times.
use discord_native_voice.Prelude.{
  ℕ, ◌+◌, ◌≤◌, ◌≡◌, refl, max, true, false, none, some, List, [], ◌∷◌, arith,
}
use discord_native_voice.Player.{
  PlayerStats, VideoRound, VideoSettings, VideoState, next_video_time, video_turn,
  video_send_interval_p95, turn_delay,
}
use discord_native_voice.Player.Pacing.{
  slack, next_video_time_lem, IsStats, IsTurn, video_turn-IsTurn,
}

abbrev no_stats : PlayerStats
no_stats = record {
  audio_frames_sent = 0;
  audio_send_total = 0;
  audio_send_max = 0;
  video_frame_batches_sent = 0;
  video_frames_sent = 0;
  video_packets_sent = 0;
  video_send_total = 0;
  video_send_max = 0;
  last_video_send_started_at = none;
  intervals = [];
  late_video_frames = 0;
  max_video_late = 0;
  sleep_count = 0;
  sleep_total = 0;
  sleep_max = 0;
}

-- A round that sends a frame of 33 ms in three packets.
abbrev sending_at : ℕ → VideoRound
sending_at now = record {
  now = now;
  transport_started = true;
  ended = false;
  has_streams = true;
  keyframes_sent = false;
  frames = some (33_000 ∷ []);
  packets = 3;
  send_started = now;
  send_ended = now + 500;
  after = now + 600;
}

abbrev live : VideoSettings
live = record { realtime = true; fps = some 30; retry_delay = none; catchup_frames = some 20 }

abbrev fresh : VideoState
fresh = record { next_video = 0; video_done = false; stopped = false; stats = no_stats }

abbrev rounds : List VideoRound
rounds = sending_at 70_000 ∷ sending_at 71_000 ∷ sending_at 110_000 ∷ []

-- The first round is late by 70 ms, the second comes before the next frame is due.
turn_sends_once : (video_turn live none 70_000 rounds fresh).stats.video_frames_sent ≡ 1
unfolding video_turn
turn_sends_once = refl

turn_next : (video_turn live none 70_000 rounds fresh).next_video ≡ 99_999
unfolding video_turn
turn_next = refl

p95_of_four : video_send_interval_p95 (30 ∷ 10 ∷ 40 ∷ 20 ∷ []) ≡ 30
unfolding video_send_interval_p95
p95_of_four = refl

delay_to_audio : turn_delay 1000 (some 6000) (some 9000) ≡ 5000
unfolding turn_delay
delay_to_audio = refl

next_video_time_lem_example :
    (0 + 33_333 ≤ next_video_time true 70_000 0 33_333)
    × (70_000 ≤ next_video_time true 70_000 0 33_333 + slack true 33_333)
    × (next_video_time true 70_000 0 33_333 ≤ max (0 + 33_333) (70_000 + 33_333))
next_video_time_lem_example = next_video_time_lem true 70_000 0 33_333 (omega arith)

no_stats-IsStats : IsStats no_stats
no_stats-IsStats = omega arith

video_turn-IsTurn_example : IsTurn 16 (video_turn live none 70_000 rounds fresh)
video_turn-IsTurn_example = video_turn-IsTurn live none 70_000 rounds fresh no_stats-IsStats
