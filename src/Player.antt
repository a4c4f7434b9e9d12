-- ===== src/Player.antt =====
-- `MediaPlayer` of discord/ext/native_voice/player.py: its statistics, its pacing, and the rounds of
-- its loop that send video. Times are microseconds of the monotonic clock; what a source and the
-- client answer is an argument, and so is each reading of the clock.
pub mod Pacing
mod Tests
use discord_native_voice.Prelude.{
  ℕ, zero, suc, ◌+◌, ◌-◌, ◌*◌, ◌/◌, ◌%◌, ◌≤◌, ◌<◌, min, max, ◌≡◌, refl, Bool, true, false, not,
  ◌||◌, ◌&&◌, Option, none, some, List, [], ◌∷◌, ◌++◌, length, drop, get_elem?, ltb, leb, nat_eq,
  is_empty, if◌then◌else◌,
}

-- The counters of the player. `intervals` is a deque of at most 2048 samples.
pub record PlayerStats : Type 0 where
  pub audio_frames_sent : ℕ
  pub audio_send_total : ℕ
  pub audio_send_max : ℕ
  pub video_frame_batches_sent : ℕ
  pub video_frames_sent : ℕ
  pub video_packets_sent : ℕ
  pub video_send_total : ℕ
  pub video_send_max : ℕ
  pub last_video_send_started_at : Option ℕ
  pub intervals : List ℕ
  pub late_video_frames : ℕ
  pub max_video_late : ℕ
  pub sleep_count : ℕ
  pub sleep_total : ℕ
  pub sleep_max : ℕ

abbrev pub interval_limit : ℕ
interval_limit = 2048

-- `_record_audio_send`
unfoldable pub record_audio_send : ℕ → PlayerStats → PlayerStats
record_audio_send elapsed s = record s {
  audio_frames_sent = s.audio_frames_sent + 1;
  audio_send_total = s.audio_send_total + elapsed;
  audio_send_max = max s.audio_send_max elapsed;
}

-- `deque(maxlen=2048).append`
abbrev pub append_limited : ℕ → List ℕ → List ℕ
append_limited n samples =
    let longer = samples ++ (n ∷ []) in drop (length longer - interval_limit) longer

-- The samples after a send; none is added if the clock went back
abbrev pub add_interval : ℕ → Option ℕ → List ℕ → List ℕ
add_interval started_at none samples = samples
add_interval started_at (some before) samples =
    if leb before started_at then append_limited (started_at - before) samples else samples

-- `_record_video_send`
unfoldable pub record_video_send : ℕ → ℕ → ℕ → ℕ → PlayerStats → PlayerStats
record_video_send started_at elapsed frames packets s = record s {
  intervals = add_interval started_at s.last_video_send_started_at s.intervals;
  last_video_send_started_at = some started_at;
  video_frame_batches_sent = s.video_frame_batches_sent + 1;
  video_frames_sent = s.video_frames_sent + frames;
  video_packets_sent = s.video_packets_sent + packets;
  video_send_total = s.video_send_total + elapsed;
  video_send_max = max s.video_send_max elapsed;
}

-- `_record_video_late`: less than a millisecond does not count
unfoldable pub record_video_late : ℕ → PlayerStats → PlayerStats
record_video_late elapsed s = if ltb elapsed 1000 then s else record s {
  late_video_frames = s.late_video_frames + 1;
  max_video_late = max s.max_video_late elapsed;
}

-- `_sleep`, of a measured length
unfoldable pub record_sleep : ℕ → PlayerStats → PlayerStats
record_sleep elapsed s = record s {
  sleep_count = s.sleep_count + 1;
  sleep_total = s.sleep_total + elapsed;
  sleep_max = max s.sleep_max elapsed;
}

-- `sorted(samples)`
unfoldable pub insert : ℕ → List ℕ → List ℕ
insert n [] = n ∷ []
insert n (m ∷ ms) = if leb n m then n ∷ m ∷ ms else m ∷ insert n ms

unfoldable pub sorted : List ℕ → List ℕ
unfolding insert
sorted [] = []
sorted (n ∷ ns) = insert n (sorted ns)

abbrev pub elem_or : Option ℕ → ℕ
elem_or none = 0
elem_or (some n) = n

-- `_video_send_interval_p95_ms`
unfoldable pub video_send_interval_p95 : List ℕ → ℕ
unfolding sorted
video_send_interval_p95 samples =
    let ordered = sorted samples in
    elem_or (get_elem? ordered (min (length ordered - 1) ((length ordered - 1) * 95 / 100)))

-- `_next_video_time`, at a reading of the clock; a frame lasts a microsecond or more
unfoldable pub next_video_time : Bool → ℕ → ℕ → ℕ → ℕ
next_video_time realtime now next_video frame_time =
    let target = next_video + frame_time in
    if realtime
    then (if leb now target
        then target
        else if ltb (frame_time * 2) (now - target)
        then now + frame_time
        else target + ((now - target) / frame_time + 1) * frame_time)
    else if ltb frame_time (now - target)
    then now
    else target

-- `_video_retry_delay` of a source that gives a number
unfoldable pub video_retry_delay : Option ℕ → ℕ
video_retry_delay none = 20_000
video_retry_delay (some delay) = max 1000 (min delay 20_000)

-- `_video_catchup_frames`, with nothing for a value that is no number
abbrev pub catchup_of : Option ℕ → ℕ
catchup_of none = 4
catchup_of (some frames) = max 1 (min frames 16)

unfoldable pub video_catchup_frames : Bool → Option ℕ → ℕ
video_catchup_frames realtime frames = if not realtime then 1 else catchup_of frames

-- What a round of the video loop reads: the clock, whether the transport has started, the player has
-- been stopped, there are streams, keyframes have been sent again; the frames' durations, nothing at
-- the end of the source; the number of packets sent; the clock around the sending and after it.
pub record VideoRound : Type 0 where
  pub now : ℕ
  pub transport_started : Bool
  pub ended : Bool
  pub has_streams : Bool
  pub keyframes_sent : Bool
  pub frames : Option (List ℕ)
  pub packets : ℕ
  pub send_started : ℕ
  pub send_ended : ℕ
  pub after : ℕ

-- `video_realtime`, `video_config.fps`, `video_retry_delay` and `video_catchup_frames` of a source
pub record VideoSettings : Type 0 where
  pub realtime : Bool
  pub fps : Option ℕ
  pub retry_delay : Option ℕ
  pub catchup_frames : Option ℕ

pub record VideoState : Type 0 where
  pub next_video : ℕ
  pub video_done : Bool
  pub stopped : Bool
  pub stats : PlayerStats

-- 1 second divided by `max(1, fps)`, in whole microseconds
abbrev pub frame_time_of : ℕ → ℕ
frame_time_of fps = 1_000_000 / max 1 fps

abbrev pub config_frame_time : Option ℕ → ℕ
config_frame_time none = 20_000
config_frame_time (some fps) = frame_time_of fps

abbrev pub largest : List ℕ → ℕ
largest [] = 0
largest (n ∷ ns) = max n (largest ns)

-- `_video_pacing_time`
abbrev pub pacing_of : Bool → Option ℕ → List ℕ → ℕ
pacing_of true (some fps) frames = frame_time_of fps
pacing_of _ _ frames = max 1 (largest frames)

unfoldable pub video_pacing_time : VideoSettings → List ℕ → ℕ
video_pacing_time settings frames = pacing_of settings.realtime settings.fps frames

abbrev pub later : ℕ → VideoState → VideoState
later next_video v = record v { next_video = next_video }

-- A round that reaches the source's frames: whether the loop goes on, and the state
unfoldable pub send_frames :
    VideoSettings → VideoRound → Option (List ℕ) → VideoState → Bool × VideoState
unfolding record_video_send next_video_time video_pacing_time video_retry_delay
send_frames settings round none v = (false, record v { video_done = true })
send_frames settings round (some []) v =
    (false, later (round.after + video_retry_delay settings.retry_delay) v)
send_frames settings round (some (frame ∷ frames)) v = (
  true,
  record v {
    stats =
        record_video_send round.send_started (round.send_ended - round.send_started)
          (length (frame ∷ frames)) round.packets v.stats;
    next_video =
        next_video_time settings.realtime round.after v.next_video
          (video_pacing_time settings (frame ∷ frames));
  },
)

-- A round that is due
unfoldable pub due_round : VideoSettings → VideoRound → VideoState → Bool × VideoState
unfolding send_frames next_video_time
due_round settings round v =
    if not round.transport_started
    then (false, later (round.after + 20_000) v)
    else if round.ended
    then (false, record v { stopped = true })
    else if not round.has_streams
    then (false, later (round.after + 20_000) v)
    else if round.keyframes_sent
    then (
      false,
      later
          (next_video_time settings.realtime round.after v.next_video
            (config_frame_time settings.fps))
          v,
    )
    else send_frames settings round round.frames v

-- A round of the loop `for index in range(...)`; `audio_due` is the time of the next audio frame
abbrev pub audio_is_due : Option ℕ → ℕ → Bool
audio_is_due none now = false
audio_is_due (some due) now = leb due now

unfoldable pub video_round :
    VideoSettings → Option ℕ → ℕ → VideoRound → VideoState → Bool × VideoState
unfolding due_round record_video_late
video_round settings audio_due index round v =
    if ltb round.now v.next_video
    then (false, v)
    else if ltb 0 index && audio_is_due audio_due round.now
    then (false, v)
    else if ltb v.next_video round.now
    then due_round settings round
        (record v { stats = record_video_late (round.now - v.next_video) v.stats })
    else due_round settings round v

-- The loop, on the rounds that it would read; it takes `count` of them at most
unfoldable pub video_rounds :
    VideoSettings → Option ℕ → ℕ → ℕ → List VideoRound → VideoState → VideoState
unfolding video_round
video_rounds settings audio_due zero index rounds v = v
video_rounds settings audio_due (suc count) index [] v = v
video_rounds settings audio_due (suc count) index (round ∷ rounds) v =
    let result = video_round settings audio_due index round v in
    let rest = video_rounds settings audio_due count (index + 1) rounds result.1 in
    if result.0 then rest else result.1

-- The video part of a turn of `_do_run`, at a reading of the clock
unfoldable pub video_turn : VideoSettings → Option ℕ → ℕ → List VideoRound → VideoState → VideoState
unfolding video_rounds video_catchup_frames
video_turn settings audio_due now rounds v =
    let count = video_catchup_frames settings.realtime settings.catchup_frames in
    if not v.video_done && leb v.next_video now
    then video_rounds settings audio_due count 0 rounds v
    else v

-- The delay at the end of a turn: the time to what is next, at most 20 ms, or 20 ms if there is
-- nothing to wait for
abbrev pub earliest : Option ℕ → Option ℕ → Option ℕ
earliest none none = none
earliest (some audio) none = some audio
earliest none (some video) = some video
earliest (some audio) (some video) = some (min audio video)

abbrev pub wait_until : ℕ → Option ℕ → ℕ
wait_until now none = 20_000
wait_until now (some wakeup) = wakeup - now

unfoldable pub turn_delay : ℕ → Option ℕ → Option ℕ → ℕ
turn_delay now next_audio next_video = min (wait_until now (earliest next_audio next_video)) 20_000
