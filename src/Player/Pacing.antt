-- ===== src/Player/Pacing.antt =====
-- When the next video frame is due, and how many are sent in a turn.
use discord_native_voice.Prelude.{
  ℕ, zero, suc, ◌+◌, ◌-◌, ◌*◌, ◌/◌, ◌≤◌, ◌<◌, max, ◌≡◌, refl, sym, ap, ◌∙◌, Bool, true, false, not,
  ◌&&◌, inl, inr, Option, none, some, List, [], ◌∷◌, ◌++◌, length, length-drop, ltb, leb, arith,
  Bool-cases, if◌then◌else◌,
}
use mathlib.Core.Path.{subst}
use native.Mathlib.Nat.{div-mul-le_self, lt-div-mul-add, add-mul, one-mul}
use discord_native_voice.Player.{
  PlayerStats, append_limited, add_interval, record_video_send, record_video_late, next_video_time,
  VideoRound, VideoSettings, VideoState, send_frames, due_round, video_round, video_rounds,
  video_turn, video_catchup_frames, catchup_of, audio_is_due,
}

-- A real-time source is not allowed to lag at all, another one by at most a frame.
abbrev pub slack : Bool → ℕ → ℕ
slack true frame_time = 0
slack false frame_time = frame_time

-- The next frame is due no earlier than a frame's duration after the one before, and lies behind the
-- clock by at most the slack. It is put no further ahead of the clock than a frame's duration, unless
-- the frame before was due later already.
pub next_video_time_lem :
    (realtime : Bool) (now next_video frame_time : ℕ)
    → 0 < frame_time
    → (next_video + frame_time ≤ next_video_time realtime now next_video frame_time)
      × (now ≤ next_video_time realtime now next_video frame_time + slack realtime frame_time)
      × (next_video_time realtime now next_video frame_time
          ≤ max (next_video + frame_time) (now + frame_time))
unfolding next_video_time
next_video_time_lem false now next_video frame_time h = ground arith
next_video_time_lem true now next_video frame_time h =
    let behind = now - (next_video + frame_time) in
    let above = lt-div-mul-add {a = behind} {b = frame_time} h in
    let below = div-mul-le_self behind frame_time in
    let product : (behind / frame_time + 1) * frame_time
        ≡ behind / frame_time * frame_time + frame_time =
      add-mul (behind / frame_time) 1 frame_time
      ∙ ap (λ x. behind / frame_time * frame_time + x) (one-mul frame_time) in
    ground (arith, above, below, product)

-- The counters agree: no more intervals than the deque holds, at least one frame in each batch, and
-- no single send longer than all together.
pub record IsStats (s : PlayerStats) : Type 0 where
  pub limited : length s.intervals ≤ 2048
  pub filled : s.video_frame_batches_sent ≤ s.video_frames_sent
  pub video_within : s.video_send_max ≤ s.video_send_total
  pub audio_within : s.audio_send_max ≤ s.audio_send_total
  pub sleep_within : s.sleep_max ≤ s.sleep_total

append_limited_lem : (n : ℕ) (samples : List ℕ) → length (append_limited n samples) ≤ 2048
append_limited_lem n samples =
    let longer = samples ++ (n ∷ []) in omega (arith, length-drop (length longer - 2048) longer)

add_interval_lem :
    (started_at : ℕ) (before : Option ℕ) (samples : List ℕ)
    → length samples ≤ 2048
    → length (add_interval started_at before samples) ≤ 2048
add_interval_lem started_at none samples h = h
add_interval_lem started_at (some before) samples h = elim (Bool-cases (leb before started_at)) [
  | inl e ↦ rw e (append_limited_lem (started_at - before) samples)
  | inr e ↦ rw e h
]

record_video_send-IsStats :
    (started_at elapsed frames packets : ℕ) (s : PlayerStats)
    → 0 < frames
    → IsStats s
    → IsStats (record_video_send started_at elapsed frames packets s)
unfolding record_video_send
record_video_send-IsStats started_at elapsed frames packets s some_frames h = record {
  limited = add_interval_lem started_at s.last_video_send_started_at s.intervals h.limited;
  filled = omega arith;
  video_within = omega arith;
  audio_within = h.audio_within;
  sleep_within = h.sleep_within;
}

-- What a turn keeps, with so many batches more at most.
pub record IsTurn (batches : ℕ) (v : VideoState) : Type 0 where
  pub stats_IsStats : IsStats v.stats
  pub batches_within : v.stats.video_frame_batches_sent ≤ batches

-- A round's outcome: a round that goes on has sent a batch, one that breaks off has not.
abbrev pub IsOutcome : ℕ → Bool × VideoState → Type 0
IsOutcome batches (true, v) = IsTurn (batches + 1) v
IsOutcome batches (false, v) = IsTurn batches v

if-IsOutcome :
    (b : Bool) (batches : ℕ) (o o' : Bool × VideoState)
    → IsOutcome batches o
    → IsOutcome batches o'
    → IsOutcome batches (if b then o else o')
if-IsOutcome true batches o o' h h' = h
if-IsOutcome false batches o o' h h' = h'

send_frames-IsOutcome :
    (settings : VideoSettings) (round : VideoRound) (frames : Option (List ℕ)) (batches : ℕ)
    (v : VideoState)
    → IsTurn batches v
    → IsOutcome batches (send_frames settings round frames v)
unfolding send_frames record_video_send
send_frames-IsOutcome settings round none batches v h = record {
  stats_IsStats = h.stats_IsStats;
  batches_within = h.batches_within;
}
send_frames-IsOutcome settings round (some []) batches v h = record {
  stats_IsStats = h.stats_IsStats;
  batches_within = h.batches_within;
}
send_frames-IsOutcome settings round (some (frame ∷ frames)) batches v h = record {
  stats_IsStats =
      record_video_send-IsStats round.send_started (round.send_ended - round.send_started)
        (length (frame ∷ frames)) round.packets v.stats (omega arith) h.stats_IsStats;
  batches_within = omega (arith, h.batches_within);
}

keeps :
    (v v' : VideoState) (batches : ℕ) → v'.stats ≡ v.stats → IsTurn batches v → IsTurn batches v'
keeps v v' batches e h = record {
  stats_IsStats = subst IsStats (sym e) h.stats_IsStats;
  batches_within = omega (arith, h.batches_within, ap (λ s. s.video_frame_batches_sent) e);
}

due_round-IsOutcome :
    (settings : VideoSettings) (round : VideoRound) (batches : ℕ) (v : VideoState)
    → IsTurn batches v
    → IsOutcome batches (due_round settings round v)
unfolding due_round
due_round-IsOutcome settings round batches v h =
    if-IsOutcome (not round.transport_started) batches _ _ (keeps v _ batches refl h) (
      if-IsOutcome round.ended batches _ _ (keeps v _ batches refl h) (
        if-IsOutcome (not round.has_streams) batches _ _ (keeps v _ batches refl h) (
          if-IsOutcome round.keyframes_sent batches _ _ (keeps v _ batches refl h)
            (send_frames-IsOutcome settings round round.frames batches v h))))

late-IsTurn :
    (elapsed batches : ℕ) (v : VideoState)
    → IsTurn batches v
    → IsTurn batches (record v { stats = record_video_late elapsed v.stats })
unfolding record_video_late
late-IsTurn elapsed batches v h = elim (Bool-cases (ltb elapsed 1000)) [
  | inl e ↦ rw e h
  | inr e ↦ rw e (record {
    stats_IsStats = record {
      limited = h.stats_IsStats.limited;
      filled = h.stats_IsStats.filled;
      video_within = h.stats_IsStats.video_within;
      audio_within = h.stats_IsStats.audio_within;
      sleep_within = h.stats_IsStats.sleep_within;
    };
    batches_within = h.batches_within;
  })
]

video_round-IsOutcome :
    (settings : VideoSettings) (audio_due : Option ℕ) (index batches : ℕ) (round : VideoRound)
    (v : VideoState)
    → IsTurn batches v
    → IsOutcome batches (video_round settings audio_due index round v)
unfolding video_round
video_round-IsOutcome settings audio_due index batches round v h =
    let due = due_round-IsOutcome settings round batches v h in
    let late_v = record v { stats = record_video_late (round.now - v.next_video) v.stats } in
    let late =
      due_round-IsOutcome settings round batches late_v
        (late-IsTurn (round.now - v.next_video) batches v h) in
    let waits = ltb 0 index && audio_is_due audio_due round.now in
    if-IsOutcome (ltb round.now v.next_video) batches (false, v) _ h
      (if-IsOutcome waits batches (false, v) _ h
        (if-IsOutcome (ltb v.next_video round.now) batches (due_round settings round late_v)
          (due_round settings round v) late due))

IsTurn-more :
    (batches more : ℕ) (v : VideoState) → batches ≤ more → IsTurn batches v → IsTurn more v
IsTurn-more batches more v le h = record {
  stats_IsStats = h.stats_IsStats;
  batches_within = omega (arith, h.batches_within);
}

after_outcome :
    (batches count : ℕ) (rest : VideoState → VideoState)
    → ((v : VideoState) → IsTurn (batches + 1) v → IsTurn (batches + 1 + count) (rest v))
    → (o : Bool × VideoState) → IsOutcome batches o
    → IsTurn (batches + suc count) (if o.0 then rest o.1 else o.1)
after_outcome batches count rest ih (true, v) h =
    IsTurn-more (batches + 1 + count) (batches + suc count) (rest v) (omega arith) (ih v h)
after_outcome batches count rest ih (false, v) h =
    IsTurn-more batches (batches + suc count) v (omega arith) h

if-IsTurn :
    (b : Bool) (batches : ℕ) (v v' : VideoState)
    → IsTurn batches v
    → IsTurn batches v'
    → IsTurn batches (if b then v else v')
if-IsTurn true batches v v' h h' = h
if-IsTurn false batches v v' h h' = h'

video_rounds-IsTurn :
    (settings : VideoSettings) (audio_due : Option ℕ) (count index batches : ℕ)
    (rounds : List VideoRound) (v : VideoState)
    → IsTurn batches v
    → IsTurn (batches + count) (video_rounds settings audio_due count index rounds v)
unfolding video_rounds
video_rounds-IsTurn settings audio_due zero index batches rounds v h =
    IsTurn-more _ _ v (omega arith) h
video_rounds-IsTurn settings audio_due (suc count) index batches [] v h =
    IsTurn-more _ _ v (omega arith) h
video_rounds-IsTurn settings audio_due (suc count) index batches (round ∷ rounds) v h =
    after_outcome batches count (λ v'. video_rounds settings audio_due count (index + 1) rounds v')
      (λ v' h'. video_rounds-IsTurn settings audio_due count (index + 1) (batches + 1) rounds v' h')
      (video_round settings audio_due index round v)
      (video_round-IsOutcome settings audio_due index batches round v h)

catchup_of-bounds : (o : Option ℕ) → (1 ≤ catchup_of o) × (catchup_of o ≤ 16)
catchup_of-bounds none = omega arith
catchup_of-bounds (some frames) = omega arith

-- The batches that a turn may send.
abbrev pub turn_limit : Bool → ℕ
turn_limit true = 16
turn_limit false = 1

video_catchup_frames_lem :
    (realtime : Bool) (frames : Option ℕ)
    → video_catchup_frames realtime frames ≤ turn_limit realtime
unfolding video_catchup_frames
video_catchup_frames_lem true frames = (catchup_of-bounds frames).1
video_catchup_frames_lem false frames = omega arith

-- Whatever the source and the client answer, a turn of the player keeps its counters in agreement,
-- and sends one batch of frames at most, or 16 of a real-time source.
pub video_turn-IsTurn :
    (settings : VideoSettings) (audio_due : Option ℕ) (now : ℕ) (rounds : List VideoRound)
    (v : VideoState)
    → IsStats v.stats
    → IsTurn
        (v.stats.video_frame_batches_sent + turn_limit settings.realtime)
        (video_turn settings audio_due now rounds v)
unfolding video_turn
video_turn-IsTurn settings audio_due now rounds v h =
    let batches = v.stats.video_frame_batches_sent in
    let start : IsTurn batches v = record { stats_IsStats = h; batches_within = omega arith } in
    let count = video_catchup_frames settings.realtime settings.catchup_frames in
    if-IsTurn (not v.video_done && leb v.next_video now) _ _ _
      (IsTurn-more (batches + count) _ _
        (omega (arith, video_catchup_frames_lem settings.realtime settings.catchup_frames))
        (video_rounds-IsTurn settings audio_due count 0 batches rounds v start))
      (IsTurn-more batches _ v (omega arith) start)
