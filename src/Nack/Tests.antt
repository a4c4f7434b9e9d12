-- ===== src/Nack/Tests.antt =====
-- Runs of the loss tracking (discord/ext/native_voice/client.py), and its theorems at them.
use discord_native_voice.Prelude.{◌≡◌, refl, false, true, [], length, dedup, elem, select}
use discord_native_voice.Prelude.Dict.{get, put, erase}
use discord_native_voice.Rtp.Sequence.{sequence_delta}
use discord_native_voice.Feedback.{send_rtcp_nack}
use discord_native_voice.Nack.{Tracker, track_video_receive_sequence, retry_pending_video_nacks}
use discord_native_voice.Nack.Valid.{IsValid}
use discord_native_voice.Nack.Track.{Reach-IsValid, next, stay, arrive, tick}

abbrev new_tracker : Tracker
new_tracker = record {
  rtx_enabled = true;
  ssrc = 1;
  last_sequences = [];
  pending_nacks = [];
  stats = record { enabled = false; counts = [] };
  sent = [];
}

new_tracker-IsValid : IsValid new_tracker
unfolding get
new_tracker-IsValid = record { one_table = tt; tables = λ k d g. cc; lasts = λ k s g. cc }

-- Packet 10, then 13: 11 and 12 are missing.
abbrev gap_tracker : Tracker
gap_tracker =
    track_video_receive_sequence 7 13 false 5
      (track_video_receive_sequence 7 10 false 0 new_tracker)

gap_is_asked_for : length gap_tracker.sent ≡ 1
unfolding track_video_receive_sequence get put erase select elem dedup sequence_delta send_rtcp_nack
gap_is_asked_for = refl

Reach-IsValid_example : IsValid (retry_pending_video_nacks 7 100005 gap_tracker)
Reach-IsValid_example =
    Reach-IsValid
      (next (arrive 7 10 false 0) (next (arrive 7 13 false 5) (next (tick 7 100005) stay)))
      new_tracker-IsValid
