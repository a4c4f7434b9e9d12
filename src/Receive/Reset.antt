-- ===== src/Receive/Reset.antt =====
-- The end of listening, `_reset_receive_transport_state` of discord/ext/native_voice/client.py. The
-- call that stops the retry thread is left out.
use discord_native_voice.Prelude.{ℕ, List, [], ◌∷◌, ℕ-eq}
use discord_native_voice.Prelude.Dict.{Dict, Pair-eq}
use discord_native_voice.Reorder.{Buffer}
use discord_native_voice.Totals.{record_video_reorder_stats}
use discord_native_voice.Receive.{Receiver}

abbrev pub values : Dict (ℕ × ℕ) Buffer → List Buffer
values [] = []
values ((key, b) ∷ buffers) = b ∷ values buffers

module _ {D : Type 0} where
  unfoldable pub reset_receive_transport_state : Receiver D → Receiver D
  unfolding record_video_reorder_stats
  reset_receive_transport_state r = record r {
    tracker = record r.tracker {
      stats = record_video_reorder_stats (values r.reorder_buffers) r.tracker.stats;
      last_sequences = [];
      pending_nacks = [];
    };
    depacketizers = [];
    reorder_buffers = [];
    startup_plis = [];
    frame_rtp_packets = [];
    pending_dave_video_frames = [];
  }
