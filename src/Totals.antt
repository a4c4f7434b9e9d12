-- ===== src/Totals.antt =====
-- The statistics that a client shows, in discord/ext/native_voice/client.py: the latest packet sent of
-- each SSRC, and the counters of the reorder buffers added up.
use discord_native_voice.Prelude.{
  ℕ, ◌+◌, ◌%◌, Option, none, some, List, [], ◌∷◌, max, ℕ-eq, if◌then◌else◌,
}
use discord_native_voice.Prelude.Dict.{Dict, get, put}
use discord_native_voice.Rtp.{RtpSendStats}
use discord_native_voice.Counter.{record_stat, record_max_stat}
use discord_native_voice.Counter.{Stats as Counters}
use discord_native_voice.Reorder.{Stats, Buffer, no_stats}

abbrev pub low_half : Option ℕ → Option ℕ
low_half none = none
low_half (some n) = some (n % 65536)

-- `_record_rtp_send_stats`
unfoldable pub record_rtp_send_stats :
    ℕ → ℕ → Option ℕ → ℕ → Dict ℕ RtpSendStats → Dict ℕ RtpSendStats
record_rtp_send_stats ssrc sequence transport_sequence now stats =
    put ssrc
      (record {
        ssrc = ssrc;
        sequence = sequence % 65536;
        transport_sequence = low_half transport_sequence;
        updated_at = now;
      })
      stats

pub record AudioSendStats : Type 0 where
  pub ssrc : ℕ
  pub packets_sent : ℕ
  pub octets_sent : ℕ
  pub last_sequence : Option ℕ
  pub updated_at : Option ℕ

-- `audio_send_stats`, by the entry of the client's own SSRC, 0 while it has none
unfoldable pub audio_send_stats_from : ℕ → ℕ → ℕ → Option RtpSendStats → AudioSendStats
audio_send_stats_from ssrc packets octets none = record {
  ssrc = ssrc;
  packets_sent = packets;
  octets_sent = octets;
  last_sequence = none;
  updated_at = none;
}
audio_send_stats_from ssrc packets octets (some stats) = record {
  ssrc = ssrc;
  packets_sent = packets;
  octets_sent = octets;
  last_sequence = some stats.sequence;
  updated_at = some stats.updated_at;
}

unfoldable pub audio_send_stats : Option ℕ → ℕ → ℕ → Dict ℕ RtpSendStats → AudioSendStats
unfolding audio_send_stats_from
audio_send_stats none packets octets stats = audio_send_stats_from 0 packets octets (get 0 stats)
audio_send_stats (some ssrc) packets octets stats =
    audio_send_stats_from ssrc packets octets (get ssrc stats)

-- The loop of `_video_reorder_stats`
unfoldable pub add_buffer_stats : List Buffer → Stats → Stats
add_buffer_stats [] s = s
add_buffer_stats (b ∷ buffers) s = add_buffer_stats buffers (record {
  packets_pushed = s.packets_pushed + b.stats.packets_pushed;
  duplicate_packets = s.duplicate_packets + b.stats.duplicate_packets;
  old_packets = s.old_packets + b.stats.old_packets;
  waits = s.waits + b.stats.waits;
  flushes = s.flushes + b.stats.flushes;
  skipped_packets = s.skipped_packets + b.stats.skipped_packets;
  ready_packets = s.ready_packets + b.stats.ready_packets;
  max_buffered = max s.max_buffered b.stats.max_buffered;
})

-- `_record_video_reorder_stats`, where there is a buffer
unfoldable pub record_reorder_stats : Stats → Counters → Counters
unfolding record_stat record_max_stat
record_reorder_stats s c = record_max_stat "reorder_max_buffered" s.max_buffered (
    record_stat "reorder_ready_packets" s.ready_packets (
      record_stat "reorder_skipped_packets" s.skipped_packets (
        record_stat "reorder_flushes" s.flushes (
          record_stat "reorder_waits" s.waits (
            record_stat "reorder_old_packets" s.old_packets (
              record_stat "reorder_duplicate_packets" s.duplicate_packets
                (record_stat "reorder_packets_pushed" s.packets_pushed c)))))))

unfoldable pub record_video_reorder_stats : List Buffer → Counters → Counters
unfolding add_buffer_stats record_reorder_stats
record_video_reorder_stats [] c = c
record_video_reorder_stats (b ∷ buffers) c =
    if c.enabled then record_reorder_stats (add_buffer_stats (b ∷ buffers) no_stats) c else c
