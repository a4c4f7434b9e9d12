-- ===== src/Reports.antt =====
-- RTCP sender and receiver reports of discord/ext/native_voice/client.py. The source's floats are
-- exact here: a time of the monotonic clock is in microseconds, an NTP time in units of 2 ^ -32
-- seconds, and the jitter is a fraction whose denominator is a power of 16.
pub mod Block
pub mod State
mod Tests
use discord_native_voice.Prelude.{
  ℕ, zero, suc, ◌+◌, ◌-◌, ◌*◌, ◌/◌, ◌%◌, ◌^◌, min, max, Bool, true, false, not, ◌||◌, ◌&&◌, Option,
  none, some, List, [], ◌∷◌, ◌++◌, length, take, drop, elem, select, ltb, leb, nat_eq, bit_or, ℕ-eq,
  Eq, if◌then◌else◌,
}
use discord_native_voice.Prelude.Int.{ℤ, pos, negsuc, sub_ℕ, ◌-ℤ◌, abs, ltb_ℤ, pos_part}
use discord_native_voice.Prelude.Dict.{Dict, get, put, Pair-eq}
use discord_native_voice.Prelude.Bytes.{Bytes, be32, from_be, u32_at}
use discord_native_voice.Rtp.{RtcpReceiverReport, rtcp_receiver_report, rtcp_sender_report}
use discord_native_voice.Rtp.Sequence.{unwrap_sequence}
use discord_native_voice.Feedback.{Packet, rtcp_header}

-- The jitter is `jitter / 16 ^ jitter_scale`.
pub record RtcpReceiveReportState : Type 0 where
  pub base_extended_sequence : ℕ
  pub max_extended_sequence : ℕ
  pub packets_received : ℕ
  pub expected_prior : ℕ
  pub received_prior : ℕ
  pub jitter : ℕ
  pub jitter_scale : ℕ
  pub transit : Option ℤ
  pub last_report_at : ℕ

-- What the reports that came in left behind, and the settings.
pub record Reports : Type 0 where
  pub states : Dict ℕ RtcpReceiveReportState
  pub sender_reports : Dict ℕ (ℤ × ℕ × ℕ)
  pub sender_report_lsr : Dict ℕ (ℕ × ℕ)
  pub receiver_reports : Dict (ℕ × ℕ) RtcpReceiverReport
  pub interval : ℕ
  pub ttl : ℕ

-- Python's `round` of a quotient: to the nearest, a half to the even neighbour
unfoldable pub round_div : ℕ → ℕ → ℕ
round_div n d =
    let q = n / d in
    let r = n % d in if ltb (2 * r) d then q else if ltb d (2 * r) then q + 1 else q + q % 2

-- The loss of a report, in its 24-bit two's complement
unfoldable pub encode_lost : ℤ → ℕ
encode_lost (pos n) = min n 0x7FFFFF
encode_lost (negsuc n) = 0x1000000 - min (n + 1) 0x800000

-- `fraction_lost`, of the interval since the last report
unfoldable pub fraction_of : ℤ → ℤ → ℕ
fraction_of expected_interval lost_interval =
    if ltb_ℤ (pos 0) expected_interval && ltb_ℤ (pos 0) lost_interval
    then min 255 (pos_part lost_interval * 256 / pos_part expected_interval)
    else 0

-- `lsr` and `delay_since_last_sender_report`
unfoldable pub since_sender_report : Option (ℕ × ℕ) → ℕ → ℕ × ℕ
unfolding round_div
since_sender_report none now = (0, 0)
since_sender_report (some (lsr, received_at)) now =
    (lsr, min 0xFFFFFFFF (round_div ((now - received_at) * 65536) 1000000))

-- `struct.pack('>IIIIII', …)`, with the loss word put together
abbrev pub block_bytes : ℕ → ℕ → ℕ → ℕ → ℕ → ℕ → ℕ → Bytes
block_bytes ssrc fraction lost high jitter lsr delay =
    be32 (ssrc % 4294967296)
    ++ (be32 (bit_or (fraction % 256 * 2 ^ 24) (lost % 0x1000000))
        ++ (be32 (high % 4294967296)
            ++ (be32 (jitter % 4294967296) ++ (be32 (lsr % 4294967296) ++ be32 delay))))

abbrev pub expected_of : RtcpReceiveReportState → ℕ
expected_of state = state.max_extended_sequence - state.base_extended_sequence + 1

abbrev pub lost_of : RtcpReceiveReportState → ℤ
lost_of state = sub_ℕ (expected_of state) state.packets_received

-- `_rtcp_receiver_report_block`: the block, and the state with the new priors
unfoldable pub rtcp_receiver_report_block :
    ℕ → RtcpReceiveReportState → Option (ℕ × ℕ) → ℕ → Bytes × RtcpReceiveReportState
unfolding round_div encode_lost fraction_of since_sender_report ◌-ℤ◌
rtcp_receiver_report_block ssrc state sender_report now =
    let expected = expected_of state in
    let expected_interval = sub_ℕ expected state.expected_prior in
    let received_interval = sub_ℕ state.packets_received state.received_prior in
    let fraction_lost = fraction_of expected_interval (expected_interval -ℤ received_interval) in
    let since = since_sender_report sender_report now in
    (
      block_bytes ssrc fraction_lost (encode_lost (lost_of state)) state.max_extended_sequence
          (round_div state.jitter (16 ^ state.jitter_scale)) since.0 since.1,
      record state { expected_prior = expected; received_prior = state.packets_received },
    )

-- `_send_rtcp_receiver_report`
unfoldable pub join_blocks : List Bytes → Bytes
join_blocks [] = []
join_blocks (b ∷ bs) = b ++ join_blocks bs

unfoldable pub send_rtcp_receiver_report : ℕ → List Bytes → Packet
unfolding join_blocks
send_rtcp_receiver_report ssrc reports =
    let sent = take 31 reports in
    record {
      header =
          rtcp_header (bit_or 0x80 (length sent)) rtcp_receiver_report (1 + length sent * 6)
            (ssrc % 4294967296);
      body = join_blocks sent;
    }

-- `_send_rtcp_sender_report`, at `ntp` in units of 2 ^ -32 seconds since 1900
unfoldable pub send_rtcp_sender_report : ℕ → ℕ → ℕ → ℕ → ℕ → Packet
send_rtcp_sender_report ssrc rtp_timestamp packet_count octet_count ntp = record {
  header = rtcp_header 0x80 rtcp_sender_report 6 ssrc;
  body =
      be32 (ntp / 4294967296)
      ++ (be32 (ntp % 4294967296)
          ++ (be32 rtp_timestamp
              ++ (be32 (packet_count % 4294967296) ++ be32 (octet_count % 4294967296))));
}

-- The state of an SSRC after one more packet.
unfoldable pub count_packet : ℕ → Option RtcpReceiveReportState → RtcpReceiveReportState
unfolding unwrap_sequence
count_packet sequence none = record {
  base_extended_sequence = sequence;
  max_extended_sequence = sequence;
  packets_received = 1;
  expected_prior = 0;
  received_prior = 0;
  jitter = 0;
  jitter_scale = 0;
  transit = none;
  last_report_at = 0;
}
count_packet sequence (some state) =
    let extended = unwrap_sequence sequence state.max_extended_sequence in
    record state {
      max_extended_sequence =
          if ltb_ℤ (pos state.max_extended_sequence) extended
          then pos_part extended
          else state.max_extended_sequence;
      packets_received = state.packets_received + 1;
    }

-- `state.jitter += (delta - state.jitter) / 16`, over the new denominator
unfoldable pub jitter_from : ℤ → Option ℤ → RtcpReceiveReportState → RtcpReceiveReportState
unfolding ◌-ℤ◌
jitter_from transit none state = record state { transit = some transit }
jitter_from transit (some previous) state = record state {
  transit = some transit;
  jitter = 15 * state.jitter + abs (transit -ℤ previous) * 16 ^ state.jitter_scale;
  jitter_scale = state.jitter_scale + 1;
}

unfoldable pub update_jitter : ℤ → RtcpReceiveReportState → RtcpReceiveReportState
unfolding jitter_from
update_jitter transit state = jitter_from transit state.transit state

-- The end of `_maybe_send_video_rtcp_receiver_report`: a report, once the interval is over. `now` is
-- the clock that the block reads.
unfoldable pub report_if_due :
    ℕ
    → ℕ
    → ℕ
    → ℕ
    → Option (ℕ × ℕ)
    → ℕ
    → RtcpReceiveReportState
    → List Packet × RtcpReceiveReportState
unfolding rtcp_receiver_report_block send_rtcp_receiver_report
report_if_due own_ssrc ssrc received_at interval sender_report now state =
    if nat_eq interval 0 || ltb received_at (state.last_report_at + interval)
    then ([], state)
    else (let (block, reported) =
          rtcp_receiver_report_block ssrc (record state { last_report_at = received_at })
            sender_report now in
        (send_rtcp_receiver_report own_ssrc (block ∷ []) ∷ [], reported))

-- `_maybe_send_video_rtcp_receiver_report` on the state of its SSRC
unfoldable pub report_state :
    ℕ
    → ℕ
    → ℕ
    → ℕ
    → ℕ
    → ℕ
    → Option RtcpReceiveReportState
    → Option (ℕ × ℕ)
    → ℕ
    → List Packet × RtcpReceiveReportState
unfolding count_packet update_jitter report_if_due round_div
report_state own_ssrc ssrc sequence timestamp received_at interval state sender_report now =
    report_if_due own_ssrc ssrc received_at interval sender_report now (
      update_jitter (sub_ℕ (round_div (received_at * 9) 100) timestamp)
        (count_packet (sequence % 65536) state))

unfoldable pub maybe_send_video_rtcp_receiver_report :
    ℕ → ℕ → ℕ → ℕ → ℕ → ℕ → Reports → List Packet × Reports
unfolding report_state
maybe_send_video_rtcp_receiver_report own_ssrc ssrc sequence timestamp received_at now r =
    let (packets, state) =
      report_state own_ssrc ssrc sequence timestamp received_at r.interval (get ssrc r.states)
        (get ssrc r.sender_report_lsr) now in
    (packets, record r { states = put ssrc state r.states })

-- `_prune_rtcp_receiver_reports`: `report.received_at < now - ttl`
unfoldable pub prune_rtcp_receiver_reports : ℕ → Reports → Reports
prune_rtcp_receiver_reports now r = record r {
  receiver_reports =
      select (λ entry. not (ltb (entry.1.received_at + r.ttl) now)) r.receiver_reports;
}

-- The 24-bit two's complement of a report's loss word
unfoldable pub decode_lost : ℕ → ℤ
decode_lost loss = if leb 0x800000 loss then negsuc (0x1000000 - loss - 1) else pos loss

-- One block of `_handle_rtcp_receiver_report`, 24 bytes
unfoldable pub read_report : ℕ → ℕ → Bytes → RtcpReceiverReport
unfolding decode_lost
read_report sender_ssrc now block =
    let loss = u32_at 4 block in
    record {
      sender_ssrc = sender_ssrc;
      source_ssrc = u32_at 0 block;
      fraction_lost = loss / 2 ^ 24 % 256;
      cumulative_lost = decode_lost (loss % 0x1000000);
      extended_high_sequence = u32_at 8 block;
      jitter = u32_at 12 block;
      last_sender_report = u32_at 16 block;
      delay_since_last_sender_report = u32_at 20 block;
      received_at = now;
    }

-- The loop over the blocks: it ends at the count of the header or where fewer than 24 bytes are left.
unfoldable pub read_reports : ℕ → ℕ → ℕ → Bytes → List RtcpReceiverReport
unfolding read_report
read_reports zero sender_ssrc now payload = []
read_reports (suc count) sender_ssrc now payload =
    let rest = read_reports count sender_ssrc now (drop 24 payload) in
    if ltb (length payload) 24 then [] else read_report sender_ssrc now payload ∷ rest

unfoldable pub store_reports :
    List RtcpReceiverReport → Dict (ℕ × ℕ) RtcpReceiverReport → Dict (ℕ × ℕ) RtcpReceiverReport
store_reports [] d = d
store_reports (report ∷ rest) d =
    store_reports rest (put (report.sender_ssrc, report.source_ssrc) report d)

unfoldable pub handle_rtcp_receiver_report : ℕ → ℕ → Bytes → ℕ → Reports → Reports
unfolding prune_rtcp_receiver_reports read_reports store_reports
handle_rtcp_receiver_report sender_ssrc report_count payload now r =
    let pruned = prune_rtcp_receiver_reports now r in
    record pruned {
      receiver_reports =
          store_reports (read_reports report_count sender_ssrc now payload) pruned.receiver_reports;
    }

-- `_handle_rtcp_sender_report`, with the clock rate of its SSRC
unfoldable pub handle_rtcp_sender_report : ℕ → ℕ → Bytes → ℕ → Reports → Reports
handle_rtcp_sender_report clock_rate sender_ssrc payload now r =
    let ntp_seconds = u32_at 0 payload in
    let ntp_fraction = u32_at 4 payload in
    if ltb (length payload) 20 then r else record r {
      sender_reports =
          put sender_ssrc
            (
              sub_ℕ (ntp_seconds * 4294967296 + ntp_fraction) (2208988800 * 4294967296),
              u32_at 8 payload,
              clock_rate,
            )
            r.sender_reports;
      sender_report_lsr =
          put sender_ssrc (bit_or (ntp_seconds % 65536 * 2 ^ 16) (ntp_fraction / 65536), now)
            r.sender_report_lsr;
    }
