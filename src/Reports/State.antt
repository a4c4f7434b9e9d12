-- ===== src/Reports/State.antt =====
-- The receiver reports of one peer as the other reads them, and the counts behind them
-- (discord/ext/native_voice/client.py).
use mathlib.Core.Path.{subst}
use discord_native_voice.Prelude.{
  ℕ, ◌+◌, ◌*◌, ◌%◌, ◌^◌, ◌≤◌, ◌≡◌, refl, sym, ◌∙◌, true, Option, none, some, ltb, nat_eq, arith,
  Bool-cases, inl, inr, ◌||◌, ◌==◌, if◌then◌else◌,
}
use discord_native_voice.Prelude.Int.{ℤ, pos, sub_ℕ, ltb_ℤ, pos_part, ◌-ℤ◌}
use discord_native_voice.Prelude.Dict.{get, put, get-put, Pair-eq}
use discord_native_voice.Rtp.{RtcpReceiverReport}
use discord_native_voice.Rtp.Sequence.{unwrap_sequence}
use discord_native_voice.Reports.{
  RtcpReceiveReportState, Reports, round_div, fraction_of, since_sender_report, expected_of,
  lost_of, rtcp_receiver_report_block, count_packet, jitter_from, update_jitter, report_if_due,
  report_state, read_reports, store_reports, prune_rtcp_receiver_reports,
  handle_rtcp_receiver_report,
}
use discord_native_voice.Reports.Block.{
  clamp_lost, read_report-block_bytes, fraction_of-le, delay-lt,
}

-- What a report says of a state, in the reader's terms.
abbrev pub reported : ℕ → ℕ → ℕ → RtcpReceiveReportState → Option (ℕ × ℕ) → ℕ → RtcpReceiverReport
reported sender now ssrc state sender_report at = record {
  sender_ssrc = sender;
  source_ssrc = ssrc % 4294967296;
  fraction_lost = fraction_of (sub_ℕ (expected_of state) state.expected_prior) (
      sub_ℕ (expected_of state) state.expected_prior
      -ℤ sub_ℕ state.packets_received state.received_prior);
  cumulative_lost = clamp_lost (lost_of state);
  extended_high_sequence = state.max_extended_sequence % 4294967296;
  jitter = round_div state.jitter (16 ^ state.jitter_scale) % 4294967296;
  last_sender_report = (since_sender_report sender_report at).0 % 4294967296;
  delay_since_last_sender_report = (since_sender_report sender_report at).1;
  received_at = now;
}

-- A report block that one peer writes is what the other peer reads, whatever the state, its losses
-- clamped to 24 bits and its counts reduced to 32 bits: the reader's table then holds that report
-- under the two SSRCs.
pub handle-rtcp_receiver_report_block :
    (sender now ssrc at : ℕ) (state : RtcpReceiveReportState) (sender_report : Option (ℕ × ℕ))
    (r : Reports)
    → get
        (sender, ssrc % 4294967296)
        (handle_rtcp_receiver_report sender 1
          (rtcp_receiver_report_block ssrc state sender_report at).0
          now
          r).receiver_reports
      ≡ some (reported sender now ssrc state sender_report at)
unfolding handle_rtcp_receiver_report rtcp_receiver_report_block read_reports store_reports
handle-rtcp_receiver_report_block sender now ssrc at state sender_report r =
    let e = sub_ℕ (expected_of state) state.expected_prior in
    let l = e -ℤ sub_ℕ state.packets_received state.received_prior in
    let since = since_sender_report sender_report at in
    let few = fraction_of-le e l in
    let read =
      read_report-block_bytes sender now ssrc (fraction_of e l) state.max_extended_sequence
        (round_div state.jitter (16 ^ state.jitter_scale)) since.0 since.1 (lost_of state)
        (omega arith) (delay-lt sender_report at) in
    let key : ℕ × ℕ = (sender, ssrc % 4294967296) in
    let same : (key == key) ≡ true = ground arith in
    let d = (prune_rtcp_receiver_reports now r).receiver_reports in
    let kept = get-put key key (reported sender now ssrc state sender_report at) d ∙ rw same refl in
    subst
      (λ report.
        get key (put (report.sender_ssrc, report.source_ssrc) report d)
        ≡ some (reported sender now ssrc state sender_report at))
      (sym read) kept

-- The highest number is not below the first, and a report never covers more than was counted.
pub record IsState (state : RtcpReceiveReportState) : Type 0 where
  pub range : state.base_extended_sequence ≤ state.max_extended_sequence
  pub prior_expected : state.expected_prior ≤ expected_of state
  pub prior_received : state.received_prior ≤ state.packets_received
  pub some_received : 1 ≤ state.packets_received

abbrev pub AllState : Option RtcpReceiveReportState → Type 0
AllState none = Unit
AllState (some state) = IsState state

count_packet-IsState :
    (sequence : ℕ) (state : Option RtcpReceiveReportState)
    → AllState state
    → IsState (count_packet sequence state)
unfolding count_packet
count_packet-IsState sequence none h = record {
  range = omega arith;
  prior_expected = omega arith;
  prior_received = omega arith;
  some_received = omega arith;
}
count_packet-IsState sequence (some state) h =
    let next = unwrap_sequence sequence state.max_extended_sequence in
    let grows : state.max_extended_sequence ≤ (
        if ltb_ℤ (pos state.max_extended_sequence) next
        then pos_part next
        else state.max_extended_sequence) =
      ground arith in
    record {
      range = omega (arith, grows, h.range);
      prior_expected = omega (arith, grows, h.range, h.prior_expected);
      prior_received = omega (arith, h.prior_received);
      some_received = omega arith;
    }

jitter_from-IsState :
    (transit : ℤ) (previous : Option ℤ) (state : RtcpReceiveReportState)
    → IsState state
    → IsState (jitter_from transit previous state)
unfolding jitter_from
jitter_from-IsState transit none state h = record {
  range = h.range;
  prior_expected = h.prior_expected;
  prior_received = h.prior_received;
  some_received = h.some_received;
}
jitter_from-IsState transit (some previous) state h = record {
  range = h.range;
  prior_expected = h.prior_expected;
  prior_received = h.prior_received;
  some_received = h.some_received;
}

block-IsState :
    (ssrc at : ℕ) (state : RtcpReceiveReportState) (sender_report : Option (ℕ × ℕ))
    → IsState state
    → IsState (rtcp_receiver_report_block ssrc state sender_report at).1
unfolding rtcp_receiver_report_block
block-IsState ssrc at state sender_report h = record {
  range = h.range;
  prior_expected = omega arith;
  prior_received = omega arith;
  some_received = h.some_received;
}

report_if_due-IsState :
    (own_ssrc ssrc received_at interval : ℕ) (sender_report : Option (ℕ × ℕ)) (now : ℕ)
    (state : RtcpReceiveReportState)
    → IsState state
    → IsState (report_if_due own_ssrc ssrc received_at interval sender_report now state).1
unfolding report_if_due
report_if_due-IsState own_ssrc ssrc received_at interval sender_report now state h =
    elim (Bool-cases (nat_eq interval 0 || ltb received_at (state.last_report_at + interval))) [
      | inl wait ↦ rw wait h
      | inr due ↦ rw due (
          block-IsState ssrc now (record state { last_report_at = received_at }) sender_report
            (record {
              range = h.range;
              prior_expected = h.prior_expected;
              prior_received = h.prior_received;
              some_received = h.some_received;
            }))
    ]

-- Whatever packets arrive, and whether a report is due or not, the state of an SSRC keeps its counts
-- in order: the highest number never falls below the first, and the counts at the last report never
-- exceed the present ones.
pub report_state-IsState :
    (own_ssrc ssrc sequence timestamp received_at interval : ℕ)
    (state : Option RtcpReceiveReportState) (sender_report : Option (ℕ × ℕ)) (now : ℕ)
    → AllState state
    → IsState
        (report_state own_ssrc ssrc sequence timestamp received_at interval state sender_report
          now).1
unfolding report_state update_jitter
report_state-IsState own_ssrc ssrc sequence timestamp received_at interval state report now h =
    let counted = count_packet (sequence % 65536) state in
    report_if_due-IsState own_ssrc ssrc received_at interval report now _ (
      jitter_from-IsState (sub_ℕ (round_div (received_at * 9) 100) timestamp) counted.transit
        counted (count_packet-IsState (sequence % 65536) state h))
