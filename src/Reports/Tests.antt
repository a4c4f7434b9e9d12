-- ===== src/Reports/Tests.antt =====
-- The theorems on receiver reports (discord/ext/native_voice/client.py) at a state with losses.
use discord_native_voice.Prelude.{◌≡◌, ◌%◌, none, some, [], arith}
use discord_native_voice.Prelude.Dict.{get, Pair-eq}
use discord_native_voice.Reports.{
  RtcpReceiveReportState, Reports, rtcp_receiver_report_block, handle_rtcp_receiver_report,
  report_state,
}
use discord_native_voice.Reports.State.{
  IsState, reported, handle-rtcp_receiver_report_block, report_state-IsState,
}

-- Of 101 packets 91 came, 50 of the 60 since the last report.
abbrev lossy : RtcpReceiveReportState
lossy = record {
  base_extended_sequence = 65500;
  max_extended_sequence = 65600;
  packets_received = 91;
  expected_prior = 41;
  received_prior = 41;
  jitter = 77;
  jitter_scale = 1;
  transit = none;
  last_report_at = 5;
}

abbrev no_reports : Reports
no_reports = record {
  states = [];
  sender_reports = [];
  sender_report_lsr = [];
  receiver_reports = [];
  interval = 1000000;
  ttl = 5000000;
}

handle-rtcp_receiver_report_block_example :
    get
      (1, 7 % 4294967296)
      (handle_rtcp_receiver_report 1 1
        (rtcp_receiver_report_block 7 lossy (some (9, 3)) 20).0
        4
        no_reports).receiver_reports
    ≡ some (reported 1 4 7 lossy (some (9, 3)) 20)
handle-rtcp_receiver_report_block_example =
    handle-rtcp_receiver_report_block 1 4 7 20 lossy (some (9, 3)) no_reports

lossy-IsState : IsState lossy
lossy-IsState = record {
  range = omega arith;
  prior_expected = omega arith;
  prior_received = omega arith;
  some_received = omega arith;
}

report_state-IsState_example :
    IsState (report_state 2 7 70 900 2000000 1000000 (some lossy) none 2000001).1
report_state-IsState_example =
    report_state-IsState 2 7 70 900 2000000 1000000 (some lossy) none 2000001 lossy-IsState
