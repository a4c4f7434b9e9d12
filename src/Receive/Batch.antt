-- ===== src/Receive/Batch.antt =====
-- A whole batch of packets through the receive pipeline (discord/ext/native_voice/client.py).
use discord_native_voice.Prelude.{
  ℕ, ◌≡◌, refl, not, ◌||◌, Option, none, some, List, [], ◌∷◌, elem, arith, ℕ-eq, Option-cases, inl,
  inr, if◌then◌else◌,
}
use discord_native_voice.Prelude.Dict.{get, put, Pair-eq, EveryEntry, EveryEntry-put}
use discord_native_voice.Prelude.Bytes.{Bytes}
use discord_native_voice.Rtp.{Codec, MediaType, audio, video, DecodedRtpPacket, ReceivedVideoPacket}
use discord_native_voice.Nack.Track.{track-IsValid}
use discord_native_voice.Nack.Valid.{IsValid-of_fields}
use discord_native_voice.Feedback.{Packet}
use discord_native_voice.Reorder.{Buffer, push}
use discord_native_voice.Reorder.Order.{push-IsValid}
use discord_native_voice.Reorder.Valid.{IsValid as IsBuffer}
use discord_native_voice.Reports.{Reports, report_state, maybe_send_video_rtcp_receiver_report}
use discord_native_voice.Reports.State.{IsState, AllState, report_state-IsState}
use discord_native_voice.Pending.{retry_pending_dave_video_frames}
use discord_native_voice.Pending.Laws.{length-retry_pending}
use discord_native_voice.Receive.{
  Depacketizer, Lookups, Receiver, Classified, count, add_rtx, add_primary, classify_by, classify,
  unwrap_rtx, maybe_send_startup_video_pli, record_receipt, report_receipt, buffer_or,
  decode_video_packets, note_video, decode_classified, decode_if_known, decode_decoded_media_packet,
  decode_each, decode_media_packets, time_of, has_parameter_sets,
}
use discord_native_voice.Receive.State.{
  IsReceiver, IsReceiver-of_fields, count-IsReceiver, if-IsReceiver, if_out-IsReceiver,
  decode_ready-IsReceiver, and_then-IsReceiver,
}

buffer_or-IsBuffer :
    (l : Lookups) (buffer : Option Buffer)
    → ((b : Buffer) → buffer ≡ some b → IsBuffer b)
    → IsBuffer (buffer_or l buffer)
buffer_or-IsBuffer l none h = inl (refl, refl)
buffer_or-IsBuffer l (some b) h = h b refl

module _ {D : Type 0} where
  add_rtx-IsReceiver :
      (entry : MediaType × Codec × ℕ) (decoded : DecodedRtpPacket)
      (carried : Option DecodedRtpPacket) (r : Receiver D)
      → IsReceiver r
      → IsReceiver (add_rtx entry decoded carried r).1
  add_rtx-IsReceiver (m, c, a) decoded none r h = count-IsReceiver "rtx_packets_too_short" 1 r h
  add_rtx-IsReceiver (m, c, a) decoded (some p) r h = h

  add_primary-IsReceiver :
      (info : Option (MediaType × Codec)) (decoded : DecodedRtpPacket) (r : Receiver D)
      → IsReceiver r
      → IsReceiver (add_primary info decoded r).1
  add_primary-IsReceiver none decoded r h = h
  add_primary-IsReceiver (some (video, c)) decoded r h =
      count-IsReceiver "primary_packets_received" 1 r h
  add_primary-IsReceiver (some (audio, c)) decoded r h = h

  classify_by-IsReceiver :
      (l : Lookups) (entry : Option (MediaType × Codec × ℕ)) (decoded : DecodedRtpPacket)
      (r : Receiver D)
      → IsReceiver r
      → IsReceiver (classify_by l entry decoded r).1
  unfolding classify_by
  classify_by-IsReceiver l none decoded r h =
      add_primary-IsReceiver (get decoded.payload_type l.payload_types) decoded r h
  classify_by-IsReceiver l (some (m, c, a)) decoded r h =
      add_rtx-IsReceiver (m, c, a) decoded (unwrap_rtx l.rtx_ssrc_media_ssrcs a decoded) _
        (count-IsReceiver "rtx_packets_received" 1 r h)

  startup-IsReceiver :
      (codec : Codec) (ssrc : ℕ) (r : Receiver D)
      → IsReceiver r
      → IsReceiver (maybe_send_startup_video_pli codec ssrc r)
  unfolding maybe_send_startup_video_pli
  startup-IsReceiver codec ssrc r h =
      if-IsReceiver (not (has_parameter_sets codec) || elem ssrc r.startup_plis) r _ h (
        IsReceiver-of_fields r _ (IsValid-of_fields r.tracker _ refl refl h.tracker) h.states refl
          h.queue h)

  state_of-AllState :
      (ssrc : ℕ) (r : Receiver D) → IsReceiver r → AllState (get ssrc r.reports.states)
  state_of-AllState ssrc r h = elim (Option-cases (get ssrc r.reports.states)) [
    | inl absent ↦ rw (absent, AllState) tt
    | inr (state, found) ↦ rw (found, AllState) (h.states ssrc state found)
  ]

  record_receipt-IsReceiver :
      (out : List Packet × Reports) (r : Receiver D)
      → EveryEntry IsState out.1.states
      → IsReceiver r
      → IsReceiver (record_receipt out r)
  record_receipt-IsReceiver ([], reports) r states h =
      IsReceiver-of_fields r _ h.tracker states refl h.queue h
  record_receipt-IsReceiver (p ∷ packets, reports) r states h =
      IsReceiver-of_fields r _ (IsValid-of_fields r.tracker _ refl refl h.tracker) states refl
        h.queue h

  report_receipt-IsReceiver :
      (ssrc : ℕ) (decoded : DecodedRtpPacket) (received_at now : ℕ) (r : Receiver D)
      → IsReceiver r
      → IsReceiver (report_receipt ssrc decoded received_at now r)
  unfolding report_receipt maybe_send_video_rtcp_receiver_report
  report_receipt-IsReceiver ssrc decoded received_at now r h =
      let q = r.reports in
      let last = get ssrc q.states in
      let lsr = get ssrc q.sender_report_lsr in
      let out =
        report_state r.tracker.ssrc ssrc decoded.sequence decoded.timestamp received_at q.interval
          last lsr now in
      let counted =
        report_state-IsState r.tracker.ssrc ssrc decoded.sequence decoded.timestamp received_at
          q.interval last lsr now (state_of-AllState ssrc r h) in
      record_receipt-IsReceiver (out.0, record q { states = put ssrc out.1 q.states }) r
        (EveryEntry-put IsState ssrc out.1 q.states h.states counted) h

  note_video-IsReceiver :
      (received_at now : ℕ) (c : Classified) (r : Receiver D)
      → IsReceiver r
      → IsReceiver (note_video received_at now c r)
  unfolding note_video
  note_video-IsReceiver received_at now c r h =
      let ssrc = c.decoded.ssrc in
      let r1 = maybe_send_startup_video_pli c.codec ssrc (count "video_packets_received" 1 r) in
      let h1 =
        startup-IsReceiver c.codec ssrc (count "video_packets_received" 1 r)
          (count-IsReceiver "video_packets_received" 1 r h) in
      let r2 = if c.rtx then r1 else report_receipt ssrc c.decoded received_at now r1 in
      let h2 =
        if-IsReceiver c.rtx r1 (report_receipt ssrc c.decoded received_at now r1) h1
          (report_receipt-IsReceiver ssrc c.decoded received_at now r1 h1) in
      IsReceiver-of_fields r2 _
        (track-IsValid ssrc c.decoded.sequence c.rtx now r2.tracker h2.tracker) h2.states refl
        h2.queue h2

  decode_video_packets-IsReceiver :
      (native : Depacketizer D) (l : Lookups) (wall now : ℕ) (received : ReceivedVideoPacket)
      (r : Receiver D)
      → IsReceiver r
      → IsReceiver (decode_video_packets native l wall now received r).1
  unfolding decode_video_packets
  decode_video_packets-IsReceiver native l wall now received r h =
      let key : ℕ × ℕ = (received.ssrc, received.decoded.payload_type) in
      let b = buffer_or l (get key r.reorder_buffers) in
      let out = push now received b in
      let good =
        push-IsValid now received b
          (buffer_or-IsBuffer l (get key r.reorder_buffers) (λ b' e. h.buffers key b' e)) in
      let r1 = record r { reorder_buffers = put key out.1 r.reorder_buffers } in
      let h1 : IsReceiver r1 = record {
        tracker = h.tracker;
        buffers = EveryEntry-put IsBuffer key out.1 r.reorder_buffers h.buffers good;
        states = h.states;
        queue = h.queue;
      } in
      if_out-IsReceiver r.tracker.rtx_enabled _ _
        (decode_ready-IsReceiver native l wall now out.0 r1 h1)
        (decode_ready-IsReceiver native l wall now (received ∷ []) r h)

  decode_classified-IsReceiver :
      (native : Depacketizer D) (l : Lookups) (wall now received_at payload_type : ℕ) (raw : Bytes)
      (media_type : MediaType) (c : Classified) (r : Receiver D)
      → IsReceiver r
      → IsReceiver
          (decode_classified native l wall now received_at payload_type raw media_type c r).1
  unfolding decode_classified
  decode_classified-IsReceiver native l wall now received_at payload_type raw video c r h =
      decode_video_packets-IsReceiver native l wall now _ (note_video received_at now c r)
        (note_video-IsReceiver received_at now c r h)
  decode_classified-IsReceiver native l wall now received_at payload_type raw audio c r h = h

  decode_if_known-IsReceiver :
      (native : Depacketizer D) (l : Lookups) (wall now received_at payload_type : ℕ) (raw : Bytes)
      (known : Option Classified) (r : Receiver D)
      → IsReceiver r
      → IsReceiver (decode_if_known native l wall now received_at payload_type raw known r).1
  unfolding decode_if_known
  decode_if_known-IsReceiver native l wall now received_at payload_type raw none r h = h
  decode_if_known-IsReceiver native l wall now received_at payload_type raw (some c) r h =
      decode_classified-IsReceiver native l wall now received_at payload_type raw c.media_type c r h

  decode_each-IsReceiver :
      (native : Depacketizer D) (l : Lookups) (wall now received_at : ℕ)
      (batch : List (Bytes × DecodedRtpPacket)) (r : Receiver D)
      → IsReceiver r
      → IsReceiver (decode_each native l wall now received_at batch r).1
  unfolding decode_each decode_decoded_media_packet classify
  decode_each-IsReceiver native l wall now received_at [] r h = h
  decode_each-IsReceiver native l wall now received_at ((raw, decoded) ∷ batch) r h =
      let entry =
        if r.tracker.rtx_enabled then get decoded.payload_type l.rtx_payload_types else none in
      let out = classify l decoded r in
      let h1 : IsReceiver out.1 = classify_by-IsReceiver l entry decoded r h in
      and_then-IsReceiver _ _
        (decode_if_known-IsReceiver native l wall now received_at decoded.payload_type raw out.0
          out.1 h1)
        (λ _ r1 h2. decode_each-IsReceiver native l wall now received_at batch r1 h2)

  -- A batch of packets of any kind, at any time and with any depacketizers, one that raises in the
  -- middle of the batch included, keeps the receiver valid: the tracker of lost packets within its
  -- bounds, every reorder buffer well-formed, the counts of every report state in order, and at most
  -- 128 frames waiting for their keys.
  pub decode_media_packets-IsReceiver :
      (native : Depacketizer D) (l : Lookups) (wall now received_at : ℕ)
      (batch : List (Bytes × DecodedRtpPacket)) (r : Receiver D)
      → IsReceiver r
      → IsReceiver (decode_media_packets native l wall now received_at batch r).1
  unfolding decode_media_packets
  decode_media_packets-IsReceiver native l wall now received_at batch r h =
      let out =
        retry_pending_dave_video_frames l.dave (time_of r wall) now r.pending_dave_video_frames in
      let r1 = record r { pending_dave_video_frames = out.1 } in
      let shorter = length-retry_pending l.dave (time_of r wall) now r.pending_dave_video_frames in
      decode_each-IsReceiver native l wall now received_at batch r1
        (IsReceiver-of_fields r r1 h.tracker h.states refl (omega (arith, shorter, h.queue)) h)
