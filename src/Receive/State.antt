-- ===== src/Receive/State.antt =====
-- The receive pipeline keeps the state of its components valid
-- (discord/ext/native_voice/client.py).
use mathlib.Core.Path.{subst}
use discord_native_voice.Prelude.{
  ℕ, ◌≤◌, ◌≡◌, refl, sym, Bool, true, false, not, ◌&&◌, Option, none, some, List, [], ◌∷◌, ◌++◌,
  length, is_empty, ℕ-eq, String, if◌then◌else◌,
}
use discord_native_voice.Prelude.Dict.{get, put, EveryEntry, Pair-eq}
use discord_native_voice.Prelude.Bytes.{Bytes}
use discord_native_voice.Prelude.Result.{Result, ok, err}
use discord_native_voice.Rtp.{RtpPacket, ReceivedVideoPacket}
use discord_native_voice.Reports.State.{IsState}
use discord_native_voice.Pending.{
  Decrypted, decrypted, raised, is_retryable_dave_decrypt_error, can_attempt_video_dave_decrypt,
  decrypt_video_frame,
}
use discord_native_voice.Pending.Laws.{stash_dave_video_frame-le}
use discord_native_voice.Dave.{looks_like_dave_protocol_frame}
use discord_native_voice.Media.{MediaPacket}
use discord_native_voice.Receive.{
  Depacketizer, Batch, BatchError, and_then, depacketizer_or, after_push, decode_with,
  packets_or_none, Lookups, Receiver, count, stash, finish_frame, after_depacketizer,
  decode_video_frame, decode_ready,
}
use discord_native_voice.Nack.Valid.{IsValid-of_fields}
use discord_native_voice.Nack.Valid.{IsValid as IsTracker}
use discord_native_voice.Reorder.Valid.{IsValid as IsBuffer}

-- The tracker of lost packets, every reorder buffer and every report state are valid, and at most
-- 128 frames wait for their keys.
pub record IsReceiver {D : Type 0} (r : Receiver D) : Type 0 where
  pub tracker : IsTracker r.tracker
  pub buffers : EveryEntry IsBuffer r.reorder_buffers
  pub states : EveryEntry IsState r.reports.states
  pub queue : length r.pending_dave_video_frames ≤ 128

module _ {D : Type 0} where
  -- Only these four parts count.
  pub IsReceiver-of_fields :
      (r r' : Receiver D)
      → IsTracker r'.tracker
      → EveryEntry IsState r'.reports.states
      → r'.reorder_buffers ≡ r.reorder_buffers
      → length r'.pending_dave_video_frames ≤ 128
      → IsReceiver r
      → IsReceiver r'
  IsReceiver-of_fields r r' tracker states same queue h = record {
    tracker = tracker;
    buffers = subst (λ d. EveryEntry IsBuffer d) (sym same) h.buffers;
    states = states;
    queue = queue;
  }

  pub count-IsReceiver :
      (key : String) (amount : ℕ) (r : Receiver D) → IsReceiver r → IsReceiver (count key amount r)
  count-IsReceiver key amount r h =
      IsReceiver-of_fields r _ (IsValid-of_fields r.tracker _ refl refl h.tracker) h.states refl
        h.queue h

  pub if-IsReceiver :
      (b : Bool) (r r' : Receiver D)
      → IsReceiver r
      → IsReceiver r'
      → IsReceiver (if b then r else r')
  if-IsReceiver true r r' h h' = h
  if-IsReceiver false r r' h h' = h'

  pub if_out-IsReceiver :
      {A : Type 0} (b : Bool) (x y : A × Receiver D)
      → IsReceiver x.1
      → IsReceiver y.1
      → IsReceiver (if b then x else y).1
  if_out-IsReceiver true x y h h' = h
  if_out-IsReceiver false x y h h' = h'

  stash-IsReceiver :
      (now : ℕ) (packet : ReceivedVideoPacket) (payload : Bytes) (rtp_packets : List RtpPacket)
      (r : Receiver D)
      → IsReceiver r
      → IsReceiver (stash now packet payload rtp_packets r)
  stash-IsReceiver now packet payload rtp_packets r h =
      IsReceiver-of_fields r _ h.tracker h.states refl
        (stash_dave_video_frame-le now _ r.pending_dave_video_frames h.queue) h

  finish_frame-IsReceiver :
      (wall now : ℕ) (packet : ReceivedVideoPacket) (frame : Bytes) (rtp_packets : List RtpPacket)
      (dave : Bool) (result : Decrypted) (r : Receiver D)
      → IsReceiver r
      → IsReceiver (finish_frame wall now packet frame rtp_packets dave result r).1
  unfolding finish_frame
  finish_frame-IsReceiver wall now packet frame rtp_packets dave (decrypted payload) r h = h
  finish_frame-IsReceiver wall now packet frame rtp_packets dave (raised message) r h =
      if_out-IsReceiver (dave && is_retryable_dave_decrypt_error message) _ _
        (stash-IsReceiver now packet frame rtp_packets r h)
        (count-IsReceiver "video_frame_decrypt_failures" 1 r h)

  after_depacketizer-IsReceiver :
      (l : Lookups) (wall now : ℕ) (packet : ReceivedVideoPacket) (rtp_packets : List RtpPacket)
      (frame : Option Bytes) (r : Receiver D)
      → IsReceiver r
      → IsReceiver (after_depacketizer l wall now packet rtp_packets frame r).1
  unfolding after_depacketizer
  after_depacketizer-IsReceiver l wall now packet rtp_packets none r h =
      let key : ℕ × ℕ = (packet.ssrc, packet.decoded.payload_type) in
      let cleared = record r { frame_rtp_packets = put key [] r.frame_rtp_packets } in
      if_out-IsReceiver packet.decoded.marker _ _
        (count-IsReceiver "video_frames_dropped_at_marker" 1 cleared
          (IsReceiver-of_fields r cleared h.tracker h.states refl h.queue h))
        (count-IsReceiver "video_frame_packets_buffered" 1 r h)
  after_depacketizer-IsReceiver l wall now packet rtp_packets (some frame) r h =
      let key : ℕ × ℕ = (packet.ssrc, packet.decoded.payload_type) in
      let r1 = record r { frame_rtp_packets = put key [] r.frame_rtp_packets } in
      let h1 : IsReceiver r1 = IsReceiver-of_fields r r1 h.tracker h.states refl h.queue h in
      let dave = looks_like_dave_protocol_frame frame in
      if_out-IsReceiver (dave && not (can_attempt_video_dave_decrypt l.dave packet.user_id)) _ _
        (stash-IsReceiver now packet frame rtp_packets r1 h1)
        (finish_frame-IsReceiver wall now packet frame rtp_packets dave
          (decrypt_video_frame l.dave packet.user_id frame) r1 h1)

  -- A step after another one, which may have raised.
  pub and_then-IsReceiver :
      (first : Batch × Receiver D) (step : List MediaPacket → Receiver D → Batch × Receiver D)
      → IsReceiver first.1
      → ((out : List MediaPacket) (r : Receiver D) → IsReceiver r → IsReceiver (step out r).1)
      → IsReceiver (and_then first step).1
  and_then-IsReceiver (err e, r) step h next = h
  and_then-IsReceiver (ok out, r) step h next = next out r h

  after_push-IsReceiver :
      (l : Lookups) (wall now : ℕ) (packet : ReceivedVideoPacket) (rtp_packets : List RtpPacket)
      (frame : Result BatchError (Option Bytes)) (r : Receiver D)
      → IsReceiver r
      → IsReceiver (after_push l wall now packet rtp_packets frame r).1
  after_push-IsReceiver l wall now packet rtp_packets (err e) r h = h
  after_push-IsReceiver l wall now packet rtp_packets (ok frame) r h =
      after_depacketizer-IsReceiver l wall now packet rtp_packets frame r h

  decode_with-IsReceiver :
      (native : Depacketizer D) (l : Lookups) (wall now : ℕ) (packet : ReceivedVideoPacket)
      (depacketizer : Option D) (r : Receiver D)
      → IsReceiver r
      → IsReceiver (decode_with native l wall now packet depacketizer r).1
  decode_with-IsReceiver native l wall now packet none r h = h
  decode_with-IsReceiver native l wall now packet (some d) r h =
      let key : ℕ × ℕ = (packet.ssrc, packet.decoded.payload_type) in
      let out = native.push_packet d packet.decoded in
      let rtp_packets = packets_or_none (get key r.frame_rtp_packets) ++ (packet.rtp_packet ∷ []) in
      let r1 = record r {
        depacketizers = put key out.1 r.depacketizers;
        frame_rtp_packets = put key rtp_packets r.frame_rtp_packets;
      } in
      after_push-IsReceiver l wall now packet rtp_packets out.0 r1
        (IsReceiver-of_fields r r1 h.tracker h.states refl h.queue h)

  decode_video_frame-IsReceiver :
      (native : Depacketizer D) (l : Lookups) (wall now : ℕ) (packet : ReceivedVideoPacket)
      (r : Receiver D)
      → IsReceiver r
      → IsReceiver (decode_video_frame native l wall now packet r).1
  unfolding decode_video_frame
  decode_video_frame-IsReceiver native l wall now packet r h =
      let key : ℕ × ℕ = (packet.ssrc, packet.decoded.payload_type) in
      decode_with-IsReceiver native l wall now packet
        (depacketizer_or (native.make packet.codec) (get key r.depacketizers)) r h

  pub decode_ready-IsReceiver :
      (native : Depacketizer D) (l : Lookups) (wall now : ℕ) (packets : List ReceivedVideoPacket)
      (r : Receiver D)
      → IsReceiver r
      → IsReceiver (decode_ready native l wall now packets r).1
  unfolding decode_ready
  decode_ready-IsReceiver native l wall now [] r h = h
  decode_ready-IsReceiver native l wall now (packet ∷ packets) r h =
      let counted = count "video_packets_reorder_ready" 1 r in
      let h1 =
        decode_video_frame-IsReceiver native l wall now packet counted
          (count-IsReceiver "video_packets_reorder_ready" 1 r h) in
      and_then-IsReceiver (decode_video_frame native l wall now packet counted) _ h1 (λ out r1 h2.
        decode_ready-IsReceiver native l wall now packets _ (
          if-IsReceiver (is_empty out) r1 _ h2 (count-IsReceiver "video_frames_completed" 1 r1 h2)))
