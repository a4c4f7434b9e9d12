-- ===== src/Receive.antt =====
-- The receive pipeline of discord/ext/native_voice/client.py: from a batch of decrypted RTP packets
-- to media packets. The depacketizers are the native extension's, an interface here, and a packet
-- that one of them refuses ends its batch; the codec
-- tables, the connection's tables and the DAVE session are what the client looks up. The clock stands
-- still while one batch is handled.
pub mod Rtx
pub mod State
pub mod Batch
pub mod Reset
mod Tests
use discord_native_voice.Prelude.{
  ℕ, ◌+◌, ◌-◌, ◌%◌, Bool, true, false, not, ◌||◌, ◌&&◌, Option, none, some, List, [], ◌∷◌, ◌++◌,
  length, take, drop, elem, is_empty, ltb, max, ℕ-eq, String, if◌then◌else◌,
}
use discord_native_voice.Prelude.Int.{ℤ}
use discord_native_voice.Prelude.Dict.{Dict, get, put, setdefault, Pair-eq}
use discord_native_voice.Prelude.Bytes.{Bytes, from_be}
use discord_native_voice.Prelude.Result.{Result, ok, err, map_ok}
use discord_native_voice.Rtp.{
  MediaType, audio, video, Codec, h264, h265, DecodedRtpPacket, RtpPacket, ReceivedVideoPacket,
}
use discord_native_voice.Feedback.{Packet, send_video_pli}
use discord_native_voice.Nack.{Tracker, tally, emit, track_video_receive_sequence}
use discord_native_voice.Reorder.{Buffer, init, push}
use discord_native_voice.Reports.{Reports, maybe_send_video_rtcp_receiver_report}
use discord_native_voice.Media.{
  MediaPacket, RtcpTime, SpeakingFlagValues, is_unencrypted_opus_silence_payload,
  audio_speaking_flags_from_extensions, rtcp_time_for_packet, rtp_packet_from_decoded,
  make_video_media_packet,
}
use discord_native_voice.Dave.{looks_like_dave_protocol_frame}
use discord_native_voice.Pending.{
  DaveSession, Dave, Decrypted, decrypted, raised, PendingDaveVideoFrame,
  is_retryable_dave_decrypt_error, can_decrypt_dave, can_attempt_video_dave_decrypt,
  decrypt_video_frame, can_attempt_with, decrypt_with, stash_dave_video_frame,
  retry_pending_dave_video_frames,
}

-- What ends a batch: `ClientException` for a codec without a depacketizer, and the error that a
-- depacketizer raises.
pub data BatchError : Type 0 where
  unsupported_codec malformed_payload : BatchError

-- The depacketizers of the native extension: none for some codecs; a packet in, and an error or
-- perhaps a whole frame out, with the depacketizer after it in both cases.
pub record Depacketizer (D : Type 0) : Type 0 where
  pub make : Codec → Option D
  pub push_packet : D → DecodedRtpPacket → Result BatchError (Option Bytes) × D

-- Media packets, or the error that was raised before all of them were there.
abbrev pub Batch : Type 0
Batch = Result BatchError (List MediaPacket)

abbrev pub packets_of : Batch → List MediaPacket
packets_of (ok packets) = packets
packets_of (err _) = []

-- A step that is taken with the state after another one, unless that one raised.
abbrev pub and_then : {R : Type 0} → Batch × R → (List MediaPacket → R → Batch × R) → Batch × R
and_then (err e, r) step = (err e, r)
and_then (ok out, r) step =
    let (more, r') = step out r in (map_ok (λ packets. out ++ packets) more, r')

-- The tables and settings that the pipeline reads.
pub record Lookups : Type 0 where
  pub payload_types : Dict ℕ (MediaType × Codec)
  pub rtx_payload_types : Dict ℕ (MediaType × Codec × ℕ)
  pub rtx_ssrc_media_ssrcs : Dict ℕ ℕ
  pub ssrc_user_ids : Dict ℕ ℕ
  pub dave : Dave
  pub flags : SpeakingFlagValues
  pub opus_silence : Bytes
  pub reorder_max_packets : ℕ
  pub reorder_max_delay : ℕ
  pub enable_debug_stats : Bool

pub record Receiver (D : Type 0) : Type 0 where
  pub tracker : Tracker
  pub reports : Reports
  pub startup_plis : List ℕ
  pub reorder_buffers : Dict (ℕ × ℕ) Buffer
  pub depacketizers : Dict (ℕ × ℕ) D
  pub frame_rtp_packets : Dict (ℕ × ℕ) (List RtpPacket)
  pub pending_dave_video_frames : List PendingDaveVideoFrame

-- `_media_ssrc_for_rtx_ssrc`, and the SSRC itself where that is `None`
unfoldable pub media_ssrc_of : Dict ℕ ℕ → ℕ → ℕ
media_ssrc_of table ssrc = elim (get ssrc table) [ some media_ssrc ↦ media_ssrc | none ↦ ssrc - 1 ]

-- The part of `_decode_decoded_media_packet` that unwraps an RTX packet: the packet it carries, or
-- nothing where it is too short.
unfoldable pub unwrap_rtx : Dict ℕ ℕ → ℕ → DecodedRtpPacket → Option DecodedRtpPacket
unfolding media_ssrc_of
unwrap_rtx table associated_payload_type decoded =
    if ltb (length decoded.payload) 2
    then none
    else some (record decoded {
      payload_type = associated_payload_type;
      sequence = from_be (take 2 decoded.payload);
      payload = drop 2 decoded.payload;
      ssrc = media_ssrc_of table decoded.ssrc;
    })

-- A packet after its payload type was looked up.
pub record Classified : Type 0 where
  pub media_type : MediaType
  pub codec : Codec
  pub decoded : DecodedRtpPacket
  pub rtx : Bool
  pub rtx_ssrc : Option ℕ
  pub rtx_payload_type : Option ℕ

-- `codec.upper() in _H26X_PARAMETER_SET_TYPES`
abbrev pub has_parameter_sets : Codec → Bool
has_parameter_sets h264 = true
has_parameter_sets h265 = true
has_parameter_sets _ = false

abbrev pub packets_or_none : Option (List RtpPacket) → List RtpPacket
packets_or_none none = []
packets_or_none (some packets) = packets

abbrev pub buffer_or : Lookups → Option Buffer → Buffer
buffer_or l none = init (max 1 l.reorder_max_packets) l.reorder_max_delay l.enable_debug_stats
buffer_or l (some b) = b

-- The payload of an audio packet: itself, or decrypted; nothing where it must be dropped
unfoldable pub audio_payload : Dave → Option DaveSession → Option ℕ → Bytes → Option Bytes
unfolding looks_like_dave_protocol_frame can_decrypt_dave
audio_payload dave none user_id payload = some payload
audio_payload dave (some session) none payload =
    if looks_like_dave_protocol_frame payload then none else some payload
audio_payload dave (some session) (some user) payload =
    if can_decrypt_dave dave user
    then elim (session.decrypt user audio payload) [
      | decrypted plain ↦ some plain
      | raised _ ↦ none
    ]
    else if looks_like_dave_protocol_frame payload
    then none
    else some payload

module _ {D : Type 0} where
  abbrev pub count : String → ℕ → Receiver D → Receiver D
  count key amount r = record r { tracker = tally key amount r.tracker }

  abbrev pub add_rtx :
      MediaType × Codec × ℕ
      → DecodedRtpPacket
      → Option DecodedRtpPacket
      → Receiver D
      → Option Classified × Receiver D
  add_rtx (media_type, codec, associated) decoded none r = (none, count "rtx_packets_too_short" 1 r)
  add_rtx (media_type, codec, associated) decoded (some carried) r = (
    some (record {
      media_type = media_type;
      codec = codec;
      decoded = carried;
      rtx = true;
      rtx_ssrc = some decoded.ssrc;
      rtx_payload_type = some decoded.payload_type;
    }),
    r,
  )

  abbrev pub add_primary :
      Option (MediaType × Codec) → DecodedRtpPacket → Receiver D → Option Classified × Receiver D
  add_primary none decoded r = (none, r)
  add_primary (some (media_type, codec)) decoded r = (
    some (record {
      media_type = media_type;
      codec = codec;
      decoded = decoded;
      rtx = false;
      rtx_ssrc = none;
      rtx_payload_type = none;
    }),
    elim media_type [ video ↦ count "primary_packets_received" 1 r | audio ↦ r ],
  )

  -- The codec lookup of `_decode_decoded_media_packet`, by the entry of the RTX table
  unfoldable pub classify_by :
      Lookups
      → Option (MediaType × Codec × ℕ)
      → DecodedRtpPacket
      → Receiver D
      → Option Classified × Receiver D
  unfolding unwrap_rtx
  classify_by l none decoded r = add_primary (get decoded.payload_type l.payload_types) decoded r
  classify_by l (some (media_type, codec, associated)) decoded r =
      add_rtx (media_type, codec, associated) decoded
        (unwrap_rtx l.rtx_ssrc_media_ssrcs associated decoded) (count "rtx_packets_received" 1 r)

  unfoldable pub classify : Lookups → DecodedRtpPacket → Receiver D → Option Classified × Receiver D
  unfolding classify_by
  classify l decoded r =
      classify_by l
        (if r.tracker.rtx_enabled then get decoded.payload_type l.rtx_payload_types else none)
        decoded r

  -- `_maybe_send_startup_video_pli`
  unfoldable pub maybe_send_startup_video_pli : Codec → ℕ → Receiver D → Receiver D
  maybe_send_startup_video_pli codec ssrc r =
      if not (has_parameter_sets codec) || elem ssrc r.startup_plis then r else record r {
        startup_plis = ssrc ∷ r.startup_plis;
        tracker = emit (send_video_pli r.tracker.ssrc ssrc) r.tracker;
      }

  -- The counter of the receiver reports goes up where one is sent.
  abbrev pub record_receipt : List Packet × Reports → Receiver D → Receiver D
  record_receipt ([], reports) r = record r { reports = reports }
  record_receipt (p ∷ packets, reports) r = record r {
    reports = reports;
    tracker = emit (p ∷ packets) (tally "rtcp_receiver_reports_sent" 1 r.tracker);
  }

  -- The receiver report that a primary packet may cause
  unfoldable pub report_receipt : ℕ → DecodedRtpPacket → ℕ → ℕ → Receiver D → Receiver D
  unfolding maybe_send_video_rtcp_receiver_report
  report_receipt ssrc decoded received_at now r =
      record_receipt
        (maybe_send_video_rtcp_receiver_report r.tracker.ssrc ssrc decoded.sequence
          decoded.timestamp received_at now r.reports)
        r

  abbrev pub time_of : Receiver D → ℕ → DecodedRtpPacket → ℕ → Option RtcpTime
  time_of r wall decoded ssrc =
      rtcp_time_for_packet r.reports.sender_reports ssrc decoded.timestamp decoded.rtp_extensions
        wall

  -- A frame that cannot be opened yet goes to the queue.
  abbrev pub stash : ℕ → ReceivedVideoPacket → Bytes → List RtpPacket → Receiver D → Receiver D
  stash now packet payload rtp_packets r = record r {
    pending_dave_video_frames =
        stash_dave_video_frame now
          (record {
            decoded = packet.decoded;
            codec = packet.codec;
            ssrc = packet.ssrc;
            user_id = packet.user_id;
            raw = packet.raw;
            payload = payload;
            rtp_packets = rtp_packets;
            received_at = packet.received_at;
            queued_at = now;
          })
          r.pending_dave_video_frames;
  }

  -- The end of `_decode_video_frame`, by the outcome of the decryption
  unfoldable pub finish_frame :
      ℕ
      → ℕ
      → ReceivedVideoPacket
      → Bytes
      → List RtpPacket
      → Bool
      → Decrypted
      → Receiver D
      → List MediaPacket × Receiver D
  unfolding is_retryable_dave_decrypt_error
  finish_frame wall now packet frame rtp_packets looks_like_dave (decrypted payload) r = (
    make_video_media_packet packet.decoded packet.codec packet.ssrc packet.user_id packet.raw
          payload rtp_packets packet.received_at (time_of r wall packet.decoded packet.ssrc)
        ∷ [],
    r,
  )
  finish_frame wall now packet frame rtp_packets looks_like_dave (raised message) r =
      if looks_like_dave && is_retryable_dave_decrypt_error message
      then ([], stash now packet frame rtp_packets r)
      else ([], count "video_frame_decrypt_failures" 1 r)

  -- `_decode_video_frame`, by what the depacketizer returned
  unfoldable pub after_depacketizer :
      Lookups
      → ℕ
      → ℕ
      → ReceivedVideoPacket
      → List RtpPacket
      → Option Bytes
      → Receiver D
      → List MediaPacket × Receiver D
  unfolding finish_frame looks_like_dave_protocol_frame can_attempt_with decrypt_with
  after_depacketizer l wall now packet rtp_packets none r =
      let key : ℕ × ℕ = (packet.ssrc, packet.decoded.payload_type) in
      if packet.decoded.marker
      then (
        [],
        count "video_frames_dropped_at_marker" 1
            (record r { frame_rtp_packets = put key [] r.frame_rtp_packets }),
      )
      else ([], count "video_frame_packets_buffered" 1 r)
  after_depacketizer l wall now packet rtp_packets (some frame) r =
      let key : ℕ × ℕ = (packet.ssrc, packet.decoded.payload_type) in
      let r1 = record r { frame_rtp_packets = put key [] r.frame_rtp_packets } in
      let looks_like_dave = looks_like_dave_protocol_frame frame in
      if looks_like_dave && not (can_attempt_video_dave_decrypt l.dave packet.user_id)
      then ([], stash now packet frame rtp_packets r1)
      else finish_frame wall now packet frame rtp_packets looks_like_dave
          (decrypt_video_frame l.dave packet.user_id frame) r1

  -- The depacketizer of a stream, or a new one where there is none yet
  abbrev pub depacketizer_or : Option D → Option D → Option D
  depacketizer_or new none = new
  depacketizer_or new (some d) = some d

  -- `_decode_video_frame`, by what `push_packet` returned or raised
  abbrev pub after_push :
      Lookups
      → ℕ
      → ℕ
      → ReceivedVideoPacket
      → List RtpPacket
      → Result BatchError (Option Bytes)
      → Receiver D
      → Batch × Receiver D
  after_push l wall now packet rtp_packets (err e) r = (err e, r)
  after_push l wall now packet rtp_packets (ok frame) r =
      let (out, r') = after_depacketizer l wall now packet rtp_packets frame r in (ok out, r')

  -- `_decode_video_frame`, by the depacketizer
  abbrev pub decode_with :
      Depacketizer D
      → Lookups
      → ℕ
      → ℕ
      → ReceivedVideoPacket
      → Option D
      → Receiver D
      → Batch × Receiver D
  decode_with native l wall now packet none r = (err unsupported_codec, r)
  decode_with native l wall now packet (some depacketizer) r =
      let key : ℕ × ℕ = (packet.ssrc, packet.decoded.payload_type) in
      let rtp_packets = packets_or_none (get key r.frame_rtp_packets) ++ (packet.rtp_packet ∷ []) in
      let (frame, depacketizer') = native.push_packet depacketizer packet.decoded in
      after_push l wall now packet rtp_packets frame (record r {
        depacketizers = put key depacketizer' r.depacketizers;
        frame_rtp_packets = put key rtp_packets r.frame_rtp_packets;
      })

  unfoldable pub decode_video_frame :
      Depacketizer D → Lookups → ℕ → ℕ → ReceivedVideoPacket → Receiver D → Batch × Receiver D
  unfolding after_depacketizer
  decode_video_frame native l wall now packet r =
      let key : ℕ × ℕ = (packet.ssrc, packet.decoded.payload_type) in
      decode_with native l wall now packet
        (depacketizer_or (native.make packet.codec) (get key r.depacketizers)) r

  -- The loop of `_decode_video_packets` over the packets that are ready
  unfoldable pub decode_ready :
      Depacketizer D → Lookups → ℕ → ℕ → List ReceivedVideoPacket → Receiver D → Batch × Receiver D
  unfolding decode_video_frame
  decode_ready native l wall now [] r = (ok [], r)
  decode_ready native l wall now (packet ∷ packets) r =
      and_then
        (decode_video_frame native l wall now packet (count "video_packets_reorder_ready" 1 r))
        (λ out r1.
          decode_ready native l wall now packets
            (if is_empty out then r1 else count "video_frames_completed" 1 r1))

  unfoldable pub decode_video_packets :
      Depacketizer D → Lookups → ℕ → ℕ → ReceivedVideoPacket → Receiver D → Batch × Receiver D
  unfolding decode_ready push
  decode_video_packets native l wall now received r =
      let key : ℕ × ℕ = (received.ssrc, received.decoded.payload_type) in
      let out = push now received (buffer_or l (get key r.reorder_buffers)) in
      if r.tracker.rtx_enabled
      then decode_ready native l wall now out.0
          (record r { reorder_buffers = put key out.1 r.reorder_buffers })
      else decode_ready native l wall now (received ∷ []) r

  -- The end of `_decode_decoded_media_packet` for an audio packet. `payload_type` is the one on the
  -- wire.
  unfoldable pub decode_audio :
      Lookups
      → ℕ
      → ℕ
      → ℕ
      → Classified
      → Option ℕ
      → Bytes
      → RtpPacket
      → Receiver D
      → List MediaPacket
  unfolding audio_payload is_unencrypted_opus_silence_payload audio_speaking_flags_from_extensions
  decode_audio l wall received_at payload_type c user_id raw rtp_packet r =
      let decoded = c.decoded in
      let silence = is_unencrypted_opus_silence_payload l.opus_silence decoded.payload in
      elim (audio_payload l.dave (if silence then none else l.dave.session) user_id
        decoded.payload) [
          | none ↦ []
          | some payload ↦
              record {
                media_type = audio;
                codec = c.codec;
                payload = payload;
                payload_type = payload_type;
                marker = decoded.marker;
                sequence = decoded.sequence;
                timestamp = decoded.timestamp;
                ssrc = decoded.ssrc;
                user_id = user_id;
                raw = raw;
                extension_payload = decoded.extension_payload;
                rtp_extended = decoded.extended;
                rtp_extensions = decoded.rtp_extensions;
                rtp_packets = rtp_packet ∷ [];
                received_at = some received_at;
                rtcp_time = time_of r wall decoded decoded.ssrc;
                speaking_flags = some (
                    if silence
                    then 0
                    else audio_speaking_flags_from_extensions l.flags decoded.rtp_extensions);
                audio_level = rtp_packet.audio_level;
                audio_voice_activity = rtp_packet.audio_voice_activity;
              }
              ∷ []
        ]

  -- What happens to the receiver when a video packet arrives, before it is decoded
  unfoldable pub note_video : ℕ → ℕ → Classified → Receiver D → Receiver D
  unfolding maybe_send_startup_video_pli report_receipt track_video_receive_sequence
  note_video received_at now c r =
      let ssrc = c.decoded.ssrc in
      let r1 = maybe_send_startup_video_pli c.codec ssrc (count "video_packets_received" 1 r) in
      let r2 = if c.rtx then r1 else report_receipt ssrc c.decoded received_at now r1 in
      record r2 {
        tracker = track_video_receive_sequence ssrc c.decoded.sequence c.rtx now r2.tracker;
      }

  -- `_decode_decoded_media_packet` of a packet that was classified, by its media type
  unfoldable pub decode_classified :
      Depacketizer D
      → Lookups
      → ℕ
      → ℕ
      → ℕ
      → ℕ
      → Bytes
      → MediaType
      → Classified
      → Receiver D
      → Batch × Receiver D
  unfolding note_video decode_video_packets decode_audio rtp_packet_from_decoded
  decode_classified native l wall now received_at payload_type raw media_type c r =
      let user_id = get c.decoded.ssrc l.ssrc_user_ids in
      let rtp_packet =
        rtp_packet_from_decoded c.decoded media_type c.codec c.decoded.ssrc user_id raw c.rtx
          c.rtx_ssrc c.rtx_payload_type in
      elim media_type [
        | video ↦
            decode_video_packets native l wall now
              (record {
                decoded = c.decoded;
                codec = c.codec;
                ssrc = c.decoded.ssrc;
                user_id = user_id;
                raw = raw;
                rtp_packet = rtp_packet;
                received_at = received_at;
              })
              (note_video received_at now c r)
        | audio ↦ (ok (decode_audio l wall received_at payload_type c user_id raw rtp_packet r), r)
      ]

  unfoldable pub decode_if_known :
      Depacketizer D
      → Lookups
      → ℕ
      → ℕ
      → ℕ
      → ℕ
      → Bytes
      → Option Classified
      → Receiver D
      → Batch × Receiver D
  unfolding decode_classified
  decode_if_known native l wall now received_at payload_type raw none r = (ok [], r)
  decode_if_known native l wall now received_at payload_type raw (some c) r =
      decode_classified native l wall now received_at payload_type raw c.media_type c r

  unfoldable pub decode_decoded_media_packet :
      Depacketizer D
      → Lookups
      → ℕ
      → ℕ
      → ℕ
      → Bytes
      → DecodedRtpPacket
      → Receiver D
      → Batch × Receiver D
  unfolding classify decode_if_known
  decode_decoded_media_packet native l wall now received_at raw decoded r =
      let (known, r1) = classify l decoded r in
      decode_if_known native l wall now received_at decoded.payload_type raw known r1

  unfoldable pub decode_each :
      Depacketizer D
      → Lookups
      → ℕ
      → ℕ
      → ℕ
      → List (Bytes × DecodedRtpPacket)
      → Receiver D
      → Batch × Receiver D
  unfolding decode_decoded_media_packet
  decode_each native l wall now received_at [] r = (ok [], r)
  decode_each native l wall now received_at ((raw, decoded) ∷ rest) r =
      and_then (decode_decoded_media_packet native l wall now received_at raw decoded r)
        (λ _ r1. decode_each native l wall now received_at rest r1)

  -- `_decode_media_packets`, of a batch that `decrypt_rtp_packets` decrypted
  unfoldable pub decode_media_packets :
      Depacketizer D
      → Lookups
      → ℕ
      → ℕ
      → ℕ
      → List (Bytes × DecodedRtpPacket)
      → Receiver D
      → Batch × Receiver D
  unfolding decode_each retry_pending_dave_video_frames
  decode_media_packets native l wall now received_at batch r =
      let (ready, waiting) =
        retry_pending_dave_video_frames l.dave (time_of r wall) now r.pending_dave_video_frames in
      let (packets, r1) =
        decode_each native l wall now received_at batch
          (record r { pending_dave_video_frames = waiting }) in
      (map_ok (λ more. ready ++ more) packets, r1)

  -- `_handle_socket_packets`, up to the calls of the callback: a batch that raised gives no packets
  unfoldable pub handle_socket_packets :
      Depacketizer D
      → Lookups
      → ℕ
      → ℕ
      → ℕ
      → List (Bytes × DecodedRtpPacket)
      → Receiver D
      → List MediaPacket × Receiver D
  unfolding decode_media_packets
  handle_socket_packets native l wall now received_at batch r =
      let (packets, r1) = decode_media_packets native l wall now received_at batch r in
      (packets_of packets, r1)
