-- ===== src/Rtp.antt =====
-- The RTP and RTCP data of discord/ext/native_voice/rtp.py: its constants and its dataclasses.
-- A time is a natural number of microseconds of the clock that it was read from.
pub mod Sequence
mod Tests
use discord_native_voice.Prelude.{ℕ, ◌%◌, ◌*◌, ◌^◌, Bool, Option, List}
use discord_native_voice.Prelude.Int.{ℤ}
use discord_native_voice.Prelude.Bytes.{Bytes}

abbrev pub rtcp_rtp_feedback : ℕ
rtcp_rtp_feedback = 205

abbrev pub rtcp_payload_feedback : ℕ
rtcp_payload_feedback = 206

abbrev pub rtcp_sender_report : ℕ
rtcp_sender_report = 200

abbrev pub rtcp_receiver_report : ℕ
rtcp_receiver_report = 201

abbrev pub rtcp_generic_nack : ℕ
rtcp_generic_nack = 1

abbrev pub rtcp_picture_loss_indication : ℕ
rtcp_picture_loss_indication = 1

abbrev pub rtcp_nack_max_sequences : ℕ
rtcp_nack_max_sequences = 0xFD

abbrev pub video_nack_max_outstanding : ℕ
video_nack_max_outstanding = 1000

abbrev pub video_nack_max_retries : ℕ
video_nack_max_retries = 100

-- 0.1 seconds
abbrev pub video_nack_retry_interval : ℕ
video_nack_retry_interval = 100_000

abbrev pub rtp_ext_audio_level : ℕ
rtp_ext_audio_level = 1

abbrev pub rtp_ext_absolute_send_time : ℕ
rtp_ext_absolute_send_time = 3

abbrev pub rtp_ext_discord_speaking : ℕ
rtp_ext_discord_speaking = 9

-- The two values of the source's `media_type` strings.
pub data MediaType : Type 0 where
  audio video : MediaType

-- The codec names, after the source's `.upper()`.
pub data Codec : Type 0 where
  opus pcm av1 h265 h264 vp8 vp9 : Codec

-- The source's field `data` is `payload`.
pub record RtpExtension : Type 0 where
  pub id : ℕ
  pub payload : Bytes

pub record RtcpReceiverReport : Type 0 where
  pub sender_ssrc : ℕ
  pub source_ssrc : ℕ
  pub fraction_lost : ℕ
  pub cumulative_lost : ℤ
  pub extended_high_sequence : ℕ
  pub jitter : ℕ
  pub last_sender_report : ℕ
  pub delay_since_last_sender_report : ℕ
  pub received_at : ℕ

pub record RtpSendStats : Type 0 where
  pub ssrc : ℕ
  pub sequence : ℕ
  pub transport_sequence : Option ℕ
  pub updated_at : ℕ

pub record DecodedRtpPacket : Type 0 where
  pub payload_type : ℕ
  pub marker : Bool
  pub padded : Bool
  pub sequence : ℕ
  pub timestamp : ℕ
  pub ssrc : ℕ
  pub extended : Bool
  pub extension_payload : Bytes
  pub rtp_extensions : List RtpExtension
  pub payload : Bytes

pub record RtpPacket : Type 0 where
  pub media_type : MediaType
  pub codec : Codec
  pub payload : Bytes
  pub payload_type : ℕ
  pub marker : Bool
  pub sequence : ℕ
  pub timestamp : ℕ
  pub ssrc : ℕ
  pub user_id : Option ℕ
  pub raw : Bytes
  pub extension_payload : Bytes
  pub rtp_extended : Bool
  pub rtp_extensions : List RtpExtension
  pub rtx : Bool
  pub rtx_ssrc : Option ℕ
  pub rtx_payload_type : Option ℕ
  pub audio_level : Option ℕ
  pub audio_voice_activity : Option Bool

pub record ReceivedVideoPacket : Type 0 where
  pub decoded : DecodedRtpPacket
  pub codec : Codec
  pub ssrc : ℕ
  pub user_id : Option ℕ
  pub raw : Bytes
  pub rtp_packet : RtpPacket
  pub received_at : ℕ

-- The property `_ReceivedVideoPacket.sequence`.
unfoldable pub sequence : ReceivedVideoPacket → ℕ
sequence p = p.decoded.sequence % 65536
