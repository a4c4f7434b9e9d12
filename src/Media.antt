-- ===== src/Media.antt =====
-- Media packets: `MediaPacket` of discord/ext/native_voice/media.py, and the functions of client.py
-- that fill it from RTP packets and their header extensions. Wall-clock times are in units of
-- 2 ^ -18 seconds, those of the absolute send time extension.
-- pub mod Extensions
use discord_native_voice.Prelude.{
  ℕ, ◌+◌, ◌-◌, ◌*◌, ◌/◌, ◌%◌, ◌^◌, Bool, true, false, not, ◌||◌, ◌&&◌, Option, none, some, List, [],
  ◌∷◌, length, take, drop, ltb, leb, nat_eq, bit_or, bit_and, ℕ-eq, is_empty, if◌then◌else◌,
}
use discord_native_voice.Prelude.Int.{ℤ, sub_ℕ}
use discord_native_voice.Prelude.Dict.{Dict, get}
use discord_native_voice.Prelude.Bytes.{Bytes, bytes_eq, from_be}
use discord_native_voice.Rtp.{
  MediaType, audio, video, Codec, RtpExtension, RtpPacket, DecodedRtpPacket,
  rtp_ext_absolute_send_time, rtp_ext_discord_speaking, rtp_ext_audio_level,
}
use discord_native_voice.Rtp.Sequence.{rtp_timestamp_delta}

-- The time of a packet: from its own extension, or an NTP time in units of 2 ^ -32 seconds and a
-- distance of so many ticks of a clock rate.
pub data RtcpTime : Type 0 where
  absolute : ℤ → RtcpTime
  mapped : ℤ → ℕ → ℕ → RtcpTime

pub record MediaPacket : Type 0 where
  pub media_type : MediaType
  pub codec : Codec
  pub payload : Bytes
  pub payload_type : ℕ
  pub marker : Bool
  pub sequence : ℕ
  pub timestamp : ℕ
  pub ssrc : ℕ
  pub user_id : Option ℕ
  pub raw : Bytes
  pub extension_payload : Bytes
  pub rtp_extended : Bool
  pub rtp_extensions : List RtpExtension
  pub rtp_packets : List RtpPacket
  pub received_at : Option ℕ
  pub rtcp_time : Option RtcpTime
  pub speaking_flags : Option ℕ
  pub audio_level : Option ℕ
  pub audio_voice_activity : Option Bool

-- `SpeakingFlags.VALID_FLAGS` of discord.py
pub record SpeakingFlagValues : Type 0 where
  pub voice : ℕ
  pub soundshare : ℕ
  pub priority : ℕ

abbrev pub send_time_cycle : ℕ
send_time_cycle = 64 * 2 ^ 18

-- The send time nearest to `now` among those with the given place in a cycle of 64 seconds
unfoldable pub nearest_send_time : ℕ → ℕ → ℤ
nearest_send_time value now =
    let send_time = now - now % send_time_cycle + value in
    if ltb (32 * 2 ^ 18) (send_time - now)
    then sub_ℕ send_time send_time_cycle
    else if ltb (32 * 2 ^ 18) (now - send_time)
    then sub_ℕ (send_time + send_time_cycle) 0
    else sub_ℕ send_time 0

unfoldable pub absolute_send_time_from_extensions : List RtpExtension → ℕ → Option RtcpTime
unfolding nearest_send_time
absolute_send_time_from_extensions [] now = none
absolute_send_time_from_extensions (extension ∷ rest) now =
    let later = absolute_send_time_from_extensions rest now in
    if not (nat_eq extension.id rtp_ext_absolute_send_time)
      || not (nat_eq (length extension.payload) 3)
    then later
    else some (absolute (nearest_send_time (from_be extension.payload) now))

-- The first byte, of an extension that has one
abbrev pub first_byte : Bytes → ℕ
first_byte [] = 0
first_byte (b ∷ _) = b

unfoldable pub speaking_from_value : SpeakingFlagValues → ℕ → ℕ
speaking_from_value flags value =
    let speaking = bit_and (value / 2) (bit_or flags.voice flags.soundshare) in
    if nat_eq value 0
    then flags.voice
    else if nat_eq (value % 2) 1
    then bit_or speaking (bit_or flags.voice flags.priority)
    else speaking

unfoldable pub audio_speaking_flags_from_extensions : SpeakingFlagValues → List RtpExtension → ℕ
unfolding speaking_from_value
audio_speaking_flags_from_extensions flags [] = flags.voice
audio_speaking_flags_from_extensions flags (extension ∷ rest) =
    let later = audio_speaking_flags_from_extensions flags rest in
    if nat_eq extension.id rtp_ext_discord_speaking && nat_eq (length extension.payload) 1
    then speaking_from_value flags (first_byte extension.payload)
    else later

unfoldable pub audio_level_from_extensions : List RtpExtension → Option ℕ × Option Bool
audio_level_from_extensions [] = (none, none)
audio_level_from_extensions (extension ∷ rest) =
    let later = audio_level_from_extensions rest in
    let value = first_byte extension.payload in
    if nat_eq extension.id rtp_ext_audio_level && nat_eq (length extension.payload) 1
    then (some (value % 128), some (nat_eq (value / 128 % 2) 1))
    else later

unfoldable pub all_bytes : ℕ → Bytes → Bool
all_bytes n [] = true
all_bytes n (b ∷ bytes) = nat_eq b n && all_bytes n bytes

-- `_is_unencrypted_opus_silence_payload`, for a given `opus.OPUS_SILENCE`
unfoldable pub is_unencrypted_opus_silence_payload : Bytes → Bytes → Bool
unfolding all_bytes
is_unencrypted_opus_silence_payload silence payload =
    let padding = drop (length silence) payload in
    if bytes_eq payload silence
    then true
    else if not (bytes_eq (take (length silence) payload) silence)
    then false
    else not (is_empty padding) && (leb (length padding) 255 && all_bytes (length padding) padding)

unfoldable pub rtcp_time_from : Option (ℤ × ℕ × ℕ) → ℕ → List RtpExtension → ℕ → Option RtcpTime
unfolding absolute_send_time_from_extensions
rtcp_time_from none timestamp extensions wall = absolute_send_time_from_extensions extensions wall
rtcp_time_from (some (ntp_time, report_timestamp, clock_rate)) timestamp extensions wall =
    elim (rtp_timestamp_delta timestamp report_timestamp) [
      | none ↦ absolute_send_time_from_extensions extensions wall
      | some delta ↦ some (mapped ntp_time delta clock_rate)
    ]

unfoldable pub rtcp_time_for_packet :
    Dict ℕ (ℤ × ℕ × ℕ) → ℕ → ℕ → List RtpExtension → ℕ → Option RtcpTime
unfolding rtcp_time_from
rtcp_time_for_packet sender_reports ssrc timestamp extensions wall =
    rtcp_time_from (get ssrc sender_reports) timestamp extensions wall

-- The level of an audio packet, nothing for a video packet
abbrev pub level_of : MediaType → List RtpExtension → Option ℕ × Option Bool
level_of audio extensions = audio_level_from_extensions extensions
level_of video extensions = (none, none)

unfoldable pub rtp_packet_from_decoded :
    DecodedRtpPacket
    → MediaType
    → Codec
    → ℕ
    → Option ℕ
    → Bytes
    → Bool
    → Option ℕ
    → Option ℕ
    → RtpPacket
unfolding audio_level_from_extensions
rtp_packet_from_decoded decoded media_type codec ssrc user_id raw rtx rtx_ssrc rtx_payload_type =
    let level = level_of media_type decoded.rtp_extensions in
    record {
      media_type = media_type;
      codec = codec;
      payload = decoded.payload;
      payload_type = decoded.payload_type;
      marker = decoded.marker;
      sequence = decoded.sequence;
      timestamp = decoded.timestamp;
      ssrc = ssrc;
      user_id = user_id;
      raw = raw;
      extension_payload = decoded.extension_payload;
      rtp_extended = decoded.extended;
      rtp_extensions = decoded.rtp_extensions;
      rtx = rtx;
      rtx_ssrc = rtx_ssrc;
      rtx_payload_type = rtx_payload_type;
      audio_level = level.0;
      audio_voice_activity = level.1;
    }

-- `_make_video_media_packet`, with the time it computes
abbrev pub make_video_media_packet :
    DecodedRtpPacket
    → Codec
    → ℕ
    → Option ℕ
    → Bytes
    → Bytes
    → List RtpPacket
    → ℕ
    → Option RtcpTime
    → MediaPacket
make_video_media_packet decoded codec ssrc user_id raw payload rtp_packets received_at time =
    record {
      media_type = video;
      codec = codec;
      payload = payload;
      payload_type = decoded.payload_type;
      marker = true;
      sequence = decoded.sequence;
      timestamp = decoded.timestamp;
      ssrc = ssrc;
      user_id = user_id;
      raw = raw;
      extension_payload = decoded.extension_payload;
      rtp_extended = decoded.extended;
      rtp_extensions = decoded.rtp_extensions;
      rtp_packets = rtp_packets;
      received_at = some received_at;
      rtcp_time = time;
      speaking_flags = none;
      audio_level = none;
      audio_voice_activity = none;
    }
