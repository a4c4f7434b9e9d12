-- ===== src/Receive/Rtx.antt =====
-- Packets repaired over RTX, wrapped and unwrapped (discord/ext/native_voice/client.py).
use discord_native_voice.Prelude.{ℕ, ◌<◌, ◌≡◌, refl, false, some, ◌++◌, length, ltb, arith, ℕ-eq}
use discord_native_voice.Prelude.Dict.{Dict, get}
use discord_native_voice.Prelude.Bytes.{be16, from_be-be16}
use discord_native_voice.Rtp.{DecodedRtpPacket}
use discord_native_voice.Receive.{media_ssrc_of, unwrap_rtx}

-- RFC 4588: the original sequence number goes before the payload, under the numbers of the RTX
-- stream.
abbrev pub wrap_rtx : ℕ → ℕ → ℕ → DecodedRtpPacket → DecodedRtpPacket
wrap_rtx rtx_payload_type rtx_ssrc rtx_sequence p = record p {
  payload_type = rtx_payload_type;
  ssrc = rtx_ssrc;
  sequence = rtx_sequence;
  payload = be16 p.sequence ++ p.payload;
}

-- A packet that is sent again over RTX comes out as it was, its payload type, SSRC and sequence
-- number included, where the RTX SSRC is known to belong to its SSRC.
pub unwrap_rtx-wrap_rtx :
    (table : Dict ℕ ℕ) (rtx_payload_type rtx_ssrc rtx_sequence : ℕ) (p : DecodedRtpPacket)
    → p.sequence < 65536
    → get rtx_ssrc table ≡ some p.ssrc
    → unwrap_rtx table p.payload_type (wrap_rtx rtx_payload_type rtx_ssrc rtx_sequence p) ≡ some p
unfolding unwrap_rtx media_ssrc_of
unwrap_rtx-wrap_rtx table rtx_payload_type rtx_ssrc rtx_sequence p small known =
    let long : ltb (length (be16 p.sequence ++ p.payload)) 2 ≡ false = ground arith in
    rw (long, known, media_ssrc_of, from_be-be16 p.sequence small) refl
