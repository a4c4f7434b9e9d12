-- ===== src/Feedback.antt =====
-- The RTCP feedback that discord/ext/native_voice/client.py builds: generic NACKs and picture loss
-- indications. A packet is the header and the body that go to `TransportCrypto.encrypt_rtcp`; the
-- encryption and the socket are not part of the model.
pub mod Blocks
pub mod Wire
mod Tests
use discord_native_voice.Prelude.{
  ℕ, zero, suc, ◌+◌, ◌-◌, ◌*◌, ◌%◌, ◌^◌, Bool, ◌&&◌, List, [], ◌∷◌, ◌++◌, map, length, dedup, leb,
  bit_or, if◌then◌else◌,
}
use discord_native_voice.Prelude.Bits.{bit}
use discord_native_voice.Prelude.Bytes.{Bytes, be16, be32}
use discord_native_voice.Rtp.{
  rtcp_generic_nack, rtcp_rtp_feedback, rtcp_payload_feedback, rtcp_picture_loss_indication,
}

pub record Packet : Type 0 where
  pub header : Bytes
  pub body : Bytes

-- A packet ID and the bitmask of following lost packets.
abbrev pub Block : Type 0
Block = ℕ × ℕ

-- `(sequence - pid) & 0xFFFF`
abbrev pub distance : ℕ → ℕ → ℕ
distance sequence pid = (sequence + 65536 - pid) % 65536

-- The inner loop of `_send_rtcp_nack` for one `pid`: the bitmask and `remaining`.
unfoldable pub gather : ℕ → ℕ → List ℕ → ℕ × List ℕ
gather pid blp [] = (blp, [])
gather pid blp (sequence ∷ rest) =
    let d = distance sequence pid in
    let near = leb 1 d && leb d 16 in
    let (mask, remaining) = gather pid (if near then bit_or blp (2 ^ (d - 1)) else blp) rest in
    (mask, if near then remaining else sequence ∷ remaining)

-- The outer loop, `while pending_sequences`. Each round takes at least its `pid`, so as many rounds
-- as there are sequences are enough.
unfoldable pub pack_blocks : ℕ → List ℕ → List Block
unfolding gather
pack_blocks zero pending = []
pack_blocks (suc rounds) [] = []
pack_blocks (suc rounds) (pid ∷ rest) =
    (pid, (gather pid 0 rest).0) ∷ pack_blocks rounds (gather pid 0 rest).1

unfoldable pub nack_blocks : List ℕ → List Block
unfolding pack_blocks
nack_blocks sequences =
    let pending = dedup (map (λ s. s % 65536) sequences) in pack_blocks (length pending) pending

-- `struct.pack('>BBHI', …)`
abbrev pub rtcp_header : ℕ → ℕ → ℕ → ℕ → Bytes
rtcp_header first packet_type words sender = first ∷ packet_type ∷ be16 words ++ be32 sender

unfoldable pub block_bytes : List Block → Bytes
block_bytes [] = []
block_bytes ((pid, blp) ∷ blocks) = be16 pid ++ (be16 blp ++ block_bytes blocks)

-- `_send_rtcp_nack`: one packet, or none where there are no blocks
unfoldable pub nack_packet : ℕ → ℕ → List Block → List Packet
unfolding block_bytes
nack_packet sender media_ssrc [] = []
nack_packet sender media_ssrc (b ∷ blocks) =
    record {
      header =
          rtcp_header (0x80 + rtcp_generic_nack) rtcp_rtp_feedback (2 + length (b ∷ blocks)) sender;
      body = be32 (media_ssrc % 4294967296) ++ block_bytes (b ∷ blocks);
    }
    ∷ []

unfoldable pub send_rtcp_nack : ℕ → ℕ → List ℕ → List Packet
unfolding nack_packet nack_blocks
send_rtcp_nack sender media_ssrc sequences = nack_packet sender media_ssrc (nack_blocks sequences)

-- `send_video_pli`
unfoldable pub send_video_pli : ℕ → ℕ → List Packet
send_video_pli sender ssrc =
    record {
      header = rtcp_header (0x80 + rtcp_picture_loss_indication) rtcp_payload_feedback 2 sender;
      body = be32 (ssrc % 4294967296);
    }
    ∷ []

-- `int.bit_count` of a 16-bit mask
unfoldable pub sum_bits : ℕ → ℕ → ℕ
sum_bits zero a = 0
sum_bits (suc n) a = sum_bits n a + bit a n

abbrev pub bit_count : ℕ → ℕ
bit_count = sum_bits 16

-- The blocks that the loop of `_handle_rtcp_nack` reads, from offset 4 on.
unfoldable pub read_blocks : Bytes → List Block
read_blocks (a ∷ b ∷ c ∷ d ∷ rest) = (a * 256 + b, c * 256 + d) ∷ read_blocks rest
read_blocks _ = []

-- `nack_sequences` of `_handle_rtcp_nack`
unfoldable pub count_blocks : List Block → ℕ
unfolding sum_bits
count_blocks [] = 0
count_blocks ((pid, blp) ∷ blocks) = 1 + bit_count blp + count_blocks blocks
