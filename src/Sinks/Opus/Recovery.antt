-- ===== src/Sinks/Opus/Recovery.antt =====
-- The packets that `decode_packets` recovers with forward error correction.
use discord_native_voice.Prelude.{
  ℕ, ◌+◌, ◌%◌, ◌<◌, ◌≡◌, ap, ◌∙◌, Bool, true, ◌&&◌, inl, inr, Option, none, some, All, arith,
  Bool-cases,
}
use discord_native_voice.Prelude.Bytes.{Bytes}
use discord_native_voice.Prelude.Result.{ok}
use discord_native_voice.Rtp.Sequence.{sequence_delta, rtp_timestamp_delta}
use discord_native_voice.Media.{MediaPacket}
use discord_native_voice.Sinks.Opus.{
  OpusDecoder, OpusDecodeState, packet_samples, one_lost, lost_before, recover_with, recover,
}

-- A packet that comes so many samples after another one, as its successor.
abbrev pub Follows : ℕ → ℕ → ℕ → MediaPacket → Type 0
Follows sequence timestamp samples packet =
    (packet.sequence ≡ (sequence + 1) % 65536)
    × (packet.timestamp ≡ (timestamp + samples) % 4294967296)

Follows-lost_before :
    (samples sequence timestamp : ℕ) (payload : Bytes) (packet : MediaPacket)
    → sequence < 65536
    → packet.sequence < 65536
    → timestamp < 4294967296
    → packet.timestamp < 4294967296
    → one_lost samples packet (some sequence) (some timestamp) ≡ true
    → Follows sequence timestamp samples (lost_before samples payload packet)
unfolding sequence_delta rtp_timestamp_delta
Follows-lost_before samples sequence timestamp payload packet hs hp ht hq lost = ground arith

recovered :
    {D : Type 0} (codec : OpusDecoder D) (P : MediaPacket → Type 0) (samples : ℕ)
    (packet : MediaPacket) (o : Option Bytes × D)
    → ((payload : Bytes) → P (lost_before samples payload packet))
    → All P (recover_with codec samples packet o).0
recovered codec P samples packet (none, decoder) h = tt
recovered codec P samples packet (some payload, decoder) h = (h payload, tt)

module _ {D : Type 0} (codec : OpusDecoder D) where
  -- A packet that is recovered before a packet of so many samples is the one right after the last that
  -- was decoded: its sequence number is the next one, and its timestamp is these samples further on.
  pub recover-Follows :
      (fec : Bool) (packet : MediaPacket) (state : OpusDecodeState D)
      (sequence timestamp samples : ℕ)
      → packet_samples codec packet ≡ ok samples
      → state.sequence ≡ some sequence
      → state.timestamp ≡ some timestamp
      → sequence < 65536
      → packet.sequence < 65536
      → timestamp < 4294967296
      → packet.timestamp < 4294967296
      → All (Follows sequence timestamp samples) (recover codec fec packet state samples).0
  recover-Follows fec packet state sequence timestamp samples counted e1 e2 hs hp ht hq =
      let test : (fec && one_lost samples packet state.sequence state.timestamp)
          ≡ (fec && one_lost samples packet (some sequence) (some timestamp)) =
        ap (λ q. fec && one_lost samples packet q state.timestamp) e1
        ∙ ap (λ t. fec && one_lost samples packet (some sequence) t) e2 in
      elim (Bool-cases (fec && one_lost samples packet (some sequence) (some timestamp))) [
        | inr e ↦ rw (test ∙ e) tt
        | inl e ↦ rw (test ∙ e) (
            recovered codec (Follows sequence timestamp samples) samples packet
              (codec.decode packet.payload true state.decoder)
              (λ payload.
                Follows-lost_before samples sequence timestamp payload packet hs hp ht hq
                  (ground (arith, e))))
      ]
