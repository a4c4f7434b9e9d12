-- ===== src/Feedback/Tests.antt =====
-- Runs of the feedback packets (discord/ext/native_voice/client.py), and their theorems at them.
use discord_native_voice.Prelude.{
  ℕ, ◌≡◌, ◌%◌, refl, List, [], ◌∷◌, map, elem, select, dedup, length, min, All, arith,
}
use discord_native_voice.Feedback.{nack_blocks, pack_blocks, gather, count_blocks, send_rtcp_nack}
use discord_native_voice.Feedback.Blocks.{named, named-nack_blocks}
use discord_native_voice.Feedback.Wire.{Reads, count-nack_blocks, send_rtcp_nack-Reads}

-- Two numbers near 65535 across the wrap, one twice, and one far away.
abbrev lost : List ℕ
lost = 65535 ∷ 0 ∷ 65536 ∷ 15 ∷ 40 ∷ []

blocks_run : nack_blocks lost ≡ (65535, 0x8001) ∷ (40, 0) ∷ []
unfolding nack_blocks pack_blocks gather dedup select
blocks_run = refl

named-nack_blocks_example : named (nack_blocks lost) 15 ≡ elem 15 (map (λ s. s % 65536) lost)
named-nack_blocks_example = named-nack_blocks lost 15 (omega arith)

count-nack_blocks_example :
    count_blocks (nack_blocks lost) ≡ length (dedup (map (λ s. s % 65536) lost))
count-nack_blocks_example = count-nack_blocks lost

send_rtcp_nack-Reads_example :
    All (Reads 7 (nack_blocks lost)) (send_rtcp_nack 1 7 lost)
    × (length (send_rtcp_nack 1 7 lost) ≡ min 1 (length lost))
send_rtcp_nack-Reads_example = send_rtcp_nack-Reads 1 7 lost (omega arith) (omega arith)
