-- ===== src/Feedback/Wire.antt =====
-- A NACK packet on the wire (discord/ext/native_voice/client.py): what the loop of
-- `_handle_rtcp_nack` reads from a body that `_send_rtcp_nack` wrote, and how many numbers it counts.
use discord_native_voice.Prelude.{
  ℕ, zero, suc, ◌+◌, ◌-◌, ◌*◌, ◌%◌, ◌^◌, ◌≤◌, ◌<◌, ◌≡◌, refl, ap, true, false, ◌&&◌, List, [], ◌∷◌,
  map, length, dedup, elem, IsDistinct, IsDistinct-dedup, length-dedup, drop, min, All, leb, nat_eq,
  bit_or, arith, Bool-cases, inl, inr, if◌then◌else◌,
}
use native.Mathlib.Nat.{pow-le-pow_right}
use discord_native_voice.Prelude.Bits.{bit, bit-le, bit-bit_or, bit-pow, bit-zero, bit_or-lt}
use discord_native_voice.Prelude.Bytes.{u32_at, u16_at}
use discord_native_voice.Feedback.{
  Packet, Block, distance, gather, pack_blocks, nack_blocks, block_bytes, nack_packet,
  send_rtcp_nack, sum_bits, bit_count, read_blocks, count_blocks,
}
use discord_native_voice.Feedback.Blocks.{
  masked, masked_step, masked_none, gather_rest, All-dedup, All-residues,
}

-- Setting a bit that was clear makes one bit more, at every width that has it.
sum_bits_or :
    (n j a : ℕ)
    → bit a j ≡ 0
    → sum_bits n (bit_or a (2 ^ j)) ≡ (if leb n j then sum_bits n a else sum_bits n a + 1)
unfolding sum_bits
sum_bits_or zero j a clear = ground arith
sum_bits_or (suc n) j a clear = elim (Bool-cases (nat_eq n j)) [
  | inl same ↦
      let e : n ≡ j = ground arith in
      ground (arith, sum_bits_or n j a clear, bit-bit_or n a (2 ^ j), bit-pow n j, ap (bit a) e)
  | inr other ↦
      ground (arith, sum_bits_or n j a clear, bit-bit_or n a (2 ^ j), bit-pow n j, bit-le n a)
]

abbrev AllClear : ℕ → ℕ → List ℕ → Type 0
AllClear pid blp = All (λ s. masked pid blp s ≡ false)

AllClear-step :
    (pid blp s : ℕ) (rest : List ℕ)
    → pid < 65536
    → s < 65536
    → All (λ x. x < 65536) rest
    → (leb 1 (distance s pid) && leb (distance s pid) 16) ≡ true
    → elem s rest ≡ false
    → AllClear pid blp rest
    → AllClear pid (bit_or blp (2 ^ (distance s pid - 1))) rest
unfolding elem
AllClear-step pid blp s [] hp hs h near new clear = tt
AllClear-step pid blp s (x ∷ rest) hp hs h near new clear = (
  ground (arith, masked_step x s pid blp h.0 hs hp near, clear.0),
  AllClear-step pid blp s rest hp hs h.1 near (ground arith) clear.1,
)

gather_count :
    (pid blp : ℕ) (rest : List ℕ)
    → pid < 65536
    → All (λ x. x < 65536) rest
    → IsDistinct rest
    → AllClear pid blp rest
    → bit_count (gather pid blp rest).0 + length (gather pid blp rest).1
      ≡ bit_count blp + length rest
unfolding gather
gather_count pid blp [] hp h d clear = refl
gather_count pid blp (s ∷ rest) hp h d clear =
    elim (Bool-cases (leb 1 (distance s pid) && leb (distance s pid) 16)) [
      | inl near ↦ rw near (
          ground (
            arith,
            gather_count pid (bit_or blp (2 ^ (distance s pid - 1))) rest hp h.1 d.1
                (AllClear-step pid blp s rest hp h.0 h.1 near d.0 clear.1),
            sum_bits_or 16 (distance s pid - 1) blp
                (ground (arith, clear.0, bit-le (distance s pid - 1) blp)),
          ))
      | inr far ↦ rw far (ground (arith, gather_count pid blp rest hp h.1 d.1 clear.1))
    ]

elem-gather :
    (pid blp n : ℕ) (rest : List ℕ) → elem n rest ≡ false → elem n (gather pid blp rest).1 ≡ false
unfolding gather elem
elem-gather pid blp n [] h = refl
elem-gather pid blp n (s ∷ rest) h =
    elim (Bool-cases (leb 1 (distance s pid) && leb (distance s pid) 16)) [
      | inl near ↦
          rw near (elem-gather pid (bit_or blp (2 ^ (distance s pid - 1))) n rest (ground arith))
      | inr far ↦ rw far (ground (arith, elem-gather pid blp n rest))
    ]

IsDistinct-gather :
    (pid blp : ℕ) (rest : List ℕ) → IsDistinct rest → IsDistinct (gather pid blp rest).1
unfolding gather
IsDistinct-gather pid blp [] h = tt
IsDistinct-gather pid blp (s ∷ rest) h =
    elim (Bool-cases (leb 1 (distance s pid) && leb (distance s pid) 16)) [
      | inl near ↦ rw near (IsDistinct-gather pid (bit_or blp (2 ^ (distance s pid - 1))) rest h.1)
      | inr far ↦ rw far (elem-gather pid blp s rest h.0, IsDistinct-gather pid blp rest h.1)
    ]

AllClear-zero : (pid : ℕ) (rest : List ℕ) → AllClear pid 0 rest
AllClear-zero pid [] = tt
AllClear-zero pid (s ∷ rest) = (masked_none pid s, AllClear-zero pid rest)

sum_bits-zero : (n : ℕ) → sum_bits n 0 ≡ 0
unfolding sum_bits
sum_bits-zero zero = refl
sum_bits-zero (suc n) = omega (arith, sum_bits-zero n, bit-zero n)

count-pack_blocks :
    (rounds : ℕ) (pending : List ℕ)
    → All (λ s. s < 65536) pending
    → IsDistinct pending
    → length pending ≤ rounds
    → count_blocks (pack_blocks rounds pending) ≡ length pending
unfolding pack_blocks count_blocks
count-pack_blocks zero [] h d fuel = refl
count-pack_blocks zero (pid ∷ rest) h d fuel = elim fuel [ ]
count-pack_blocks (suc rounds) [] h d fuel = refl
count-pack_blocks (suc rounds) (pid ∷ rest) h d fuel =
    let (all, len) = gather_rest pid 0 rest h.1 in
    omega (
      arith,
      gather_count pid 0 rest h.0 h.1 d.1 (AllClear-zero pid rest),
      sum_bits-zero 16,
      count-pack_blocks rounds (gather pid 0 rest).1 all (IsDistinct-gather pid 0 rest d.1)
          (omega (arith, len)),
    )

-- The receiver of a NACK counts each number that was asked for once: one for each packet ID and one
-- for each bit that is set, together the number of different 16-bit residues in the request.
pub count-nack_blocks :
    (sequences : List ℕ)
    → count_blocks (nack_blocks sequences) ≡ length (dedup (map (λ s. s % 65536) sequences))
unfolding nack_blocks
count-nack_blocks sequences =
    let residues = map (λ s. s % 65536) sequences in
    count-pack_blocks (length (dedup residues)) (dedup residues)
      (All-dedup residues (All-residues sequences)) (IsDistinct-dedup residues) (omega arith)

pow-lt : (d : ℕ) → 1 ≤ d → d ≤ 16 → 2 ^ (d - 1) < 2 ^ 16
pow-lt d lo hi =
    let below : 2 ^ (d - 1) ≤ 2 ^ 15 =
      pow-le-pow_right (omega arith) {i = d - 1} {j = 15} (omega arith) in
    omega (arith, below)

gather_mask : (pid blp : ℕ) (rest : List ℕ) → blp < 2 ^ 16 → (gather pid blp rest).0 < 2 ^ 16
unfolding gather
gather_mask pid blp [] h = h
gather_mask pid blp (s ∷ rest) h =
    elim (Bool-cases (leb 1 (distance s pid) && leb (distance s pid) 16)) [
      | inl near ↦ rw near (
          gather_mask pid (bit_or blp (2 ^ (distance s pid - 1))) rest (
            bit_or-lt 16 blp (2 ^ (distance s pid - 1)) h
              (pow-lt (distance s pid) (ground arith) (ground arith))))
      | inr far ↦ rw far (gather_mask pid blp rest h)
    ]

abbrev AreWords : List Block → Type 0
AreWords = All (λ b. (b.0 < 65536) × (b.1 < 65536))

pack_blocks-AreWords :
    (rounds : ℕ) (pending : List ℕ)
    → All (λ s. s < 65536) pending
    → AreWords (pack_blocks rounds pending) × (length (pack_blocks rounds pending) ≤ rounds)
unfolding pack_blocks
pack_blocks-AreWords zero pending h = (tt, omega arith)
pack_blocks-AreWords (suc rounds) [] h = (tt, omega arith)
pack_blocks-AreWords (suc rounds) (pid ∷ rest) h =
    let (words, len) =
      pack_blocks-AreWords rounds (gather pid 0 rest).1 (gather_rest pid 0 rest h.1).0 in
    (((h.0, gather_mask pid 0 rest (omega arith)), words), omega (arith, len))

read_blocks-block_bytes :
    (blocks : List Block) → AreWords blocks → read_blocks (block_bytes blocks) ≡ blocks
unfolding read_blocks block_bytes
read_blocks-block_bytes [] h = refl
read_blocks-block_bytes ((pid, blp) ∷ blocks) h =
    ground (arith, read_blocks-block_bytes blocks h.1, h.0)

length-block_bytes : (blocks : List Block) → length (block_bytes blocks) ≡ 4 * length blocks
unfolding block_bytes
length-block_bytes [] = refl
length-block_bytes (b ∷ blocks) = omega (arith, length-block_bytes blocks)

length-residues : (xs : List ℕ) → length (map (λ s. s % 65536) xs) ≡ length xs
length-residues [] = refl
length-residues (x ∷ xs) = ap suc (length-residues xs)

length-nack_blocks : (sequences : List ℕ) → length (nack_blocks sequences) ≤ length sequences
unfolding nack_blocks
length-nack_blocks sequences =
    let residues = map (λ s. s % 65536) sequences in
    omega (
      arith,
      (pack_blocks-AreWords (length (dedup residues)) (dedup residues)
          (All-dedup residues (All-residues sequences))).1,
      length-dedup residues,
      length-residues sequences,
    )

nack_blocks-AreWords : (sequences : List ℕ) → AreWords (nack_blocks sequences)
unfolding nack_blocks
nack_blocks-AreWords sequences =
    let residues = map (λ s. s % 65536) sequences in
    (pack_blocks-AreWords (length (dedup residues)) (dedup residues)
      (All-dedup residues (All-residues sequences))).0

one_packet :
    (sender media_ssrc : ℕ) (sequences : List ℕ)
    → length (nack_packet sender media_ssrc (nack_blocks sequences)) ≡ min 1 (length sequences)
unfolding nack_packet nack_blocks dedup
one_packet sender media_ssrc [] = refl
one_packet sender media_ssrc (s ∷ sequences) = omega arith

-- What the receiver of a feedback packet reads: the SSRC that it is about, the blocks, and a length
-- field that counts the 32-bit words of the packet, less one.
pub record Reads (media_ssrc : ℕ) (blocks : List Block) (p : Packet) : Type 0 where
  pub about : u32_at 0 p.body ≡ media_ssrc
  pub listed : read_blocks (drop 4 p.body) ≡ blocks
  pub sized : 4 * (u16_at 2 p.header + 1) ≡ length p.header + length p.body

nack_packet-Reads :
    (sender media_ssrc : ℕ) (blocks : List Block)
    → media_ssrc < 4294967296
    → AreWords blocks
    → length blocks ≤ 253
    → All (Reads media_ssrc blocks) (nack_packet sender media_ssrc blocks)
unfolding nack_packet
nack_packet-Reads sender media_ssrc [] hs words few = tt
nack_packet-Reads sender media_ssrc (b ∷ blocks) hs words few = (
  record {
    about = omega arith;
    listed = read_blocks-block_bytes (b ∷ blocks) words;
    sized = omega (arith, length-block_bytes (b ∷ blocks));
  },
  tt,
)

-- A NACK for up to 253 sequences goes out as one packet (none, if there is nothing to ask for), and
-- its receiver reads the SSRC that it is about, the blocks as they were built, and the right length.
pub send_rtcp_nack-Reads :
    (sender media_ssrc : ℕ) (sequences : List ℕ)
    → media_ssrc < 4294967296
    → length sequences ≤ 253
    → All (Reads media_ssrc (nack_blocks sequences)) (send_rtcp_nack sender media_ssrc sequences)
      × (length (send_rtcp_nack sender media_ssrc sequences) ≡ min 1 (length sequences))
unfolding send_rtcp_nack
send_rtcp_nack-Reads sender media_ssrc sequences hs few = (
  nack_packet-Reads sender media_ssrc (nack_blocks sequences) hs (nack_blocks-AreWords sequences)
      (omega (arith, length-nack_blocks sequences)),
  one_packet sender media_ssrc sequences,
)
