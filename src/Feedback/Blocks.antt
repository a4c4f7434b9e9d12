-- ===== src/Feedback/Blocks.antt =====
-- The blocks of a generic NACK (discord/ext/native_voice/client.py, `_send_rtcp_nack`) name exactly
-- the sequence numbers that were asked for.
use discord_native_voice.Prelude.{
  ℕ, zero, suc, ◌-◌, ◌%◌, ◌^◌, ◌≤◌, ◌<◌, ◌≡◌, refl, Bool, true, false, ◌&&◌, ◌||◌, List, [], ◌∷◌,
  map, length, select, ◌∙◌, dedup, elem, elem-dedup, All, leb, nat_eq, bit_or, arith, Bool-cases,
  inl, inr,
}
use mathlib.Core.Path.{subst}
use discord_native_voice.Prelude.Bits.{bit, bit-le, bit-bit_or, bit-pow, bit-zero}
use discord_native_voice.Feedback.{Block, distance, gather, pack_blocks, nack_blocks}

-- RFC 4585, 6.2.1: a block names its packet ID, and the packet i + 1 after it for each bit i of its
-- 16-bit mask that is set.
unfoldable pub names : Block → ℕ → Bool
names (pid, blp) x =
    nat_eq x pid
    || (leb 1 (distance x pid)
        && leb (distance x pid) 16
        && nat_eq (bit blp (distance x pid - 1)) 1)

unfoldable pub named : List Block → ℕ → Bool
unfolding names
named [] x = false
named (b ∷ blocks) x = names b x || named blocks x

-- What the mask says of a number near `pid`.
abbrev pub masked : ℕ → ℕ → ℕ → Bool
masked pid blp x =
    leb 1 (distance x pid) && leb (distance x pid) 16 && nat_eq (bit blp (distance x pid - 1)) 1

distance_injective :
    (x y pid : ℕ) → x < 65536 → y < 65536 → pid < 65536 → distance x pid ≡ distance y pid → x ≡ y
distance_injective x y pid hx hy hp h = omega arith

pub masked_step :
    (x y pid blp : ℕ)
    → x < 65536
    → y < 65536
    → pid < 65536
    → leb 1 (distance y pid) && leb (distance y pid) 16 ≡ true
    → masked pid (bit_or blp (2 ^ (distance y pid - 1))) x ≡ (nat_eq y x || masked pid blp x)
masked_step x y pid blp hx hy hp near = elim (Bool-cases (nat_eq y x)) [
  | inl same ↦
      let e : y ≡ x = ground arith in
      rw same (
        subst (λ z. masked pid (bit_or blp (2 ^ (distance y pid - 1))) z ≡ true) e
          (ground (
            arith,
            bit-bit_or (distance y pid - 1) blp (2 ^ (distance y pid - 1)),
            bit-pow (distance y pid - 1) (distance y pid - 1),
            bit-le (distance y pid - 1) blp,
          )))
  | inr other ↦ ground (
    arith,
    distance_injective x y pid hx hy hp,
    bit-bit_or (distance x pid - 1) blp (2 ^ (distance y pid - 1)),
    bit-pow (distance x pid - 1) (distance y pid - 1),
  )
]

gather_lem :
    (pid blp x : ℕ) (rest : List ℕ)
    → x < 65536
    → pid < 65536
    → All (λ s. s < 65536) rest
    → (masked pid (gather pid blp rest).0 x || elem x (gather pid blp rest).1)
      ≡ (masked pid blp x || elem x rest)
unfolding gather elem
gather_lem pid blp x [] hx hp h = refl
gather_lem pid blp x (s ∷ rest) hx hp h =
    elim (Bool-cases (leb 1 (distance s pid) && leb (distance s pid) 16)) [
      | inl near ↦ rw near (
          ground (
            arith,
            gather_lem pid (bit_or blp (2 ^ (distance s pid - 1))) x rest hx hp h.1,
            masked_step x s pid blp hx h.0 hp near,
          ))
      | inr far ↦ rw far (ground (arith, gather_lem pid blp x rest hx hp h.1))
    ]

pub gather_rest :
    (pid blp : ℕ) (rest : List ℕ)
    → All (λ s. s < 65536) rest
    → All (λ s. s < 65536) (gather pid blp rest).1 × (length (gather pid blp rest).1 ≤ length rest)
unfolding gather
gather_rest pid blp [] h = (tt, omega arith)
gather_rest pid blp (s ∷ rest) h =
    elim (Bool-cases (leb 1 (distance s pid) && leb (distance s pid) 16)) [
      | inl near ↦
          let (all, len) = gather_rest pid (bit_or blp (2 ^ (distance s pid - 1))) rest h.1 in
          rw near (all, omega (arith, len))
      | inr far ↦
          let (all, len) = gather_rest pid blp rest h.1 in rw far ((h.0, all), omega (arith, len))
    ]

pub masked_none : (pid x : ℕ) → masked pid 0 x ≡ false
masked_none pid x = ground (arith, bit-zero (distance x pid - 1))

pack_blocks_lem :
    (rounds x : ℕ) (pending : List ℕ)
    → x < 65536
    → All (λ s. s < 65536) pending
    → length pending ≤ rounds
    → named (pack_blocks rounds pending) x ≡ elem x pending
unfolding pack_blocks named elem
pack_blocks_lem zero x [] hx h fuel = refl
pack_blocks_lem zero x (pid ∷ rest) hx h fuel = elim fuel [ ]
pack_blocks_lem (suc rounds) x [] hx h fuel = refl
pack_blocks_lem (suc rounds) x (pid ∷ rest) hx h fuel =
    let (all, len) = gather_rest pid 0 rest h.1 in
    ground (
      arith,
      gather_lem pid 0 x rest hx h.0 h.1,
      masked_none pid x,
      pack_blocks_lem rounds x (gather pid 0 rest).1 hx all (omega (arith, len)),
    )

All-select :
    (test : ℕ → Bool) (xs : List ℕ)
    → All (λ s. s < 65536) xs
    → All (λ s. s < 65536) (select test xs)
unfolding select
All-select test [] h = tt
All-select test (x ∷ xs) h = elim (Bool-cases (test x)) [
  | inl pass ↦ rw pass (h.0, All-select test xs h.1)
  | inr fail ↦ rw fail (All-select test xs h.1)
]

pub All-dedup : (xs : List ℕ) → All (λ s. s < 65536) xs → All (λ s. s < 65536) (dedup xs)
unfolding dedup
All-dedup [] h = tt
All-dedup (x ∷ xs) h = (h.0, All-select _ (dedup xs) (All-dedup xs h.1))

pub All-residues : (xs : List ℕ) → All (λ s. s < 65536) (map (λ s. s % 65536) xs)
All-residues [] = tt
All-residues (x ∷ xs) = (omega arith, All-residues xs)

-- The blocks of a NACK packet name a 16-bit number exactly when it is the residue of one of the
-- sequences that were asked for: none is left out and none is added.
pub named-nack_blocks :
    (sequences : List ℕ) (x : ℕ)
    → x < 65536
    → named (nack_blocks sequences) x ≡ elem x (map (λ s. s % 65536) sequences)
unfolding nack_blocks
named-nack_blocks sequences x hx =
    let pending = dedup (map (λ s. s % 65536) sequences) in
    pack_blocks_lem (length pending) x pending hx
      (All-dedup (map (λ s. s % 65536) sequences) (All-residues sequences)) (omega arith)
    ∙ elem-dedup x (map (λ s. s % 65536) sequences)
