-- ===== src/Reorder/Pop.antt =====
-- The loop of `_pop_ready` (discord/ext/native_voice/rtp.py): what it releases and what it leaves.
use discord_native_voice.Prelude.{
  ℕ, zero, suc, ◌+◌, ◌%◌, ◌≤◌, ◌≡◌, refl, min, false, none, some, List, [], ◌∷◌, length, ℕ-eq,
  arith, Option-cases, Bool-cases, nat_eq, inl, inr,
}
use mathlib.Core.Path.{subst}
use discord_native_voice.Prelude.Dict.{
  Dict, get, erase, IsUnique, IsUnique-erase, get-erase, length-erase,
}
use discord_native_voice.Rtp.{ReceivedVideoPacket, sequence}
use discord_native_voice.Reorder.{pop_loop, min_key}

-- Every stored packet has its own number's residue, in the half cycle from `lo` on.
abbrev pub Window : ℕ → Dict ℕ ReceivedVideoPacket → Type 0
Window lo d =
    (k : ℕ) (p : ReceivedVideoPacket)
    → get k d ≡ some p
    → (lo ≤ k) × (k ≤ lo + 0x7FFF) × (sequence p ≡ k % 65536)

-- The packets are those numbered `start`, `start + 1`, … by their 16-bit sequence numbers.
abbrev pub Consecutive : ℕ → List ReceivedVideoPacket → Type 0
Consecutive start [] = Unit
Consecutive start (p ∷ ps) = (sequence p ≡ start % 65536) × Consecutive (start + 1) ps

abbrev pub Popped :
    ℕ
    → Dict ℕ ReceivedVideoPacket
    → List ReceivedVideoPacket × ℕ × Dict ℕ ReceivedVideoPacket
    → Type 0
Popped e d (ready, stop, rest) =
    (stop ≡ e + length ready)
    × Consecutive e ready
    × IsUnique rest
    × Window stop rest
    × (get stop rest ≡ none)
    × (length rest + length ready ≡ length d)

Window-erase :
    (e : ℕ) (d : Dict ℕ ReceivedVideoPacket) → IsUnique d → Window e d → Window (e + 1) (erase e d)
Window-erase e d u w k p g = ground (arith, get-erase e k d u, w k p)

pub pop_loop-Popped :
    (rounds e : ℕ) (d : Dict ℕ ReceivedVideoPacket)
    → IsUnique d
    → Window e d
    → length d ≤ rounds
    → Popped e d (pop_loop rounds e d)
unfolding pop_loop get
pop_loop-Popped zero e [] u w h = (omega arith, tt, u, w, refl, refl)
pop_loop-Popped zero e (x ∷ d) u w h = elim h [ ]
pop_loop-Popped (suc rounds) e d u w h = elim (Option-cases (get e d)) [
  | inl missing ↦ rw (missing, pop_loop) (omega arith, tt, u, w, missing, omega arith)
  | inr (p, found) ↦
      let shorter = length-erase e p d found in
      let (stop_eq, ps, u', w', ends, sizes) =
        pop_loop-Popped rounds (e + 1) (erase e d) (IsUnique-erase e d u) (Window-erase e d u w)
          (omega arith) in
      rw (found, pop_loop) (omega arith, ((w e p found).2, ps), u', w', ends, omega arith)
]

-- A dictionary with an entry has a least key.
pub min_key_total :
    (d : Dict ℕ ReceivedVideoPacket) (k : ℕ) (p : ReceivedVideoPacket)
    → get k d ≡ some p
    → (m : ℕ) × (min_key d ≡ some m)
unfolding min_key get
min_key_total [] k p h = cc
min_key_total ((i, q) ∷ d) k p h = elim (Option-cases (min_key d)) [
  | inl empty ↦ (i, rw (empty, min_key) refl)
  | inr (n, least) ↦ (min i n, rw (least, min_key) refl)
]

min_key-none : (d : Dict ℕ ReceivedVideoPacket) → min_key d ≡ none → d ≡ []
unfolding min_key
min_key-none [] h = refl
min_key-none ((k, p) ∷ d) h = ground arith

-- The expected packet, if it is there, is the first to be released.
pub pop_loop_head :
    (e : ℕ) (p : ReceivedVideoPacket) (d : Dict ℕ ReceivedVideoPacket)
    → get e d ≡ some p
    → (ps : List ReceivedVideoPacket) × ((pop_loop (length d) e d).0 ≡ p ∷ ps)
unfolding pop_loop get
pop_loop_head e p [] found = cc
pop_loop_head e p (x ∷ d) found =
    ((pop_loop (length d) (e + 1) (erase e (x ∷ d))).0, rw (found, pop_loop) refl)

pub pop_loop_pos :
    (e : ℕ) (p : ReceivedVideoPacket) (d : Dict ℕ ReceivedVideoPacket)
    → get e d ≡ some p
    → 1 ≤ length (pop_loop (length d) e d).0
pop_loop_pos e p d found = let (ps, first) = pop_loop_head e p d found in rw first (omega arith)

-- No packet is lost or made, whatever the dictionary.
pub pop_loop_size :
    (rounds e : ℕ) (d : Dict ℕ ReceivedVideoPacket)
    → length (pop_loop rounds e d).2 + length (pop_loop rounds e d).0 ≡ length d
unfolding pop_loop
pop_loop_size zero e d = omega arith
pop_loop_size (suc rounds) e d = elim (Option-cases (get e d)) [
  | inl missing ↦ rw (missing, pop_loop) (omega arith)
  | inr (p, found) ↦
      rw (found, pop_loop)
        (omega (arith, pop_loop_size rounds (e + 1) (erase e d), length-erase e p d found))
]

-- If nothing was ready, nothing has changed.
pub pop_loop_nil :
    (rounds e : ℕ) (d : Dict ℕ ReceivedVideoPacket)
    → (pop_loop rounds e d).0 ≡ []
    → (pop_loop rounds e d).2 ≡ d
unfolding pop_loop
pop_loop_nil zero e d h = refl
pop_loop_nil (suc rounds) e d h = elim (Option-cases (get e d)) [
  | inl missing ↦ rw (missing, pop_loop) refl
  | inr (p, found) ↦ cc (rw (found, pop_loop) at h)
]

-- `min` of a dictionary is below each of its keys,
pub min_key-le :
    (d : Dict ℕ ReceivedVideoPacket) (m k : ℕ) (p : ReceivedVideoPacket)
    → min_key d ≡ some m
    → get k d ≡ some p
    → m ≤ k
unfolding min_key get
min_key-le [] m k p h g = cc
min_key-le ((i, q) ∷ d) m k p h g = elim (Option-cases (min_key d)) [
  | inl empty ↦ ground (arith, min_key-none d empty)
  | inr (n, least) ↦ ground (arith, min_key-le d n k p least)
]

min_other : (i n m : ℕ) → some (min i n) ≡ some m → nat_eq i m ≡ false → n ≡ m
min_other i n m h other = ground arith

-- and one of them.
pub get-min_key :
    (d : Dict ℕ ReceivedVideoPacket) (m : ℕ)
    → min_key d ≡ some m
    → (p : ReceivedVideoPacket) × (get m d ≡ some p)
unfolding min_key get
get-min_key [] m h = cc
get-min_key ((i, q) ∷ d) m h = elim (Option-cases (min_key d)) [
  | inl empty ↦ (q, ground arith)
  | inr (n, least) ↦
      let (p, found) = get-min_key d n least in
      elim (Bool-cases (nat_eq i m)) [
        | inl same ↦ (q, rw same refl)
        | inr other ↦
            let moved = min_other i n m (rw (least, min_key) at h) other in
            (p, rw other (subst (λ t. get t d ≡ some p) moved found))
      ]
]
