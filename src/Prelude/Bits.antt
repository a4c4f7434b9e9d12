-- ===== src/Prelude/Bits.antt =====
-- Laws of `bit_or` at variables: its recursion on binary digits, and the single bits of a result.
use discord_native_voice.Prelude.Tests.{nat_eq, if◌then◌else◌}
use Prim.Native.Nat.{
  ℕ, zero, suc, ◌+◌, ◌*◌, ◌/◌, ◌%◌, ◌^◌, ◌≤◌, ◌<◌, max, bit_or, digits, bit_or-bitwise,
}
use native.Mathlib.Nat.{pow-suc}
use mathlib.Core.Path.{◌≡◌, refl, ap, ◌∙◌}
use native.Mathlib.Omega.{arith}

abbrev or_digits : ℕ → ℕ → ℕ → ℕ
or_digits rounds a b = digits (λ rest. rest) max rounds a b

-- Any number of rounds that covers `a` gives the same digits.
or_digits_rounds : (r t a b : ℕ) → a ≤ r → a ≤ t → or_digits r a b ≡ or_digits t a b
or_digits_rounds zero zero a b hr ht = refl
or_digits_rounds zero (suc t) zero b hr ht = refl
or_digits_rounds (suc r) zero zero b hr ht = refl
or_digits_rounds (suc r) (suc t) zero b hr ht = refl
or_digits_rounds zero (suc t) (suc a) b hr ht = elim hr [ ]
or_digits_rounds (suc r) zero (suc a) b hr ht = elim ht [ ]
or_digits_rounds (suc r) (suc t) (suc a) b hr ht =
    omega (arith, or_digits_rounds r t (suc a / 2) (b / 2) (omega arith) (omega arith))

zero-bit_or : (b : ℕ) → bit_or 0 b ≡ b
zero-bit_or b = bit_or-bitwise 0 b

pub bit_or_digit : (a b : ℕ) → bit_or a b ≡ 2 * bit_or (a / 2) (b / 2) + max (a % 2) (b % 2)
bit_or_digit zero b = omega (arith, zero-bit_or b, zero-bit_or (b / 2))
bit_or_digit (suc a) b = omega (
  arith,
  bit_or-bitwise (suc a) b,
  bit_or-bitwise (suc a / 2) (b / 2),
  or_digits_rounds a (suc a / 2) (suc a / 2) (b / 2) (omega arith) (omega arith),
)

-- Bit `k` of a number, 0 or 1.
unfoldable pub bit : ℕ → ℕ → ℕ
bit a zero = a % 2
bit a (suc k) = bit (a / 2) k

pub bit-le : (k a : ℕ) → bit a k ≤ 1
unfolding bit
bit-le zero a = omega arith
bit-le (suc k) a = bit-le k (a / 2)

pub bit-zero : (k : ℕ) → bit 0 k ≡ 0
unfolding bit
bit-zero zero = refl
bit-zero (suc k) = bit-zero k

pub bit-bit_or : (k a b : ℕ) → bit (bit_or a b) k ≡ max (bit a k) (bit b k)
unfolding bit
bit-bit_or zero a b = omega (arith, bit_or_digit a b)
bit-bit_or (suc k) a b =
    let halved : bit_or a b / 2 ≡ bit_or (a / 2) (b / 2) = omega (arith, bit_or_digit a b) in
    ap (λ (t : ℕ). bit t k) halved ∙ bit-bit_or k (a / 2) (b / 2)

-- `1 << j` has the bit `j` and no other.
pub bit-pow : (k j : ℕ) → bit (2 ^ j) k ≡ (if nat_eq k j then 1 else 0)
unfolding bit
bit-pow zero zero = refl
bit-pow zero (suc j) = grind (arith, pow-suc 2 j)
bit-pow (suc k) zero = grind (arith, bit-zero k)
bit-pow (suc k) (suc j) =
    let halved : 2 ^ suc j / 2 ≡ 2 ^ j = omega (arith, pow-suc 2 j) in
    ground (arith, ap (λ (t : ℕ). bit t k) halved, bit-pow k j)

-- `a | (q << k)` is a sum where `a` fits the low `k` bits.
pub bit_or_above : (k a q : ℕ) → a < 2 ^ k → bit_or a (q * 2 ^ k) ≡ a + q * 2 ^ k
bit_or_above zero zero q h = omega (arith, zero-bit_or (q * 1))
bit_or_above zero (suc a) q h = absurd (omega arith)
bit_or_above (suc k) a q h =
    let doubled : q * 2 ^ suc k ≡ q * 2 ^ k * 2 =
      omega (arith, ap (λ (t : ℕ). q * t) (pow-suc 2 k)) in
    let halved : q * 2 ^ suc k / 2 ≡ q * 2 ^ k = omega (arith, doubled) in
    omega (
      arith,
      doubled,
      bit_or_digit a (q * 2 ^ suc k),
      ap (λ (t : ℕ). bit_or (a / 2) t) halved,
      bit_or_above k (a / 2) q (omega (arith, pow-suc 2 k)),
    )

-- `|` stays within a width.
pub bit_or-lt : (k a b : ℕ) → a < 2 ^ k → b < 2 ^ k → bit_or a b < 2 ^ k
bit_or-lt zero zero b ha hb = omega (arith, zero-bit_or b)
bit_or-lt zero (suc a) b ha hb = absurd (omega arith)
bit_or-lt (suc k) a b ha hb = omega (
  arith,
  pow-suc 2 k,
  bit_or_digit a b,
  bit_or-lt k (a / 2) (b / 2) (omega (arith, pow-suc 2 k)) (omega (arith, pow-suc 2 k)),
)

zero_below : (n a : ℕ) → a ≤ n → bit_or a 0 ≡ a
zero_below zero zero h = zero-bit_or 0
zero_below zero (suc a) h = absurd (omega arith)
zero_below (suc n) zero h = zero-bit_or 0
zero_below (suc n) (suc a) h =
    omega (arith, bit_or_digit (suc a) 0, zero_below n (suc a / 2) (omega arith))

bit_or-zero : (a : ℕ) → bit_or a 0 ≡ a
bit_or-zero a = zero_below a a (omega arith)

comm_below : (n a b : ℕ) → a ≤ n → bit_or a b ≡ bit_or b a
comm_below zero zero b h = omega (arith, zero-bit_or b, bit_or-zero b)
comm_below zero (suc a) b h = absurd (omega arith)
comm_below (suc n) zero b h = omega (arith, zero-bit_or b, bit_or-zero b)
comm_below (suc n) (suc a) b h = omega (
  arith,
  bit_or_digit (suc a) b,
  bit_or_digit b (suc a),
  comm_below n (suc a / 2) (b / 2) (omega arith),
)

-- `|` does not depend on the order of its arguments.
pub bit_or_comm : (a b : ℕ) → bit_or a b ≡ bit_or b a
bit_or_comm a b = comm_below a a b (omega arith)
