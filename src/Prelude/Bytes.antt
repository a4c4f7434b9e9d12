-- ===== src/Prelude/Bytes.antt =====
-- Byte strings as lists of numbers, with the big-endian fields of Python's `struct`.
use discord_native_voice.Prelude.Lists.{take, drop, All}
use Prim.Native.Nat.{ℕ, ◌+◌, ◌*◌, ◌/◌, ◌%◌, ◌<◌}
use mathlib.Core.Path.{◌≡◌, refl}
use mathlib.Core.Bool.{Bool, true, false, ◌&&◌}
use discord_native_voice.Prelude.Tests.{nat_eq}
use mathlib.Core.List.{List, [], ◌∷◌}
use native.Mathlib.Omega.{arith}

abbrev pub Bytes : Type 0
Bytes = List ℕ

abbrev pub IsBytes : Bytes → Type 0
IsBytes = All (λ b. b < 256)

-- `struct.pack('>H', v)`
abbrev pub be16 : ℕ → Bytes
be16 v = v / 256 % 256 ∷ v % 256 ∷ []

-- `struct.pack('>I', v)`
abbrev pub be32 : ℕ → Bytes
be32 v = v / 16777216 % 256 ∷ v / 65536 % 256 ∷ v / 256 % 256 ∷ v % 256 ∷ []

-- `int.from_bytes(data, 'big')`
abbrev pub from_be_acc : ℕ → Bytes → ℕ
from_be_acc acc [] = acc
from_be_acc acc (b ∷ bs) = from_be_acc (acc * 256 + b) bs

abbrev pub from_be : Bytes → ℕ
from_be = from_be_acc 0

-- `struct.unpack_from('>I', data, offset)[0]`, where the data reach
abbrev pub u32_at : ℕ → Bytes → ℕ
u32_at offset bs = from_be (take 4 (drop offset bs))

abbrev pub u16_at : ℕ → Bytes → ℕ
u16_at offset bs = from_be (take 2 (drop offset bs))

pub from_be-be32 : (v : ℕ) → v < 4294967296 → from_be (be32 v) ≡ v
from_be-be32 v h = omega arith

pub from_be-be16 : (v : ℕ) → v < 65536 → from_be (be16 v) ≡ v
from_be-be16 v h = omega arith

-- `a == b`
unfoldable pub bytes_eq : Bytes → Bytes → Bool
bytes_eq [] [] = true
bytes_eq (x ∷ xs) (y ∷ ys) = nat_eq x y && bytes_eq xs ys
bytes_eq _ _ = false

pub bytes_eq_refl : (a : Bytes) → bytes_eq a a ≡ true
unfolding bytes_eq
bytes_eq_refl [] = refl
bytes_eq_refl (x ∷ xs) = ground (arith, bytes_eq_refl xs)
