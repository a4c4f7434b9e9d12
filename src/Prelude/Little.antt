-- ===== src/Prelude/Little.antt =====
-- The little-endian fields of Python's `struct`, which refuses a number that does not fit.
use discord_native_voice.Prelude.Tests.{ltb, lt→ltb, if◌then◌else◌}
use discord_native_voice.Prelude.Lists.{length}
use discord_native_voice.Prelude.Bytes.{Bytes}
use discord_native_voice.Prelude.Result.{Result, ok, err}
use Prim.Native.Nat.{ℕ, zero, suc, ◌+◌, ◌*◌, ◌/◌, ◌%◌, ◌^◌, ◌<◌}
use mathlib.Core.Path.{◌≡◌, refl, ap}
use mathlib.Core.List.{[], ◌∷◌}
use native.Mathlib.Omega.{arith}

abbrev pub le : ℕ → ℕ → Bytes
le zero v = []
le (suc n) v = v % 256 ∷ le n (v / 256)

-- `int.from_bytes(data, 'little')`
abbrev pub from_le : Bytes → ℕ
from_le [] = 0
from_le (b ∷ bs) = b + 256 * from_le bs

-- `struct.pack` of one field of `n` bytes, or the error given
abbrev pub pack_le {ℓ} : {E : Type ℓ} → E → ℕ → ℕ → Result E Bytes
pack_le error n v = if ltb v (256 ^ n) then ok (le n v) else err error

pub length-le : (n v : ℕ) → length (le n v) ≡ n
length-le zero v = refl
length-le (suc n) v = ap suc (length-le n (v / 256))

pub from_le-le : (n v : ℕ) → v < 256 ^ n → from_le (le n v) ≡ v
from_le-le zero v h = omega arith
from_le-le (suc n) v h = omega (arith, from_le-le n (v / 256) (omega arith))

pub pack_le_fits {ℓ} :
    {E : Type ℓ} (error : E) (n v : ℕ) → v < 256 ^ n → pack_le error n v ≡ ok (le n v)
pack_le_fits error n v h = rw (lt→ltb v (256 ^ n) h) refl
