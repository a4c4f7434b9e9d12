-- ===== src/Frames.antt =====
-- The streams of encoded video of discord/ext/native_voice/media.py: the readers of IVF and Annex B
-- and the sink that writes them. A stream that is read from is a parameter.
pub mod Read
pub mod Ivf
pub mod Sink
pub mod AnnexB
pub mod Source
pub mod RoundTrip
pub mod Truncated
mod Tests
use discord_native_voice.Prelude.{
  ℕ, zero, suc, ◌+◌, ◌-◌, ◌≤◌, ◌<◌, ◌≡◌, refl, List, [], ◌∷◌, ◌++◌, length, ltb, is_empty,
  if◌then◌else◌,
}
use discord_native_voice.Prelude.Bytes.{Bytes}

-- `IO[bytes]`: a read takes bytes off the front of what is left, at most as many as asked for, and
-- none only at the end.
pub record ByteStream (S : Type 0) : Type 0 where
  pub read : ℕ → S → Bytes × S
  pub left : S → Bytes
  pub read_splits : (n : ℕ) (s : S) → (read n s).0 ++ left (read n s).1 ≡ left s
  pub read_fits : (n : ℕ) (s : S) → length (read n s).0 ≤ n
  pub read_ends : (n : ℕ) (s : S) → 0 < n → (read n s).0 ≡ [] → left s ≡ []

module _ {S : Type 0} ⦃io : ByteStream S⦄ where
  -- The loop of `_read_exact`, on the bytes read so far
  unfoldable pub read_loop : ℕ → ℕ → Bytes → S → Bytes × S
  read_loop zero size chunks s = (chunks, s)
  read_loop (suc fuel) size chunks s =
      let chunk = io.read (size - length chunks) s in
      let rest = read_loop fuel size (chunks ++ chunk.0) chunk.1 in
      if ltb (length chunks) size
      then (if is_empty chunk.0 then (chunks, chunk.1) else rest)
      else (chunks, s)

  unfoldable pub read_exact : ℕ → S → Bytes × S
  unfolding read_loop
  read_exact size s = read_loop size size [] s
