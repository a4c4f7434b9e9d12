-- ===== src/Frames/Truncated.antt =====
-- An IVF file that ends inside a frame, read by `_IVFFrameReader`.
use discord_native_voice.Prelude.{ℕ, ltb, if◌then◌else◌}
use discord_native_voice.Prelude.Bytes.{Bytes}
use discord_native_voice.Prelude.Result.{Result}
use discord_native_voice.Frames.Ivf.{ReadError, truncated_header, truncated_payload}

-- The error of a frame of which only so many bytes are there.
abbrev pub error_at : ℕ → ReadError
error_at cut = if ltb cut 12 then truncated_header else truncated_payload
