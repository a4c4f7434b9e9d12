-- ===== src/Frames/Ivf.antt =====
-- `_IVFFrameReader` of discord/ext/native_voice/media.py, and what it makes of the bytes of a stream.
use discord_native_voice.Prelude.{
  ◌≡◌, refl, ap, ◌∙◌, not, ◌||◌, inl, inr, [], ◌∷◌, length, take, drop, nat_eq, is_empty,
  Bool-cases, if◌then◌else◌,
}
use discord_native_voice.Prelude.Bytes.{Bytes, bytes_eq}
use discord_native_voice.Prelude.Little.{from_le}
use discord_native_voice.Prelude.Result.{Result, ok, err}
use discord_native_voice.Frames.{ByteStream, read_exact}
use discord_native_voice.Frames.Read.{read_exact_lem}

-- The messages of the `RuntimeError`s.
pub data ReadError : Type 0 where
  not_ivf truncated_header truncated_payload : ReadError

-- `b'DKIF'`
abbrev pub ivf_magic : Bytes
ivf_magic = 68 ∷ 75 ∷ 73 ∷ 70 ∷ []

module _ {S : Type 0} ⦃io : ByteStream S⦄ where
  -- `_IVFFrameReader.__init__`: the stream after its header
  unfoldable pub open_ivf : S → Result ReadError S
  open_ivf s =
      let header = read_exact 32 s in
      if not (nat_eq (length header.0) 32) || not (bytes_eq (take 4 header.0) ivf_magic)
      then err not_ivf
      else ok header.1

  -- `_IVFFrameReader.read_frame`
  unfoldable pub read_frame : S → Result ReadError (Bytes × S)
  read_frame s =
      let frame_header = read_exact 12 s in
      let frame_size = from_le (take 4 frame_header.0) in
      let frame = read_exact frame_size frame_header.1 in
      if is_empty frame_header.0
      then ok ([], frame_header.1)
      else if not (nat_eq (length frame_header.0) 12)
      then err truncated_header
      else if not (nat_eq (length frame.0) frame_size)
      then err truncated_payload
      else ok frame

-- The next frame and the rest of the bytes of a file.
abbrev pub parse_payload : Bytes → Bytes → Result ReadError (Bytes × Bytes)
parse_payload header rest =
    let frame_size = from_le (take 4 header) in
    if is_empty header
    then ok ([], rest)
    else if not (nat_eq (length header) 12)
    then err truncated_header
    else if not (nat_eq (length (take frame_size rest)) frame_size)
    then err truncated_payload
    else ok (take frame_size rest, drop frame_size rest)

abbrev pub parse_frame : Bytes → Result ReadError (Bytes × Bytes)
parse_frame bytes = parse_payload (take 12 bytes) (drop 12 bytes)

module _ {S : Type 0} ⦃io : ByteStream S⦄ where
  -- A result, with the bytes still to be read in place of the stream.
  abbrev pub seen : Result ReadError (Bytes × S) → Result ReadError (Bytes × Bytes)
  seen (ok (frame, s)) = ok (frame, io.left s)
  seen (err e) = err e

  -- `read_frame` after the read of its header.
  abbrev after_header : Bytes × S → Result ReadError (Bytes × S)
  after_header (header, s) =
      let frame_size = from_le (take 4 header) in
      let frame = read_exact frame_size s in
      if is_empty header
      then ok ([], s)
      else if not (nat_eq (length header) 12)
      then err truncated_header
      else if not (nat_eq (length frame.0) frame_size)
      then err truncated_payload
      else ok frame

  seen-after_header :
      (header : Bytes) (s : S) → seen (after_header (header, s)) ≡ parse_payload header (io.left s)
  seen-after_header header s =
      let frame_size = from_le (take 4 header) in
      let (got, after) = read_exact_lem frame_size s in
      elim (Bool-cases (is_empty header)) [
        | inl e ↦ rw e refl
        | inr e ↦ elim (Bool-cases (nat_eq (length header) 12)) [
          | inr f ↦ rw (e, f) refl
          | inl f ↦ elim (Bool-cases (nat_eq (length (take frame_size (io.left s))) frame_size)) [
            | inl h ↦ rw (e, f, got, h, after) refl
            | inr h ↦ rw (e, f, got, h) refl
          ]
        ]
      ]

  -- However the stream cuts its reads, `read_frame` does what `parse_frame` does on the bytes that
  -- are left.
  pub read_frame-parse_frame : (s : S) → seen (read_frame s) ≡ parse_frame (io.left s)
  unfolding read_frame
  read_frame-parse_frame s =
      let (got, after) = read_exact_lem 12 s in
      let header = (read_exact 12 s).0 in
      let next = (read_exact 12 s).1 in
      seen-after_header header next
      ∙ ap (λ h. parse_payload h (io.left next)) got
      ∙ ap (λ r. parse_payload (take 12 (io.left s)) r) after
