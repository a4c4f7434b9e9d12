-- ===== src/Frames/AnnexB/Slices.antt =====
-- The frames of `_AnnexBFrameReader` are consecutive slices of the bytes of the stream.
use discord_native_voice.Prelude.{
  ℕ, zero, suc, ◌+◌, ◌-◌, ◌*◌, ◌<◌, ◌≡◌, refl, sym, ap, ◌∙◌, Bool, true, false, inl, inr, ◌⊎◌,
  Option, none, some, List, [], ◌∷◌, ◌++◌, length, take, ltb, leb, is_empty, arith, Bool-cases,
  Option-cases, take-append-drop, append_assoc, is_empty_eq, length-append, length_nonempty,
  if◌then◌else◌,
}
use mathlib.Core.Path.{subst}
use discord_native_voice.Prelude.Bytes.{Bytes}
use discord_native_voice.Rtp.{Codec}
use discord_native_voice.Frames.{ByteStream}
use discord_native_voice.Frames.AnnexB.{
  AnnexBReader, add_aud, find_start_code, scan_loop, scan_for_auds, extract_at, extract_frame,
  frame_of, next_chunk, read_frame_loop, read_annex_b_frame,
}

-- The first delimiter known is at the front of the buffer.
abbrev pub StartsAtZero : List ℕ → Type 0
StartsAtZero [] = ⊥
StartsAtZero (p ∷ positions) = p ≡ 0

StartsAtZero-append : (xs ys : List ℕ) → StartsAtZero xs → StartsAtZero (xs ++ ys)
StartsAtZero-append [] ys h = absurd h
StartsAtZero-append (x ∷ xs) ys h = h

if-StartsAtZero :
    (b : Bool) (xs ys : List ℕ)
    → StartsAtZero xs
    → StartsAtZero ys
    → StartsAtZero (if b then xs else ys)
if-StartsAtZero true xs ys hx hy = hx
if-StartsAtZero false xs ys hx hy = hy

StartsAtZero-add_aud :
    (codec : Codec) (buffer : Bytes) (start len : ℕ) (positions : List ℕ)
    → StartsAtZero positions
    → StartsAtZero (add_aud codec buffer start len positions)
StartsAtZero-add_aud codec buffer start len positions h =
    if-StartsAtZero _ _ _ (StartsAtZero-append positions (start ∷ []) h) h

StartsAtZero-scan_loop :
    (fuel : ℕ) (codec : Codec) (buffer : Bytes) (search : ℕ) (positions : List ℕ)
    → StartsAtZero positions
    → StartsAtZero (scan_loop fuel codec buffer search positions).1
unfolding scan_loop
StartsAtZero-scan_loop zero codec buffer search positions h = h
StartsAtZero-scan_loop (suc fuel) codec buffer search positions h =
    elim (Bool-cases (leb 2 (length positions))) [
      | inl e ↦ rw e h
      | inr e ↦ elim (Option-cases (find_start_code buffer search)) [
        | inl none_found ↦ rw (e, none_found) h
        | inr ((start, len), found) ↦
            rw (e, found)
              (StartsAtZero-scan_loop fuel codec buffer (start + len)
                (add_aud codec buffer start len positions)
                (StartsAtZero-add_aud codec buffer start len positions h))
      ]
    ]

module _ {S : Type 0} where
  -- What `_extract_frame` does to the buffer: it drops bytes from the front, then the frame.
  abbrev pub Cuts : List ℕ → AnnexBReader S → Option Bytes × AnnexBReader S → Type 0
  Cuts positions r (frame, r') =
      (skipped : Bytes) × (skipped ++ (frame_of frame ++ r'.buffer) ≡ r.buffer)
      × (r'.stream ≡ r.stream)
      × (StartsAtZero positions → (skipped ≡ []) × StartsAtZero r'.aud_positions)
      × (is_empty (frame_of frame) ≡ false → StartsAtZero r'.aud_positions)

  extract_at-Cuts :
      (positions : List ℕ) (r : AnnexBReader S)
      → r.aud_positions ≡ positions
      → Cuts positions r (extract_at positions r)
  unfolding extract_at
  extract_at-Cuts [] r e = elim (Bool-cases (ltb (2 * 1024 * 1024) (length r.buffer))) [
    | inl h ↦
        let n = length r.buffer - 1024 in
        rw h (take n r.buffer, take-append-drop n r.buffer, refl, λ no. absurd no, λ no. cc)
    | inr h ↦ rw h ([], refl, refl, λ no. absurd no, λ no. cc)
  ]
  extract_at-Cuts (first ∷ []) r e = elim (Bool-cases (ltb 0 first)) [
    | inl h ↦ rw h (
      take first r.buffer,
      take-append-drop first r.buffer,
      refl,
      λ z. absurd (ground arith),
      λ no. cc,
    )
    | inr h ↦ rw h ([], refl, refl, λ z. (refl, subst StartsAtZero (sym e) z), λ no. cc)
  ]
  extract_at-Cuts (first ∷ frame_end ∷ later) r e = elim (Bool-cases (ltb 0 first)) [
    | inl h ↦ rw h (
      take first r.buffer,
      take-append-drop first r.buffer,
      refl,
      λ z. absurd (ground arith),
      λ no. cc,
    )
    | inr h ↦ rw h (
      [],
      take-append-drop frame_end r.buffer,
      refl,
      λ z. (refl, omega arith),
      λ some_frame. omega arith,
    )
  ]

  extract_frame-Cuts : (r : AnnexBReader S) → Cuts r.aud_positions r (extract_frame r)
  unfolding extract_frame scan_for_auds
  extract_frame-Cuts r =
      let scanned = scan_for_auds r in
      let (skipped, split, same, aligned, found) =
        extract_at-Cuts scanned.aud_positions scanned refl in
      (
        skipped,
        split,
        same,
        λ z. aligned (
            StartsAtZero-scan_loop (length r.buffer + 1) r.codec r.buffer r.search_pos
              r.aud_positions z),
        found,
      )

module _ {S : Type 0} ⦃io : ByteStream S⦄ where
  -- The bytes that are not in a frame yet.
  abbrev pub remaining : AnnexBReader S → Bytes
  remaining r = r.buffer ++ io.left r.stream

  -- A call returns the bytes that follow those it skips; it skips none once a delimiter is at the
  -- front of the buffer, as one is after each frame but the last.
  abbrev pub Slices : AnnexBReader S → Option (Bytes × AnnexBReader S) → Type 0
  Slices r none = ⊥
  Slices r (some (frame, r')) =
      (skipped : Bytes) × (skipped ++ (frame ++ remaining r') ≡ remaining r)
      × (StartsAtZero r.aud_positions → skipped ≡ [])
      × ((remaining r' ≡ []) ⊎ StartsAtZero r'.aud_positions)
      × (frame ≡ [] → remaining r' ≡ [])

  -- One more chunk in the buffer changes no byte.
  chunk_remaining :
      (r : AnnexBReader S)
      → (r.buffer ++ (next_chunk r).0) ++ io.left (next_chunk r).1 ≡ remaining r
  chunk_remaining r =
      append_assoc r.buffer (next_chunk r).0 (io.left (next_chunk r).1)
      ∙ ap (λ x. r.buffer ++ x) (io.read_splits 65536 r.stream)

  shorter :
      (r : AnnexBReader S)
      → is_empty (next_chunk r).0 ≡ false
      → length (io.left (next_chunk r).1) < length (io.left r.stream)
  shorter r h =
      let size = length-append (next_chunk r).0 (io.left (next_chunk r).1) in
      let same = ap length (io.read_splits 65536 r.stream) in
      omega (arith, length_nonempty (next_chunk r).0 h)

  -- Bytes that are skipped before a call.
  Slices-later :
      (skipped : Bytes) (r r1 : AnnexBReader S) (o : Option (Bytes × AnnexBReader S))
      → skipped ++ remaining r1 ≡ remaining r
      → (StartsAtZero r.aud_positions → (skipped ≡ []) × StartsAtZero r1.aud_positions)
      → Slices r1 o
      → Slices r o
  Slices-later skipped r r1 none whole aligned h = h
  Slices-later skipped r r1 (some (frame, r')) whole aligned (more, split, at_front, after, last) =
      (
        skipped ++ more,
        append_assoc skipped more (frame ++ remaining r') ∙ ap (λ x. skipped ++ x) split ∙ whole,
        λ z. let (first, second) = aligned z in ap (λ x. x ++ more) first ∙ at_front second,
        after,
        last,
      )

  whole_of :
      (r r1 : AnnexBReader S) (skipped frame : Bytes)
      → skipped ++ (frame ++ r1.buffer) ≡ r.buffer
      → r1.stream ≡ r.stream
      → skipped ++ (frame ++ remaining r1) ≡ remaining r
  whole_of r r1 skipped frame split same =
      ap (λ x. skipped ++ x) (sym (append_assoc frame r1.buffer (io.left r1.stream)))
      ∙ sym (append_assoc skipped (frame ++ r1.buffer) (io.left r1.stream))
      ∙ ap (λ x. x ++ io.left r1.stream) split
      ∙ ap (λ t. r.buffer ++ io.left t) same

  read_frame_loop-Slices :
      (fuel : ℕ) (r : AnnexBReader S)
      → length (io.left r.stream) < fuel
      → Slices r (read_frame_loop fuel r)
  unfolding read_frame_loop
  read_frame_loop-Slices zero r h = absurd (omega arith)
  read_frame_loop-Slices (suc fuel) r h =
      let (skipped, split, same, aligned, found) = extract_frame-Cuts r in
      let r1 = (extract_frame r).1 in
      let frame = frame_of (extract_frame r).0 in
      let whole = whole_of r r1 skipped frame split same in
      elim (Bool-cases (is_empty frame)) [
        | inr e ↦ rw e (
          skipped,
          whole,
          λ z. (aligned z).0,
          inr (found e),
          λ empty. absurd (cc (sym (ap is_empty empty) ∙ e)),
        )
        | inl e ↦
            let none_yet = is_empty_eq frame e in
            let rest : skipped ++ remaining r1 ≡ remaining r =
              ap (λ x. skipped ++ (x ++ remaining r1)) (sym none_yet) ∙ whole in
            elim (Bool-cases (is_empty (next_chunk r1).0)) [
              | inl drained ↦
                  let no_bytes = is_empty_eq (next_chunk r1).0 drained in
                  let after = io.left (next_chunk r1).1 in
                  let ended = io.read_ends 65536 r1.stream (omega arith) no_bytes in
                  let same_left : after ≡ io.left r1.stream =
                    sym (ap (λ x. x ++ after) no_bytes) ∙ io.read_splits 65536 r1.stream in
                  rw (e, drained)
                    (
                      skipped,
                      ap (λ x. skipped ++ (r1.buffer ++ x)) same_left ∙ rest,
                      λ z. (aligned z).0,
                      inl (same_left ∙ ended),
                      λ empty. same_left ∙ ended,
                    )
              | inr more ↦
                  let r3 = record r1 {
                    stream = (next_chunk r1).1;
                    buffer = r1.buffer ++ (next_chunk r1).0;
                  } in
                  let size : length (io.left r1.stream) ≡ length (io.left r.stream) =
                    ap (λ t. length (io.left t)) same in
                  rw (e, more)
                    (Slices-later skipped r r3 (read_frame_loop fuel r3)
                      (ap (λ x. skipped ++ x) (chunk_remaining r1) ∙ rest) aligned
                      (read_frame_loop-Slices fuel r3 (omega (arith, shorter r1 more))))
            ]
      ]

  -- A call of `read_frame` ends, however the stream cuts its reads.
  pub read_annex_b_frame-Slices : (r : AnnexBReader S) → Slices r (read_annex_b_frame r)
  unfolding read_annex_b_frame
  read_annex_b_frame-Slices r =
      read_frame_loop-Slices (length (io.left r.stream) + 1) r (omega arith)
