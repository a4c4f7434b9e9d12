-- ===== src/Frames/AnnexB.antt =====
-- `_AnnexBFrameReader` of discord/ext/native_voice/media.py: H264 and H265 streams, cut into frames
-- at the access unit delimiters.
pub mod Slices
use discord_native_voice.Prelude.{
  ℕ, zero, suc, ◌+◌, ◌-◌, ◌*◌, ◌/◌, ◌%◌, Bool, true, false, not, ◌||◌, ◌&&◌, Option, none, some,
  List, [], ◌∷◌, ◌++◌, map, length, take, drop, ltb, leb, nat_eq, is_empty, if◌then◌else◌,
}
use discord_native_voice.Prelude.Bytes.{Bytes}
use discord_native_voice.Rtp.{Codec, opus, av1, h265, h264, vp8, vp9}
use discord_native_voice.Send.{find}
use discord_native_voice.Frames.{ByteStream}

pub record AnnexBReader (S : Type 0) : Type 0 where
  pub stream : S
  pub codec : Codec
  pub buffer : Bytes
  pub search_pos : ℕ
  pub aud_positions : List ℕ

-- `_nal_type`, on the bytes from the unit's header on
abbrev pub unit_type : Codec → Bytes → Option ℕ
unit_type h264 (b ∷ _) = some (b % 32)
unit_type h264 [] = none
unit_type _ (b ∷ c ∷ _) = some (b / 2 % 64)
unit_type _ _ = none

unfoldable pub nal_type : Codec → Bytes → ℕ → ℕ → Option ℕ
nal_type codec buffer start start_code_len = unit_type codec (drop (start + start_code_len) buffer)

-- The choice between the next start code of three bytes and the next of four
abbrev pub choose_code : ℕ → Option ℕ → Option ℕ → Option (ℕ × ℕ)
choose_code cursor none none = none
choose_code cursor (some three) none = some (cursor + three, 3)
choose_code cursor none (some four) = some (cursor + four, 4)
choose_code cursor (some three) (some four) =
    if leb four three then some (cursor + four, 4) else some (cursor + three, 3)

-- `_find_start_code`: the position and the length of the start code
unfoldable pub find_start_code : Bytes → ℕ → Option (ℕ × ℕ)
unfolding find
find_start_code buffer cursor =
    let rest = drop cursor buffer in
    if leb (length buffer) cursor
    then none
    else choose_code cursor (find (0 ∷ 0 ∷ 1 ∷ []) rest) (find (0 ∷ 0 ∷ 0 ∷ 1 ∷ []) rest)

abbrev pub aud_type : Codec → ℕ
aud_type h264 = 9
aud_type _ = 35

abbrev pub is_type : Option ℕ → ℕ → Bool
is_type none n = false
is_type (some m) n = nat_eq m n

-- `not positions or positions[-1] != start`
unfoldable pub is_new : ℕ → List ℕ → Bool
is_new start [] = true
is_new start (p ∷ []) = not (nat_eq p start)
is_new start (p ∷ q ∷ positions) = is_new start (q ∷ positions)

abbrev pub add_aud : Codec → Bytes → ℕ → ℕ → List ℕ → List ℕ
add_aud codec buffer start len positions =
    if is_type (nal_type codec buffer start len) (aud_type codec) && is_new start positions
    then positions ++ (start ∷ [])
    else positions

-- The loop of `_scan_for_auds`: the search position and the delimiters' positions
unfoldable pub scan_loop : ℕ → Codec → Bytes → ℕ → List ℕ → ℕ × List ℕ
unfolding nal_type find_start_code is_new
scan_loop zero codec buffer search positions = (search, positions)
scan_loop (suc fuel) codec buffer search positions =
    if leb 2 (length positions) then (search, positions) else elim (find_start_code buffer search) [
      | none ↦ (length buffer - 4, positions)
      | some (start, len) ↦
          scan_loop fuel codec buffer (start + len) (add_aud codec buffer start len positions)
    ]

module _ {S : Type 0} where
  -- `_scan_for_auds`; each round but the last finds a start code that ends further on
  unfoldable pub scan_for_auds : AnnexBReader S → AnnexBReader S
  unfolding scan_loop
  scan_for_auds r =
      let (search, positions) =
        scan_loop (length r.buffer + 1) r.codec r.buffer r.search_pos r.aud_positions in
      record r { search_pos = search; aud_positions = positions }

  -- `del self.buffer[:count]`, with the positions moved along
  abbrev pub cut : ℕ → List ℕ → AnnexBReader S → AnnexBReader S
  cut count positions r = record r {
    buffer = drop count r.buffer;
    aud_positions = map (λ p. p - count) positions;
    search_pos = r.search_pos - count;
  }

  -- `_extract_frame` after its scan, by the delimiters' positions
  unfoldable pub extract_at : List ℕ → AnnexBReader S → Option Bytes × AnnexBReader S
  extract_at [] r =
      if ltb (2 * 1024 * 1024) (length r.buffer)
      then (none, cut (length r.buffer - 1024) [] r)
      else (none, r)
  extract_at (first ∷ others) r =
      if ltb 0 first then (none, cut first (first ∷ others) r) else extract_second others r
    where
      extract_second : List ℕ → AnnexBReader S → Option Bytes × AnnexBReader S
      extract_second [] r = (none, r)
      extract_second (frame_end ∷ later) r =
          (some (take frame_end r.buffer), cut frame_end (frame_end ∷ later) r)

  unfoldable pub extract_frame : AnnexBReader S → Option Bytes × AnnexBReader S
  unfolding extract_at scan_for_auds
  extract_frame r = let scanned = scan_for_auds r in extract_at scanned.aud_positions scanned

-- `if frame`
abbrev pub frame_of : Option Bytes → Bytes
frame_of none = []
frame_of (some frame) = frame

module _ {S : Type 0} ⦃io : ByteStream S⦄ where
  -- The chunk that `read_frame` reads when the buffer holds no frame
  abbrev pub next_chunk : AnnexBReader S → Bytes × S
  next_chunk r = io.read 65536 r.stream

  -- The loop of `read_frame`; nothing if the fuel ends
  unfoldable pub read_frame_loop : ℕ → AnnexBReader S → Option (Bytes × AnnexBReader S)
  unfolding extract_frame
  read_frame_loop zero r = none
  read_frame_loop (suc fuel) r =
      let extracted = extract_frame r in
      let r1 = extracted.1 in
      let chunk = next_chunk r1 in
      let r2 = record r1 { stream = chunk.1 } in
      let again = read_frame_loop fuel (record r2 { buffer = r1.buffer ++ chunk.0 }) in
      if not (is_empty (frame_of extracted.0))
      then some (frame_of extracted.0, r1)
      else if is_empty chunk.0
      then some (r1.buffer, record r2 { buffer = [] })
      else again

  -- `read_frame`: each round but the last reads a byte or more
  unfoldable pub read_annex_b_frame : AnnexBReader S → Option (Bytes × AnnexBReader S)
  unfolding read_frame_loop
  read_annex_b_frame r = read_frame_loop (length (io.left r.stream) + 1) r
