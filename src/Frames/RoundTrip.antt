-- ===== src/Frames/RoundTrip.antt =====
-- What `EncodedVideoSink` writes, read by `EncodedVideoSource`.
use discord_native_voice.Prelude.{
  ℕ, zero, suc, ◌<◌, ◌≡◌, refl, ap, ◌∙◌, Bool, true, false, List, [], ◌∷◌, ◌++◌, map, length, take,
  drop, All, arith, is_empty, nat_eq, if◌then◌else◌,
}
use mathlib.Core.Path.{subst}
use discord_native_voice.Prelude.Bytes.{Bytes, bytes_eq}
use discord_native_voice.Prelude.Little.{from_le-le}
use discord_native_voice.Prelude.Result.{Result, ok, err, ◌>>=◌}
use discord_native_voice.Rtp.{Codec, opus, pcm, av1, h265, h264, vp8, vp9}
use discord_native_voice.Media.{MediaPacket}
use discord_native_voice.Frames.{ByteStream, read_exact}
use discord_native_voice.Frames.Read.{read_exact_lem}
use discord_native_voice.Frames.Ivf.{
  ReadError, open_ivf, read_frame, parse_frame, seen, read_frame-parse_frame,
}
use discord_native_voice.Frames.Source.{
  ivf, VideoSource, is_ivf_codec, open_source, read_next, read_video, read_all,
}
use discord_native_voice.Frames.Sink.{ivf_fourcc, is_some, record_file}
use discord_native_voice.Frames.Sink.Layout.{
  frame_bytes, body, header_bytes, fourcc_of, clock_rate, FitSizes, FitPackets, Holds,
  record_file-Holds,
}

pub take_front : (xs ys : Bytes) → take (length xs) (xs ++ ys) ≡ xs
take_front [] ys = refl
take_front (x ∷ xs) ys = ap (λ r. x ∷ r) (take_front xs ys)

pub drop_front : (xs ys : Bytes) → drop (length xs) (xs ++ ys) ≡ ys
drop_front [] ys = refl
drop_front (x ∷ xs) ys = drop_front xs ys

pub is_empty_nonempty : (xs : Bytes) → 0 < length xs → is_empty xs ≡ false
is_empty_nonempty [] h = absurd (omega arith)
is_empty_nonempty (x ∷ xs) h = refl

-- The frames of a file have bytes, and fit their length's field.
abbrev pub Sound : List (ℕ × Bytes) → Type 0
Sound = All (λ f. (0 < length f.1) × (length f.1 < 4294967296))

pub parse_frame-frame_bytes :
    (timestamp : ℕ) (payload rest : Bytes)
    → length payload < 4294967296
    → parse_frame (frame_bytes (timestamp, payload) ++ rest) ≡ ok (payload, rest)
parse_frame-frame_bytes timestamp payload rest h =
    let n = from_le-le 4 (length payload) (omega arith) in
    let same : nat_eq (length payload) (length payload) ≡ true = ground arith in
    rw (n, take_front payload rest, drop_front payload rest, same) refl

-- The code of an IVF codec has four bytes.
four_bytes :
    (codec : Codec)
    → is_ivf_codec codec ≡ true
    → (a : ℕ) × (b : ℕ) × (c : ℕ) × (d : ℕ) × (is_some (ivf_fourcc codec) ≡ true)
      × (fourcc_of codec ≡ a ∷ b ∷ c ∷ d ∷ [])
four_bytes vp8 e = (_, _, _, _, refl, refl)
four_bytes vp9 e = (_, _, _, _, refl, refl)
four_bytes av1 e = (_, _, _, _, refl, refl)
four_bytes h264 e = cc
four_bytes h265 e = cc
four_bytes opus e = cc
four_bytes pcm e = cc

-- Payloads that are not empty.
abbrev pub HaveBytes : List MediaPacket → Type 0
HaveBytes = All (λ p. 0 < length p.payload)

head-eq : {x y : Bytes} {xs ys : List Bytes} → x ∷ xs ≡ y ∷ ys → x ≡ y
head-eq h = cc

tail-eq : {x y : Bytes} {xs ys : List Bytes} → x ∷ xs ≡ y ∷ ys → xs ≡ ys
tail-eq h = cc

Sound-of :
    (frames : List (ℕ × Bytes)) (packets : List MediaPacket)
    → map (λ f. f.1) frames ≡ map (λ p. p.payload) packets
    → HaveBytes packets
    → FitPackets packets
    → Sound frames × (length frames ≡ length packets)
Sound-of [] [] e have fit = (tt, refl)
Sound-of [] (packet ∷ packets) e have fit = cc
Sound-of (frame ∷ frames) [] e have fit = cc
Sound-of (frame ∷ frames) (packet ∷ packets) e have fit =
    let same = ap length (head-eq e) in
    let (sound, size) = Sound-of frames packets (tail-eq e) have.1 fit.1 in
    (((omega arith, omega arith), sound), omega arith)

module _ {S : Type 0} ⦃io : ByteStream S⦄ where
  -- A result that gives this frame and leaves these bytes.
  abbrev pub Gives : Bytes → Bytes → Result ReadError (Bytes × S) → Type 0
  Gives frame rest o = (s : S) × (o ≡ ok (frame, s)) × (io.left s ≡ rest)

  pub Gives-seen :
      (frame rest : Bytes) (o : Result ReadError (Bytes × S))
      → seen o ≡ ok (frame, rest)
      → Gives frame rest o
  Gives-seen frame rest (err e) h = cc
  Gives-seen frame rest (ok (got, s)) h = (s, cc, cc)

  abbrev pub playing : S → VideoSource S
  playing s = record { reader = ivf s; closed = false }

  read_all-body :
      (frames : List (ℕ × Bytes)) (fuel : ℕ) (s : S)
      → io.left s ≡ body frames
      → Sound frames
      → length frames < fuel
      → read_all fuel (playing s) ≡ ok (true, map (λ f. f.1) frames)
  unfolding read_all read_video read_next
  read_all-body frames zero s left sound few = absurd (omega arith)
  read_all-body [] (suc fuel) s left sound few =
      let (next, given, rest) =
        Gives-seen [] [] (read_frame s) (read_frame-parse_frame s ∙ ap parse_frame left) in
      rw given refl
  read_all-body ((timestamp, payload) ∷ frames) (suc fuel) s left sound few =
      let (next, given, rest) = Gives-seen payload (body frames) (read_frame s) (
        read_frame-parse_frame s
        ∙ ap parse_frame left
        ∙ parse_frame-frame_bytes timestamp payload (body frames) sound.0.1) in
      let some_bytes : is_empty payload ≡ false = is_empty_nonempty payload sound.0.0 in
      let later = read_all-body frames fuel next rest sound.1 (omega arith) in
      rw (given, some_bytes, later) refl

  open_ivf-header_bytes :
      (a b c d width height rate count : ℕ) (rest : Bytes) (s : S)
      → io.left s ≡ header_bytes (a ∷ b ∷ c ∷ d ∷ []) width height rate count ++ rest
      → (next : S) × (open_ivf s ≡ ok next) × (io.left next ≡ rest)
  unfolding open_ivf bytes_eq
  open_ivf-header_bytes a b c d width height rate count rest s left =
      let (got, after) = read_exact_lem 32 s in
      ((read_exact 32 s).1, rw (got ∙ ap (take 32) left) refl, after ∙ ap (drop 32) left)

  opened-read_all :
      (codec : Codec) (a b c d width height rate count fuel : ℕ) (packets : List MediaPacket)
      (file : Bytes) (s : S)
      → is_ivf_codec codec ≡ true
      → io.left s ≡ file
      → HaveBytes packets
      → FitPackets packets
      → length packets < fuel
      → Holds (a ∷ b ∷ c ∷ d ∷ []) width height rate count packets (ok file)
      → (open_source codec s >>= read_all fuel) ≡ ok (true, map (λ p. p.payload) packets)
  unfolding open_source
  opened-read_all codec a b c d width height rate count fuel packets file s e left have fit few
        (frames, laid_out, payloads) =
      let (next, given, rest) =
        open_ivf-header_bytes a b c d width height rate count (body frames) s (left ∙ laid_out) in
      let (sound, size) = Sound-of frames packets payloads have fit in
      rw (e, given)
        (read_all-body frames fuel next rest sound (omega arith) ∙ ap (λ x. ok (true, x)) payloads)

  -- The file that a VP8, VP9 or AV1 sink records, read to its end through a source of the same
  -- codec, gives the payloads of the packets in their order, however the stream cuts its reads, if
  -- the sizes fit the file's fields and no payload is empty.
  pub record_file-read_all :
      (codec : Codec) (width height fps : ℕ) (rtp_timestamps seekable : Bool)
      (packets : List MediaPacket) (file : Bytes) (s : S) (fuel : ℕ)
      → is_ivf_codec codec ≡ true
      → FitSizes width height fps
      → FitPackets packets
      → HaveBytes packets
      → length packets < 4294967296
      → record_file codec width height fps rtp_timestamps seekable packets ≡ ok file
      → io.left s ≡ file
      → length packets < fuel
      → (open_source codec s >>= read_all fuel) ≡ ok (true, map (λ p. p.payload) packets)
  record_file-read_all codec width height fps rtp seekable packets file s fuel e sizes fit have
        small recorded left few =
      let (a, b, c, d, is_some_code, four) = four_bytes codec e in
      let count = if seekable then length packets else 0 in
      let rate = clock_rate rtp fps in
      let held =
        record_file-Holds codec width height fps rtp seekable packets is_some_code sizes fit
          small in
      let held' =
        subst
          (λ x.
            Holds x width height rate count packets
              (record_file codec width height fps rtp seekable packets))
          four held in
      opened-read_all codec a b c d width height rate count fuel packets file s e left have fit few
        (subst (Holds (a ∷ b ∷ c ∷ d ∷ []) width height rate count packets) recorded held')
