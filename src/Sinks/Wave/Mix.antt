-- ===== src/Sinks/Wave/Mix.antt =====
-- The length of the recording of `MixedWaveSink` (discord/ext/native_voice/media.py).
use discord_native_voice.Prelude.{
  ℕ, ◌%◌, zero, suc, ◌+◌, ◌-◌, ◌*◌, ◌≡◌, refl, ap, ◌∙◌, true, false, inl, inr, Option, none, some,
  List, [], ◌∷◌, ◌++◌, length, length-append, length-take, length-drop, take, drop, All, is_empty,
  max, arith, Bool-cases, if◌then◌else◌,
}
use discord_native_voice.Prelude.Bytes.{Bytes}
use discord_native_voice.Prelude.Result.{Result, ok, ◌>>=◌, map_ok}
use discord_native_voice.Rtp.{pcm}
use discord_native_voice.Rtp.Sequence.{rtp_timestamp_delta}
use discord_native_voice.Media.{MediaPacket}
use discord_native_voice.Sources.{zeros, AudioError}
use discord_native_voice.Sinks.{same_codec}
use discord_native_voice.Sinks.Opus.{OpusDecoder, DecoderCache}
use discord_native_voice.Sinks.Wave.{
  MixedWaveSink, MixError, with_mix, is_left_out, assign, place, place_decoded, mix_at, mixed_write,
  mixed_writes,
}

length-zeros : (n : ℕ) → length (zeros n) ≡ n
length-zeros zero = refl
length-zeros (suc n) = ap suc (length-zeros n)

-- Where the audio of a packet ends, in bytes from the start of the recording.
abbrev pub end_at : ℕ → Bytes → Option ℕ → ℕ
end_at frame_bytes payload none = 0
end_at frame_bytes payload (some delta) =
    if is_empty payload then 0 else delta * frame_bytes + length payload

abbrev pub end_of : ℕ → Option (List ℕ) → ℕ → MediaPacket → ℕ
end_of frame_bytes users base packet =
    if is_left_out packet.user_id users
    then 0
    else end_at frame_bytes packet.payload (rtp_timestamp_delta packet.timestamp base)

abbrev pub latest_end : ℕ → Option (List ℕ) → ℕ → List MediaPacket → ℕ
latest_end frame_bytes users base [] = 0
latest_end frame_bytes users base (packet ∷ packets) =
    max (end_of frame_bytes users base packet) (latest_end frame_bytes users base packets)

-- The addition of as many 16-bit samples to as many others: it raises nothing, and gives as many.
abbrev pub AddsSamples : (Bytes → Bytes → Result AudioError Bytes) → Type 0
AddsSamples add =
    (xs ys : Bytes)
    → length xs ≡ length ys
    → length ys % 2 ≡ 0
    → (zs : Bytes) × (add xs ys ≡ ok zs) × (length zs ≡ length ys)

-- A packet of PCM in whole samples.
abbrev pub IsPcm : MediaPacket → Type 0
IsPcm packet = (same_codec packet.codec pcm ≡ true) × (length packet.payload % 2 ≡ 0)

-- The recording after a payload of whole samples was placed.
place-Placed :
    (add : Bytes → Bytes → Result AudioError Bytes) (start : ℕ) (payload mix : Bytes)
    → AddsSamples add
    → length payload % 2 ≡ 0
    → (placed : Bytes) × (place add start payload mix ≡ ok placed)
      × (length placed ≡ max (length mix) (start + length payload))
place-Placed add start payload mix adds whole =
    let end_place = start + length payload in
    let grown = mix ++ zeros (end_place - length mix) in
    let size : length grown ≡ max (length mix) end_place = omega (
      arith,
      length-append mix (zeros (end_place - length mix)),
      length-zeros (end_place - length mix),
    ) in
    let old = take (length payload) (drop start grown) in
    let old_size : length old ≡ length payload =
      omega
        (arith, size, length-take (length payload) (drop start grown), length-drop start grown) in
    let (mixed, added, mixed_size) = adds old payload old_size whole in
    (
      take start grown ++ (mixed ++ drop end_place grown),
      ap (assign start end_place grown) added,
      omega (
        arith,
        size,
        mixed_size,
        length-take start grown,
        length-drop end_place grown,
        length-append (take start grown) (mixed ++ drop end_place grown),
        length-append mixed (drop end_place grown),
      ),
    )

module _ {D : Type 0} (codec : OpusDecoder D) (add : Bytes → Bytes → Result AudioError Bytes)
    (frame_bytes : ℕ) where
  -- A sink that has a base and is open.
  abbrev pub recording :
      Option (List ℕ) → ℕ → DecoderCache D → Option Bytes → Bytes → MixedWaveSink D
  recording users base cache written mix = record {
    closed = false;
    users = users;
    base_timestamp = some base;
    mix = mix;
    decoder = cache;
    written = written;
  }

  -- A result that is a sink like the one before, with a recording of the given length.
  abbrev pub Records :
      Option (List ℕ)
      → ℕ
      → DecoderCache D
      → Option Bytes
      → ℕ
      → Result MixError (MixedWaveSink D)
      → Type 0
  Records users base cache written size r =
      (mix : Bytes) × (r ≡ ok (recording users base cache written mix)) × (length mix ≡ size)

  module _ (users : Option (List ℕ)) (base : ℕ) (cache : DecoderCache D) (written : Option Bytes)
      (adds : AddsSamples add) where
    place_decoded-Records :
        (delta : ℕ) (payload mix : Bytes)
        → length payload % 2 ≡ 0
        → Records users base cache written
            (max (length mix) (end_at frame_bytes payload (some delta)))
            (place_decoded codec add frame_bytes delta
              (recording users base cache written mix)
              (ok (payload, cache)))
    place_decoded-Records delta payload mix whole = elim (Bool-cases (is_empty payload)) [
      | inl e ↦ rw e (mix, refl, omega arith)
      | inr e ↦
          let (placed, made, size) =
            place-Placed add (delta * frame_bytes) payload mix adds whole in
          rw e (
            placed,
            ap
                (map_ok
                  (with_mix codec add frame_bytes (recording users base cache written mix) cache))
                made,
            size,
          )
    ]

    mix_at-Records :
        (packet : MediaPacket) (mix : Bytes) (delta : Option ℕ)
        → IsPcm packet
        → Records users base cache written
            (max (length mix) (end_at frame_bytes packet.payload delta))
            (mix_at codec add frame_bytes packet
              (recording users base cache written mix)
              (delta, base))
    mix_at-Records packet mix none h = (mix, refl, omega arith)
    mix_at-Records packet mix (some delta) h =
        rw (h.0) (place_decoded-Records delta packet.payload mix h.1)

    mixed_write-Records :
        (packet : MediaPacket) (mix : Bytes)
        → IsPcm packet
        → Records users base cache written
            (max (length mix) (end_of frame_bytes users base packet))
            (mixed_write codec add frame_bytes packet (recording users base cache written mix))
    unfolding mixed_write
    mixed_write-Records packet mix h = elim (Bool-cases (is_left_out packet.user_id users)) [
      | inl e ↦ rw e (mix, refl, omega arith)
      | inr e ↦ rw e (mix_at-Records packet mix (rtp_timestamp_delta packet.timestamp base) h)
    ]

    -- An open sink with a base timestamp is given PCM packets in whole 16-bit samples. Its recording then
    -- ends where it did, or where the last of the packets to end does, if that is later, in whatever
    -- order they come: packets of other users and packets from before the base add nothing,
    -- and none raises an error. The addition is taken to raise nothing on two pieces of the same
    -- length in whole samples, and to give as many.
    pub mixed_writes-Records :
        (packets : List MediaPacket) (mix : Bytes)
        → All IsPcm packets
        → Records users base cache written
            (max (length mix) (latest_end frame_bytes users base packets))
            (mixed_writes codec add frame_bytes packets (recording users base cache written mix))
    unfolding mixed_writes
    mixed_writes-Records [] mix h = (mix, refl, omega arith)
    mixed_writes-Records (packet ∷ packets) mix (h, hs) =
        let (mix2, e, size) = mixed_write-Records packet mix h in
        let (mix3, e3, size3) = mixed_writes-Records packets mix2 hs in
        (
          mix3,
          ap (λ r. r >>= mixed_writes codec add frame_bytes packets) e ∙ e3,
          omega (arith, size, size3),
        )
