-- ===== src/Sinks/Silence/Pace.antt =====
-- The silence that is made for a track until the next packet of its user.
use discord_native_voice.Prelude.{
  ℕ, ◌+◌, ◌%◌, ◌≤◌, ◌<◌, ◌≡◌, refl, ap, ◌∙◌, inl, inr, Option, none, some, List, [], ◌∷◌, ltb, leb,
  arith, Bool-cases,
}
use discord_native_voice.Media.{MediaPacket}
use discord_native_voice.Sinks.Silence.{
  SilenceTrack, SilenceSettings, is_spent, make_silence_packet, visit_track,
}

-- The visits to a track at these times: the packets with the times of their visits
abbrev pub add_packet : ℕ → Option MediaPacket → List (ℕ × MediaPacket) → List (ℕ × MediaPacket)
add_packet now none packets = packets
add_packet now (some packet) packets = (now, packet) ∷ packets

unfoldable pub visits : SilenceSettings → List ℕ → Option SilenceTrack → List (ℕ × MediaPacket)
unfolding visit_track
visits settings [] track = []
visits settings (now ∷ times) none = []
visits settings (now ∷ times) (some track) =
    add_packet now (visit_track settings now track).0
      (visits settings times (visit_track settings now track).1)

-- Packets that go on from a sequence number and a timestamp, none before it is due, that together
-- last no more than so long and the frame that reaches it.
abbrev pub IsSilence : SilenceSettings → ℕ → ℕ → ℕ → ℕ → ℕ → List (ℕ × MediaPacket) → Type 0
IsSilence settings sequence timestamp due spent most [] = Unit
IsSilence settings sequence timestamp due spent most ((now, packet) ∷ packets) =
    (packet.sequence ≡ sequence)
    × (packet.timestamp ≡ timestamp)
    × (packet.payload ≡ settings.silence)
    × (due ≤ now)
    × (spent < most)
    × IsSilence settings ((sequence + 1) % 65536)
        ((timestamp + settings.timestamp_step) % 4294967296) (due + settings.frame_duration)
        (spent + settings.frame_duration) most packets

visits-none : (settings : SilenceSettings) (times : List ℕ) → visits settings times none ≡ []
unfolding visits
visits-none settings [] = refl
visits-none settings (now ∷ times) = refl

-- However often a track is visited, its packets carry the settings' silence and go on from its
-- sequence number and timestamp, wrapping as RTP does; none comes before it is due, one frame after
-- the one before; and each starts before the limit on silence is reached.
pub visits-IsSilence :
    (settings : SilenceSettings) (most : ℕ) (times : List ℕ) (track : SilenceTrack)
    → settings.max_silence ≡ some most
    → IsSilence settings track.sequence track.timestamp track.next_due track.emitted_for most
        (visits settings times (some track))
unfolding visits visit_track make_silence_packet
visits-IsSilence settings most [] track limited = tt
visits-IsSilence settings most (now ∷ times) track limited =
    let spends : is_spent settings.max_silence track.emitted_for ≡ leb most track.emitted_for =
      ap (λ o. is_spent o track.emitted_for) limited in
    elim (Bool-cases (leb most track.emitted_for)) [
      | inl spent ↦ rw (spends ∙ spent, visits-none settings times) tt
      | inr some_left ↦ elim (Bool-cases (ltb now track.next_due)) [
        | inl early ↦
            rw (spends ∙ some_left, early) (visits-IsSilence settings most times track limited)
        | inr due ↦
            rw (spends ∙ some_left, due)
              (
                refl,
                refl,
                refl,
                ground arith,
                ground arith,
                visits-IsSilence settings most times (make_silence_packet settings track).1 limited,
              )
      ]
    ]
