-- ===== src/Send/Select.antt =====
-- Which video streams are sent (discord/ext/native_voice/client.py).
use mathlib.Core.Path.{subst}
use discord_native_voice.Prelude.{
  ℕ, ◌≤◌, ◌≡◌, refl, sym, Bool, true, false, List, [], ◌∷◌, is_empty, All, ltb, arith, Bool-cases,
  inl, inr,
}
use discord_native_voice.Reports.{Reports}
use discord_native_voice.Send.{
  VoiceStream, SinkWants, video_stream_should_send, sending, highest, select_active_video_streams,
}

-- A stream that is sent whatever the remote side wants: active and of full quality
abbrev pub IsPrimary : VoiceStream → Type 0
IsPrimary stream = (stream.active ≡ true) × (100 ≤ stream.quality)

sending-All :
    (P : VoiceStream → Type 0) (now : ℕ) (w : SinkWants) (streams : List VoiceStream) (r : Reports)
    → All P streams
    → All P (sending now w streams r).0
unfolding sending
sending-All P now w [] r h = tt
sending-All P now w (stream ∷ streams) r h =
    let out = video_stream_should_send now w stream r in
    let rest = sending-All P now w streams out.1 h.1 in
    elim (Bool-cases out.0) [ inl chosen ↦ rw chosen (h.0, rest) | inr skipped ↦ rw skipped rest ]

highest-All :
    (P : VoiceStream → Type 0) (best : VoiceStream) (streams : List VoiceStream)
    → P best
    → All P streams
    → P (highest best streams)
unfolding highest
highest-All P best [] p h = p
highest-All P best (stream ∷ streams) p h = elim (Bool-cases (ltb best.quality stream.quality)) [
  | inl better ↦ rw better (highest-All P stream streams h.0 h.1)
  | inr other ↦ rw other (highest-All P best streams p h.1)
]

-- No stream is above the chosen one.
highest-le :
    (best : VoiceStream) (streams : List VoiceStream)
    → (best.quality ≤ (highest best streams).quality)
      × All (λ s. s.quality ≤ (highest best streams).quality) streams
unfolding highest
highest-le best [] = (omega arith, tt)
highest-le best (stream ∷ streams) =
    let P = λ (top : VoiceStream).
      (best.quality ≤ top.quality) × All (λ s. s.quality ≤ top.quality) (stream ∷ streams) in
    elim (Bool-cases (ltb best.quality stream.quality)) [
      | inl better ↦
          let (up, all) = highest-le stream streams in
          let e : highest best (stream ∷ streams) ≡ highest stream streams = rw better refl in
          subst P (sym e) (ground (arith, up), (up, all))
      | inr other ↦
          let (up, all) = highest-le best streams in
          let e : highest best (stream ∷ streams) ≡ highest best streams = rw other refl in
          subst P (sym e) (up, (ground (arith, up), all))
    ]

-- What a selection promises.
pub record IsSelection (streams chosen : List VoiceStream) : Type 1 where
  pub some_stream : is_empty chosen ≡ false
  pub among : (P : VoiceStream → Type 0) → All P streams → All P chosen

-- Whatever the remote side wants and reports, at least one stream is sent, and only streams that
-- there are.
pub select_active-IsSelection :
    (simulcast : Bool) (now : ℕ) (w : SinkWants) (stream : VoiceStream) (streams : List VoiceStream)
    (r : Reports)
    → IsSelection
        (stream ∷ streams)
        (select_active_video_streams simulcast now w stream streams r).0
unfolding select_active_video_streams
select_active-IsSelection simulcast now w stream streams r =
    let chosen = sending now w (stream ∷ streams) r in
    let one : IsSelection (stream ∷ streams) (highest stream streams ∷ []) = record {
      some_stream = refl;
      among = λ P h. (highest-All P stream streams h.0 h.1, tt);
    } in
    elim (Bool-cases simulcast) [
      | inl several ↦ elim (Bool-cases (is_empty chosen.0)) [
        | inl nothing ↦ rw (several, nothing) one
        | inr something ↦
            rw (several, something)
              (record {
                some_stream = something;
                among = λ P h. sending-All P now w (stream ∷ streams) r h;
              })
      ]
      | inr single ↦ rw single one
    ]

-- Without simulcast a stream of the highest quality is sent.
pub select_active_highest :
    (now : ℕ) (w : SinkWants) (stream : VoiceStream) (streams : List VoiceStream) (r : Reports)
    → (best : VoiceStream) × (((select_active_video_streams false now w stream streams r).0
          ≡ best ∷ [])
        × All (λ s. s.quality ≤ best.quality) (stream ∷ streams))
unfolding select_active_video_streams
select_active_highest now w stream streams r =
    let (up, all) = highest-le stream streams in (highest stream streams, (refl, (up, all)))
