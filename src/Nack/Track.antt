-- ===== src/Nack/Track.antt =====
-- The two entry points of the loss tracking in discord/ext/native_voice/client.py, the arrival of a
-- packet and the retry timer, and any sequence of calls that do not overlap.
use discord_native_voice.Prelude.{
  ℕ, ◌-◌, ◌%◌, ◌<◌, ◌≡◌, refl, sym, ◌∙◌, Bool, true, Option, none, some, List, [], ◌∷◌, map, elem,
  dedup, elem-dedup, is_empty, nat_eq, ℕ-eq, arith, ltb, Option-cases, inl, inr,
}
use discord_native_voice.Prelude.Dict.{get, put, erase, get-put, length-erase-le}
use discord_native_voice.Rtp.Sequence.{sequence_delta}
use discord_native_voice.Nack.{
  Tracker, tally, keep, forget, add_pending_video_nacks, retry_pending_video_nacks, missing_from,
  retry_if_enabled, take_off, request_missing, advance, track_from, track_video_receive_sequence,
}
use discord_native_voice.Nack.Table.{erase-IsSound}
use discord_native_voice.Nack.Valid.{
  IsTable, IsValid, IsValid-of_fields, keep-IsValid, forget-IsValid, table_or_empty-IsTable,
  send_pending-IsValid, elem-residues,
}
use discord_native_voice.Nack.Retry.{if-IsValid, retry-IsValid, IsAdded, add_unique-IsAdded}

elem_residue : (xs : List ℕ) (s : ℕ) → elem s (map (λ x. x % 65536) xs) ≡ true → s < 65536
unfolding elem
elem_residue [] s e = cc
elem_residue (x ∷ xs) s e = ground (arith, elem_residue xs s)

add_pending-IsAdded :
    (ssrc : ℕ) (seqs : List ℕ) (t : Tracker)
    → IsValid t
    → IsAdded ssrc (add_pending_video_nacks ssrc seqs t)
unfolding add_pending_video_nacks
add_pending-IsAdded ssrc seqs t h =
    add_unique-IsAdded ssrc (dedup (map (λ s. s % 65536) seqs)) _ t h
      (table_or_empty-IsTable ssrc t h)
      (λ s e. elem_residue seqs s (sym (elem-dedup s (map (λ x. x % 65536) seqs)) ∙ e))

request_missing-IsValid :
    (ssrc : ℕ) (missing : List ℕ) (now : ℕ) (t : Tracker)
    → IsValid t
    → IsValid (request_missing ssrc missing now t)
unfolding request_missing
request_missing-IsValid ssrc missing now t h =
    let out = add_pending_video_nacks ssrc missing t in
    let a = add_pending-IsAdded ssrc missing t h in
    if-IsValid (is_empty out.0) out.1 _ a.valid (
      send_pending-IsValid ssrc out.0 now _ (IsValid-of_fields out.1 _ refl refl a.valid)
        (λ d g s n e. a.fresh d g s n (elem-residues out.0 s a.small e)))

take_off-IsValid :
    (ssrc sequence : ℕ) (t : Tracker) → IsValid t → IsValid (take_off ssrc sequence t)
unfolding take_off
take_off-IsValid ssrc sequence t h = elim (Option-cases (get ssrc t.pending_nacks)) [
  | inl absent ↦ rw (absent, take_off) h
  | inr (d, found) ↦
      let ok = h.tables ssrc d found in
      let left : IsTable (erase sequence d) = record {
        sound = erase-IsSound sequence d ok.sound;
        room = omega (arith, length-erase-le sequence d, ok.room);
      } in
      rw (found, take_off)
        (if-IsValid (is_empty (erase sequence d)) (forget ssrc t) (keep ssrc (erase sequence d) t)
          (forget-IsValid ssrc t h) (keep-IsValid ssrc (erase sequence d) t left h))
]

last-IsValid :
    (ssrc sequence : ℕ) (t : Tracker)
    → sequence < 65536
    → IsValid t
    → IsValid (record t { last_sequences = put ssrc sequence t.last_sequences })
last-IsValid ssrc sequence t small h = record {
  one_table = h.one_table;
  tables = h.tables;
  lasts = λ k s g. ground (arith, get-put ssrc k sequence t.last_sequences, h.lasts k s);
}

retry_if-IsValid : (ssrc now : ℕ) (t : Tracker) → IsValid t → IsValid (retry_if_enabled ssrc now t)
retry_if-IsValid ssrc now t h = if-IsValid t.rtx_enabled _ t (retry-IsValid ssrc now t h) h

advance-IsValid :
    (ssrc sequence previous now : ℕ) (t : Tracker)
    → sequence < 65536
    → IsValid t
    → IsValid (advance ssrc sequence previous now t)
unfolding advance
advance-IsValid ssrc sequence previous now t small h =
    let delta = sequence_delta sequence previous in
    let valid1 =
      if-IsValid (ltb sequence previous) (tally "video_sequence_wraps" 1 t) t
        (IsValid-of_fields t _ refl refl h) h in
    let valid2 = if-IsValid (ltb 1 delta) _ _ (IsValid-of_fields _ _ refl refl valid1) valid1 in
    let valid3 = last-IsValid ssrc sequence _ small valid2 in
    if-IsValid _ _ _ valid3 (
      if-IsValid (nat_eq delta 1) _ _ (retry-IsValid ssrc now _ valid3) (
        retry-IsValid ssrc now _
          (request_missing-IsValid ssrc (missing_from previous 1 (delta - 1)) now _ valid3)))

track_from-IsValid :
    (ssrc sequence : ℕ) (last : Option ℕ) (now : ℕ) (t : Tracker)
    → sequence < 65536
    → IsValid t
    → IsValid (track_from ssrc sequence last now t)
unfolding track_from
track_from-IsValid ssrc sequence none now t small h =
    retry_if-IsValid ssrc now _ (last-IsValid ssrc sequence t small h)
track_from-IsValid ssrc sequence (some previous) now t small h =
    let delta = sequence_delta sequence previous in
    if-IsValid _ _ _
      (retry_if-IsValid ssrc now _ (
        if-IsValid (nat_eq delta 0) _ _ (IsValid-of_fields t _ refl refl h)
          (IsValid-of_fields t _ refl refl h)))
      (advance-IsValid ssrc sequence previous now t small h)

-- The arrival of any packet, lost, repaired, repeated, late or ahead, keeps the tracker valid: at
-- most 1000 numbers of an SSRC are outstanding, each a 16-bit number that was asked for at most 100
-- times.
pub track-IsValid :
    (ssrc sequence : ℕ) (repaired : Bool) (now : ℕ) (t : Tracker)
    → IsValid t
    → IsValid (track_video_receive_sequence ssrc sequence repaired now t)
unfolding track_video_receive_sequence
track-IsValid ssrc sequence repaired now t h =
    let seq = sequence % 65536 in
    let t1 = take_off ssrc seq t in
    let valid1 = take_off-IsValid ssrc seq t h in
    if-IsValid repaired _ _
      (retry_if-IsValid ssrc now (tally "video_sequence_repaired_packets" 1 t1)
        (IsValid-of_fields t1 _ refl refl valid1))
      (track_from-IsValid ssrc seq (get ssrc t1.last_sequences) now t1 (omega arith) valid1)

-- A call that runs to its end before another one begins: the receive thread tracks a packet, or the
-- retry thread retries the requests of an SSRC. The source holds no lock around a call, so that its
-- threads may also overlap within one; that is not modelled here.
pub data Step : Tracker → Tracker → Type 0 where
  arrive :
      {t : Tracker} (ssrc sequence : ℕ) (repaired : Bool) (now : ℕ)
      → Step t (track_video_receive_sequence ssrc sequence repaired now t)
  tick : {t : Tracker} (ssrc now : ℕ) → Step t (retry_pending_video_nacks ssrc now t)

pub data Reach : Tracker → Tracker → Type 0 where
  stay : {t : Tracker} → Reach t t
  next : {t u v : Tracker} → Step t u → Reach u v → Reach t v

Step-IsValid : {t u : Tracker} → Step t u → IsValid t → IsValid u
Step-IsValid (arrive ssrc sequence repaired now) h = track-IsValid ssrc sequence repaired now _ h
Step-IsValid (tick ssrc now) h = retry-IsValid ssrc now _ h

-- As long as no call overlaps another one, any sequence of arrivals and retries keeps a valid tracker
-- valid: at most 1000 numbers of an SSRC are outstanding, each a 16-bit number that was asked for at
-- most 100 times.
pub Reach-IsValid : {t u : Tracker} → Reach t u → IsValid t → IsValid u
Reach-IsValid stay h = h
Reach-IsValid (next s r) h = Reach-IsValid r (Step-IsValid s h)
