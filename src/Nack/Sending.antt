-- ===== src/Nack/Sending.antt =====
-- Which entries `_send_pending_video_nacks` marks as sent (discord/ext/native_voice/client.py).
use mathlib.Core.Path.{subst}
use discord_native_voice.Prelude.{
  ℕ, zero, suc, ◌%◌, ◌≤◌, ◌≡◌, refl, ap, sym, ◌∙◌, Bool, true, false, not, ◌||◌, none, some, List,
  [], ◌∷◌, ◌++◌, map, length, take, drop, take-append-drop, length-drop, elem, IsDistinct, nat_eq,
  ℕ-eq, arith, Bool-cases, inl, inr,
}
use discord_native_voice.Prelude.Dict.{get, contains, IsUnique}
use discord_native_voice.Rtp.{rtcp_nack_max_sequences}
use discord_native_voice.Nack.{
  PendingVideoNack, Table, Tracker, touch, touch_all, sendable, send_chunks, keys_where,
}

touch_all-append :
    (now : ℕ) (xs ys : List ℕ) (d : Table)
    → touch_all now (xs ++ ys) d ≡ touch_all now ys (touch_all now xs d)
unfolding touch_all
touch_all-append now [] ys d = refl
touch_all-append now (x ∷ xs) ys d = touch_all-append now xs ys (touch now x d)

-- The chunks together mark every sequence, once each, and change nothing else of the table; the
-- tables of the tracker stay as they are.
pub send_chunks_table :
    (rounds now media_ssrc : ℕ) (rest : List ℕ) (pending : Table) (t : Tracker)
    → length rest ≤ rounds
    → ((send_chunks rounds now media_ssrc rest pending t).0 ≡ touch_all now rest pending)
      × ((send_chunks rounds now media_ssrc rest pending t).1.pending_nacks ≡ t.pending_nacks)
      × ((send_chunks rounds now media_ssrc rest pending t).1.last_sequences ≡ t.last_sequences)
unfolding send_chunks touch_all
send_chunks_table zero now media_ssrc [] pending t h = (refl, refl, refl)
send_chunks_table zero now media_ssrc (s ∷ rest) pending t h = elim h [ ]
send_chunks_table (suc rounds) now media_ssrc [] pending t h = (refl, refl, refl)
send_chunks_table (suc rounds) now media_ssrc (s ∷ rest) pending t h =
    let chunk = take rtcp_nack_max_sequences (s ∷ rest) in
    let later = drop rtcp_nack_max_sequences (s ∷ rest) in
    let (table, tables, lasts) =
      send_chunks_table rounds now media_ssrc later (touch_all now chunk pending) _
        (omega (arith, length-drop rtcp_nack_max_sequences (s ∷ rest))) in
    (
      table
          ∙ sym (touch_all-append now chunk later pending)
          ∙ ap (λ xs. touch_all now xs pending)
              (take-append-drop rtcp_nack_max_sequences (s ∷ rest)),
      tables,
      lasts,
    )

-- Whatever is sendable is one of the sequences that were passed, and not among those seen.
pub elem-sendable :
    (pending : Table) (seen seqs : List ℕ) (s : ℕ)
    → elem s (sendable pending seen seqs) ≡ true
    → (elem s (map (λ x. x % 65536) seqs) ≡ true) × (elem s seen ≡ false)
unfolding sendable elem
elem-sendable pending seen [] s h = cc
elem-sendable pending seen (x ∷ xs) s h =
    elim (Bool-cases (elem (x % 65536) seen || not (contains (x % 65536) pending))) [
      | inl skip ↦ let ih = elem-sendable pending seen xs s in ground (arith, ih)
      | inr send ↦
          let ih = elem-sendable pending (x % 65536 ∷ seen) xs s in
          elim (Bool-cases (nat_eq (x % 65536) s)) [
            | inl same ↦
                let e : x % 65536 ≡ s = ground arith in ground (arith, ap (λ n. elem n seen) e)
            | inr other ↦ ground (arith, ih)
          ]
    ]

pub IsDistinct-sendable :
    (pending : Table) (seen seqs : List ℕ) → IsDistinct (sendable pending seen seqs)
unfolding sendable elem
IsDistinct-sendable pending seen [] = tt
IsDistinct-sendable pending seen (x ∷ xs) =
    elim (Bool-cases (elem (x % 65536) seen || not (contains (x % 65536) pending))) [
      | inl skip ↦ rw skip (IsDistinct-sendable pending seen xs)
      | inr send ↦ rw send (
        ground (arith, elem-sendable pending (x % 65536 ∷ seen) xs (x % 65536)),
        IsDistinct-sendable pending (x % 65536 ∷ seen) xs,
      )
    ]

pub elem-keys_where :
    (test : PendingVideoNack → Bool) (d : Table) (k : ℕ)
    → get k d ≡ none
    → elem k (keys_where test d) ≡ false
unfolding keys_where elem get
elem-keys_where test [] k g = refl
elem-keys_where test ((i, m) ∷ d) k g = ground (arith, elem-keys_where test d k)

-- The keys that `keys_where` lists pass its test.
pub keys_where_test :
    (test : PendingVideoNack → Bool) (d : Table) (k : ℕ) (n : PendingVideoNack)
    → IsUnique d
    → elem k (keys_where test d) ≡ true
    → get k d ≡ some n
    → test n ≡ true
unfolding keys_where elem get
keys_where_test test [] k n u e g = cc
keys_where_test test ((i, m) ∷ d) k n u e g = elim (Bool-cases (nat_eq i k)) [
  | inl same ↦
      let e' : i ≡ k = ground arith in
      let absent : get k d ≡ none = subst (λ j. get j d ≡ none) e' u.0 in
      let same_nack : m ≡ n = ground arith in
      elim (Bool-cases (test m)) [
        | inl pass ↦ subst (λ nack. test nack ≡ true) same_nack pass
        | inr fail ↦ ground (arith, elem-keys_where test d k absent)
      ]
  | inr other ↦ elim (Bool-cases (test m)) [
    | inl pass ↦ ground (arith, keys_where_test test d k n u.1)
    | inr fail ↦ ground (arith, keys_where_test test d k n u.1)
  ]
]
