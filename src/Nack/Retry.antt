-- ===== src/Nack/Retry.antt =====
-- Retrying requests and adding new ones (discord/ext/native_voice/client.py) keeps a tracker valid.
use mathlib.Core.Path.{subst}
use discord_native_voice.Prelude.{
  ℕ, ◌+◌, ◌%◌, ◌<◌, ◌≡◌, refl, Bool, true, false, not, some, List, [], ◌∷◌, map, length, select,
  elem, elem-select, is_empty, ℕ-eq, arith, ltb, String, Option-cases, Bool-cases, inl, inr,
  if◌then◌else◌,
}
use discord_native_voice.Prelude.Dict.{get, put, contains, get-put}
use discord_native_voice.Nack.{
  Table, Tracker, tally, keep, forget, add_all, add_unique, keys_where, is_expired, is_due,
  erase_all, retry_table, retry_pending_video_nacks,
}
use discord_native_voice.Nack.Table.{
  IsSound, AreFresh, erase_all-IsSound, length-erase_all, get-erase_all, add_all-IsSound,
  length-add_all, get-add_all,
}
use discord_native_voice.Nack.Sending.{keys_where_test}
use discord_native_voice.Nack.Valid.{
  IsTable, IsValid, IsValid-of_fields, keep-IsValid, forget-IsValid, send_pending-IsValid,
  elem-residues, keys_where-lt, drop_if_empty-IsValid,
}

pub tally_if-IsValid :
    (b : Bool) (key : String) (amount : ℕ) (t : Tracker)
    → IsValid t
    → IsValid (if b then t else tally key amount t)
tally_if-IsValid true key amount t h = h
tally_if-IsValid false key amount t h = IsValid-of_fields t _ refl refl h

tally_if_tables :
    (b : Bool) (key : String) (amount : ℕ) (t : Tracker)
    → (if b then t else tally key amount t).pending_nacks ≡ t.pending_nacks
tally_if_tables true key amount t = refl
tally_if_tables false key amount t = refl

pub if-IsValid :
    (b : Bool) (t t' : Tracker) → IsValid t → IsValid t' → IsValid (if b then t else t')
if-IsValid true t t' h h' = h
if-IsValid false t t' h h' = h'

-- What is due may be sent once more.
due-AreFresh :
    (now : ℕ) (expired : List ℕ) (pending : Table)
    → IsSound pending
    → AreFresh (map (λ s. s % 65536) (keys_where (is_due now) pending)) (erase_all expired pending)
due-AreFresh now expired pending h s n e g =
    let due = keys_where (is_due now) pending in
    let listed = elem-residues due s (λ k. keys_where-lt (is_due now) pending k h) e in
    let there = get-erase_all expired pending s n h.unique g in
    ground (arith, keys_where_test (is_due now) pending s n h.unique listed there)

-- What was written back is what is read next.
pub kept_table :
    (ssrc : ℕ) (d e : Table) (t : Tracker) → get ssrc (put ssrc d t.pending_nacks) ≡ some e → d ≡ e
kept_table ssrc d e t g = ground (arith, get-put ssrc ssrc d t.pending_nacks)

retry_table-IsValid :
    (ssrc : ℕ) (pending : Table) (now : ℕ) (t : Tracker)
    → IsValid t
    → IsTable pending
    → IsValid (retry_table ssrc pending now t)
unfolding retry_table
retry_table-IsValid ssrc pending now t h ok =
    let expired = keys_where is_expired pending in
    let due = keys_where (is_due now) pending in
    let left : IsTable (erase_all expired pending) = record {
      sound = erase_all-IsSound expired pending ok.sound;
      room = omega (arith, length-erase_all expired pending, ok.room);
    } in
    let t1 = keep ssrc (erase_all expired pending) t in
    let t2 =
      if is_empty expired then t1 else tally "video_nack_sequences_expired" (length expired) t1 in
    let valid2 : IsValid t2 =
      tally_if-IsValid (is_empty expired) _ _ t1
        (keep-IsValid ssrc (erase_all expired pending) t left h) in
    let fresh = λ (d : Table) (g : get ssrc t2.pending_nacks ≡ some d).
      let same : erase_all expired pending ≡ d = kept_table ssrc (erase_all expired pending) d t (
        subst (λ tables. get ssrc tables ≡ some d) (tally_if_tables (is_empty expired) _ _ t1) g) in
      subst (AreFresh (map (λ s. s % 65536) due)) same
        (due-AreFresh now expired pending ok.sound) in
    drop_if_empty-IsValid ssrc _
      (if-IsValid (is_empty due) t2 _ valid2 (send_pending-IsValid ssrc due now t2 valid2 fresh))

pub retry-IsValid :
    (ssrc now : ℕ) (t : Tracker) → IsValid t → IsValid (retry_pending_video_nacks ssrc now t)
unfolding retry_pending_video_nacks
retry-IsValid ssrc now t h = elim (Option-cases (get ssrc t.pending_nacks)) [
  | inl absent ↦ rw (absent, retry_pending_video_nacks) h
  | inr (d, found) ↦
      rw (found, retry_pending_video_nacks)
        (retry_table-IsValid ssrc d now t h (h.tables ssrc d found))
]

-- What adding a request leaves: a valid tracker, and new entries that were never sent.
pub record IsAdded (ssrc : ℕ) (out : List ℕ × Tracker) : Type 0 where
  pub valid : IsValid out.1
  pub small : (s : ℕ) → elem s out.0 ≡ true → s < 65536
  pub fresh : (d : Table) → get ssrc out.1.pending_nacks ≡ some d → AreFresh out.0 d

pub nothing-IsAdded : (ssrc : ℕ) (t : Tracker) → IsValid t → IsAdded ssrc ([], t)
unfolding elem
nothing-IsAdded ssrc t h = record { valid = h; small = λ s e. cc; fresh = λ d g s n e g'. cc }

added-AreFresh : (xs : List ℕ) (d : Table) → AreFresh xs (add_all xs d)
added-AreFresh xs d s n e g = ground (arith, get-add_all xs d s)

pub add_unique-IsAdded :
    (ssrc : ℕ) (us : List ℕ) (pending : Table) (t : Tracker)
    → IsValid t
    → IsTable pending
    → ((s : ℕ) → elem s us ≡ true → s < 65536)
    → IsAdded ssrc (add_unique ssrc us pending t)
unfolding add_unique
add_unique-IsAdded ssrc [] pending t h ok small = nothing-IsAdded ssrc t h
add_unique-IsAdded ssrc (u ∷ us) pending t h ok small =
    let added = select (λ s. not (contains s pending)) (u ∷ us) in
    let few = λ (s : ℕ) (e : elem s added ≡ true).
      small s (ground (arith, elem-select s (λ s. not (contains s pending)) (u ∷ us))) in
    elim (Bool-cases (is_empty added)) [
      | inl none_new ↦ rw none_new (nothing-IsAdded ssrc _ (keep-IsValid ssrc pending t ok h))
      | inr some_new ↦ elim (Bool-cases (ltb 1000 (length pending + length added))) [
        | inl overflow ↦
            rw (some_new, overflow)
              (nothing-IsAdded ssrc _
                (IsValid-of_fields (forget ssrc t) _ refl refl (forget-IsValid ssrc t h)))
        | inr fits ↦
            rw (some_new, fits)
              (record {
                valid =
                    keep-IsValid ssrc (add_all added pending) t
                      (record {
                        sound = add_all-IsSound added pending few ok.sound;
                        room = ground (arith, length-add_all added pending);
                      })
                      h;
                small = few;
                fresh = λ d g.
                    subst (AreFresh added) (kept_table ssrc (add_all added pending) d t g)
                      (added-AreFresh added pending);
              })
      ]
    ]
