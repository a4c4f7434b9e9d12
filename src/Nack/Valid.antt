-- ===== src/Nack/Valid.antt =====
-- Every operation on the lost packets of discord/ext/native_voice/client.py keeps its bounds: the
-- retries, the outstanding requests of an SSRC, and the range of the numbers.
use mathlib.Core.Path.{subst}
use discord_native_voice.Prelude.{
  ℕ, ◌%◌, ◌≤◌, ◌<◌, ◌≡◌, sym, Bool, true, some, List, [], ◌∷◌, map, length, elem, is_empty, nat_eq,
  ℕ-eq, arith, Option-cases, Bool-cases, inl, inr,
}
use discord_native_voice.Prelude.Dict.{
  get, IsUnique, IsUnique-put, IsUnique-erase, get-put, get-erase,
}
use discord_native_voice.Nack.{
  PendingVideoNack, Table, Tracker, keep, forget, table_or_empty, touch_all, sendable,
  send_pending_video_nacks, keys_where, drop_if_empty,
}
use discord_native_voice.Nack.Table.{IsSound, AreFresh, touch_all-IsSound}
use discord_native_voice.Nack.Sending.{
  send_chunks_table, elem-sendable, IsDistinct-sendable, elem-keys_where,
}

-- Every entry is sound, and at most 1000 requests are outstanding.
pub record IsTable (d : Table) : Type 0 where
  pub sound : IsSound d
  pub room : length d ≤ 1000

-- Every SSRC has one well-formed table at most, and the last sequences are 16-bit numbers.
pub record IsValid (t : Tracker) : Type 0 where
  pub one_table : IsUnique t.pending_nacks
  pub tables : (ssrc : ℕ) (d : Table) → get ssrc t.pending_nacks ≡ some d → IsTable d
  pub lasts : (ssrc s : ℕ) → get ssrc t.last_sequences ≡ some s → s < 65536

-- The invariant looks at two fields only.
pub IsValid-of_fields :
    (t t' : Tracker)
    → t'.pending_nacks ≡ t.pending_nacks
    → t'.last_sequences ≡ t.last_sequences
    → IsValid t
    → IsValid t'
IsValid-of_fields t t' p q h = record {
  one_table = subst (λ d. IsUnique d) (sym p) h.one_table;
  tables = λ ssrc d g. h.tables ssrc d (subst (λ tables. get ssrc tables ≡ some d) p g);
  lasts = λ ssrc s g. h.lasts ssrc s (subst (λ lasts. get ssrc lasts ≡ some s) q g);
}

pub keep-IsValid :
    (ssrc : ℕ) (d : Table) (t : Tracker) → IsTable d → IsValid t → IsValid (keep ssrc d t)
keep-IsValid ssrc d t ok h = record {
  one_table = IsUnique-put ssrc d t.pending_nacks h.one_table;
  tables = λ k e g. elim (Bool-cases (nat_eq ssrc k)) [
    | inl same ↦
        let e' : d ≡ e = ground (arith, get-put ssrc k d t.pending_nacks) in subst IsTable e' ok
    | inr other ↦ h.tables k e (ground (arith, get-put ssrc k d t.pending_nacks))
  ];
  lasts = h.lasts;
}

pub forget-IsValid : (ssrc : ℕ) (t : Tracker) → IsValid t → IsValid (forget ssrc t)
forget-IsValid ssrc t h = record {
  one_table = IsUnique-erase ssrc t.pending_nacks h.one_table;
  tables = λ k e g. h.tables k e (ground (arith, get-erase ssrc k t.pending_nacks h.one_table));
  lasts = h.lasts;
}

IsTable-nil : IsTable []
unfolding get
IsTable-nil = record { sound = record { unique = tt; entry = λ k n g. cc }; room = omega arith }

pub table_or_empty-IsTable :
    (ssrc : ℕ) (t : Tracker) → IsValid t → IsTable (table_or_empty (get ssrc t.pending_nacks))
table_or_empty-IsTable ssrc t h = elim (Option-cases (get ssrc t.pending_nacks)) [
  | inl absent ↦ rw (absent, table_or_empty) IsTable-nil
  | inr (d, found) ↦ rw (found, table_or_empty) (h.tables ssrc d found)
]

pub send_pending-IsValid :
    (ssrc : ℕ) (seqs : List ℕ) (now : ℕ) (t : Tracker)
    → IsValid t
    → ((d : Table) → get ssrc t.pending_nacks ≡ some d → AreFresh (map (λ s. s % 65536) seqs) d)
    → IsValid (send_pending_video_nacks ssrc seqs now t)
unfolding send_pending_video_nacks
send_pending-IsValid ssrc seqs now t h fresh = elim (Option-cases (get ssrc t.pending_nacks)) [
  | inl absent ↦ rw (absent, send_pending_video_nacks) h
  | inr (d, found) ↦
      let ready = sendable d [] seqs in
      let table = h.tables ssrc d found in
      let (marked, tables, lasts) =
        send_chunks_table (length ready) now ssrc ready d t (omega arith) in
      let (sound, size) =
        touch_all-IsSound now ready d (IsDistinct-sendable d [] seqs)
          (λ s n e g. fresh d found s n (elem-sendable d [] seqs s e).0 g) table.sound in
      let ok : IsTable (touch_all now ready d) = record {
        sound = sound;
        room = omega (arith, size, table.room);
      } in
      rw (found, send_pending_video_nacks)
        (keep-IsValid ssrc _ _ (subst IsTable (sym marked) ok)
          (IsValid-of_fields t _ tables lasts h))
]

pub elem-residues :
    (xs : List ℕ) (s : ℕ)
    → ((k : ℕ) → elem k xs ≡ true → k < 65536)
    → elem s (map (λ x. x % 65536) xs) ≡ true
    → elem s xs ≡ true
unfolding elem
elem-residues [] s small h = cc
elem-residues (x ∷ xs) s small h =
    let fits : x < 65536 = small x (ground arith) in
    ground (arith, elem-residues xs s (λ k e. small k (ground arith)))

-- The keys of a table are 16-bit numbers.
pub keys_where-lt :
    (test : PendingVideoNack → Bool) (d : Table) (k : ℕ)
    → IsSound d
    → elem k (keys_where test d) ≡ true
    → k < 65536
keys_where-lt test d k h e = elim (Option-cases (get k d)) [
  | inl absent ↦ cc (elem-keys_where test d k absent)
  | inr (n, found) ↦ (h.entry k n found).0
]

pub drop_if_empty-IsValid : (ssrc : ℕ) (t : Tracker) → IsValid t → IsValid (drop_if_empty ssrc t)
drop_if_empty-IsValid ssrc t h =
    elim (Bool-cases (is_empty (table_or_empty (get ssrc t.pending_nacks)))) [
      | inl empty ↦ rw empty (forget-IsValid ssrc t h)
      | inr other ↦ rw other h
    ]
