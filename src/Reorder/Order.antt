-- ===== src/Reorder/Order.antt =====
-- The order in which the reorder buffer releases packets (discord/ext/native_voice/rtp.py).
use discord_native_voice.Prelude.{
  ℕ, ◌+◌, ◌%◌, ◌≤◌, ◌≡◌, refl, ap, sym, inl, inr, false, none, some, [], length, ℕ-eq, arith,
  Option-cases, Bool-cases,
}
use mathlib.Core.Path.{subst}
use discord_native_voice.Prelude.Int.{ℤ, pos, pos_part, ltb_ℤ, ◌≤ℤ◌}
use discord_native_voice.Prelude.Dict.{
  Dict, get, put, setdefault, setdefault_fresh, setdefault_taken, IsUnique, IsUnique-put, get-put,
  length-put_new,
}
use discord_native_voice.Rtp.{ReceivedVideoPacket, sequence}
use discord_native_voice.Rtp.Sequence.{unwrap_sequence, unwrap_sequence_window}
use discord_native_voice.Reorder.{
  Buffer, pop_loop, pop_ready, store, expected_or, unwrapped, push_at, push,
}
use discord_native_voice.Reorder.Pop.{Window, pop_loop-Popped, pop_loop_nil}
use discord_native_voice.Reorder.Valid.{IsSettled, IsValid, Release, deliver-Release}

-- What storing a packet under its number does to the dictionary.
pub record IsStored (e key : ℕ) (d d' : Dict ℕ ReceivedVideoPacket) : Type 0 where
  pub unique : IsUnique d'
  pub window : Window e d'
  pub grown : length d' ≤ length d + 1
  pub held : (p : ReceivedVideoPacket) × (get key d' ≡ some p)

pub setdefault-IsStored :
    (e key : ℕ) (p : ReceivedVideoPacket) (d : Dict ℕ ReceivedVideoPacket)
    → IsUnique d
    → Window e d
    → e ≤ key
    → key ≤ e + 0x7FFF
    → sequence p ≡ key % 65536
    → IsStored e key d (setdefault key p d)
setdefault-IsStored e key p d u w lo hi seq = elim (Option-cases (get key d)) [
  | inl fresh ↦
      let stored : IsStored e key d (put key p d) = record {
        unique = IsUnique-put key p d u;
        window = λ k q g. ground (arith, get-put key k p d, w k q);
        grown = omega (arith, length-put_new key p d fresh);
        held = (p, ground (arith, get-put key key p d));
      } in
      subst (IsStored e key d) (sym (setdefault_fresh key p d fresh)) stored
  | inr (q, taken) ↦
      let stored : IsStored e key d d = record {
        unique = u;
        window = w;
        grown = omega arith;
        held = (q, taken);
      } in
      subst (IsStored e key d) (sym (setdefault_taken key p q d taken)) stored
]

-- What is not below the expected number, has a natural number for its key.
not_below : (e : ℕ) (key : ℤ) → ltb_ℤ key (pos e) ≡ false → (pos e ≤ℤ key) × (e ≤ pos_part key)
not_below e key h = ground arith

-- From a window above `e`, a push of a packet whose key is known.
push_at-Release :
    (now : ℕ) (p : ReceivedVideoPacket) (b : Buffer) (e : ℕ) (key : ℤ)
    → IsUnique b.packets
    → Window e b.packets
    → get e b.packets ≡ none
    → length b.packets ≤ b.max_packets
    → (pos e ≤ℤ key → (sequence p ≡ pos_part key % 65536) × (pos_part key ≤ e + 0x7FFF))
    → Release now e b (push_at now p b e key)
unfolding push_at store pop_ready
push_at-Release now p b e key u w missing room near = elim (Bool-cases (ltb_ℤ key (pos e))) [
  | inl old ↦ rw old (record {
    start = e;
    from = omega arith;
    upto = omega arith;
    numbered = tt;
    stop = e;
    counted = omega arith;
    settled = record { expects = refl; unique = u; window = w; missing = missing; room = room };
    reason = inl refl;
  })
  | inr new ↦
      let (above, lo) = not_below e key new in
      let (seq, hi) = near above in
      let stored = setdefault-IsStored e (pos_part key) p b.packets u w lo hi seq in
      let d = setdefault (pos_part key) p b.packets in
      let (stop_eq, numbered, unique, window, absent, sizes) =
        pop_loop-Popped (length d) e d stored.unique stored.window (omega arith) in
      rw new (
        deliver-Release now e b (pop_loop (length d) e d).0 _ (pos_part key) stored.held.0
          (record {
            numbered = numbered;
            expects = ap some stop_eq;
            unique = unique;
            window = rw (← stop_eq) window;
            missing = rw (← stop_eq) absent;
            room = omega (arith, sizes, stored.grown);
          })
          (λ nothing. rw (pop_loop_nil (length d) e d nothing) stored.held.1) refl refl refl
          (omega (arith, sizes, stored.grown)))
]

pub in_window :
    (p : ReceivedVideoPacket) (e : ℕ)
    → pos e ≤ℤ unwrap_sequence (sequence p) e
    → (sequence p ≡ pos_part (unwrap_sequence (sequence p) e) % 65536)
      × (pos_part (unwrap_sequence (sequence p) e) ≤ e + 0x7FFF)
unfolding sequence
in_window p e above =
    let (seq, hi) = (unwrap_sequence_window (sequence p) e (omega arith)).0 above in (sym seq, hi)

-- Whatever packet is pushed into a settled buffer that expects `e`, the packets that come out carry
-- consecutive numbers, from `e` on, or, if something comes out and the buffer is full or has been
-- blocked for `max_delay`, from a number up to half a cycle further on. The buffer after it expects
-- the number that follows them and is settled again: every packet that it keeps is there once, under
-- its own number, above the one that is expected, and there are at most `max_packets`.
pub push-Release :
    (now : ℕ) (p : ReceivedVideoPacket) (e : ℕ) (b : Buffer)
    → IsSettled e b
    → Release now e b (push now p b)
unfolding push
push-Release now p e b h =
    subst
      (λ o.
        Release now e b (push_at now p b (expected_or (sequence p) o) (unwrapped (sequence p) o)))
      (sym h.expects)
      (push_at-Release now p b e (unwrap_sequence (sequence p) e) h.unique h.window h.missing h.room
        (in_window p e))

-- The first packet: its own number is the expected one, and it is released at once.
pub push-Release_first :
    (now : ℕ) (p : ReceivedVideoPacket) (b : Buffer)
    → b.expected_sequence ≡ none
    → b.packets ≡ []
    → Release now (sequence p) b (push now p b)
unfolding push get
push-Release_first now p b fresh empty =
    subst
      (λ o.
        Release now (sequence p) b
          (push_at now p b (expected_or (sequence p) o) (unwrapped (sequence p) o)))
      (sym fresh)
      (push_at-Release now p b (sequence p) (pos (sequence p))
        (subst (λ d. IsUnique d) (sym empty) tt)
        (subst (Window (sequence p)) (sym empty) (λ k q g. cc))
        (subst (λ d. get (sequence p) d ≡ none) (sym empty) refl)
        (subst (λ (d : Dict ℕ ReceivedVideoPacket). length d ≤ b.max_packets) (sym empty)
          (omega arith))
        (λ _. unfold sequence in omega arith))

-- A push keeps the buffer well-formed: whatever packet comes, at whatever time, no more than
-- `max_packets` packets are kept, each once and under its own number, in the half cycle above the
-- number that is expected next, which is missing.
pub push-IsValid :
    (now : ℕ) (p : ReceivedVideoPacket) (b : Buffer) → IsValid b → IsValid (push now p b).1
push-IsValid now p b (inl (fresh, empty)) =
    let r = push-Release_first now p b fresh empty in inr (r.stop, r.settled)
push-IsValid now p b (inr (e, h)) = let r = push-Release now p e b h in inr (r.stop, r.settled)
