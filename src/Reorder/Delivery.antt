-- ===== src/Reorder/Delivery.antt =====
-- What the reorder buffer promises to its reader (discord/ext/native_voice/rtp.py): the order of a
-- whole run, no delay for packets that come in order, and an end to every wait.
use discord_native_voice.Prelude.{
  ℕ, ◌+◌, ◌%◌, ◌≤◌, ◌≡◌, refl, sym, ◌⊎◌, inl, inr, false, some, List, [], ◌∷◌, ◌++◌, length, ℕ-eq,
  arith, ltb, leb, ◌&&◌,
}
use mathlib.Core.Path.{subst}
use discord_native_voice.Prelude.Int.{ℤ, pos, pos_part, ltb_ℤ, ◌≤ℤ◌}
use discord_native_voice.Prelude.Dict.{get, setdefault, setdefault_fresh, get-put}
use discord_native_voice.Rtp.{ReceivedVideoPacket, sequence}
use discord_native_voice.Rtp.Sequence.{sequence_delta, unwrap_sequence, unwrap_sequence-mod}
use discord_native_voice.Reorder.{
  Buffer, pop_loop, pop_ready, deliver, since, wait_or_flush, store, expected_or, unwrapped,
  push_at, push, run,
}
use discord_native_voice.Reorder.Pop.{pop_loop_head, pop_loop_nil, Consecutive}
use discord_native_voice.Reorder.Valid.{flush_releases, IsSettled, IsValid, Release}
use discord_native_voice.Reorder.Order.{
  in_window, setdefault-IsStored, push-Release, push-Release_first,
}

-- The packets have unwrapped numbers that rise from `lo` to below `hi`, by less than half a cycle
-- each time.
abbrev Ascending : ℕ → List ReceivedVideoPacket → ℕ → Type 0
Ascending lo [] hi = lo ≡ hi
Ascending lo (p ∷ ps) hi =
    (s : ℕ) × (lo ≤ s) × (s ≤ lo + 0x7FFF) × (sequence p ≡ s % 65536) × Ascending (s + 1) ps hi

Ascending-append :
    (lo mid hi : ℕ) (ps qs : List ReceivedVideoPacket)
    → Ascending lo ps mid
    → Ascending mid qs hi
    → Ascending lo (ps ++ qs) hi
Ascending-append lo mid hi [] qs h k = rw h k
Ascending-append lo mid hi (p ∷ ps) qs (s, from, upto, seq, h) k =
    (s, from, upto, seq, Ascending-append (s + 1) mid hi ps qs h k)

Consecutive-Ascending :
    (start stop : ℕ) (ps : List ReceivedVideoPacket)
    → Consecutive start ps
    → stop ≡ start + length ps
    → Ascending start ps stop
Consecutive-Ascending start stop [] c e = omega arith
Consecutive-Ascending start stop (p ∷ ps) c e = (
  start,
  omega arith,
  omega arith,
  c.0,
  Consecutive-Ascending (start + 1) stop ps c.1 (omega arith),
)

Release-Ascending :
    (now e start stop : ℕ) (ready : List ReceivedVideoPacket)
    → e ≤ start
    → start ≤ e + 0x7FFF
    → Consecutive start ready
    → stop ≡ start + length ready
    → (start ≡ e) ⊎ (1 ≤ length ready)
    → Ascending e ready stop
Release-Ascending now e start stop [] from upto c counted why = omega arith
Release-Ascending now e start stop (p ∷ ps) from upto c counted why =
    (start, from, upto, c.0, Consecutive-Ascending (start + 1) stop ps c.1 (omega arith))

jumped :
    (now e : ℕ) (b : Buffer) (out : List ReceivedVideoPacket × Buffer) (r : Release now e b out)
    → (r.start ≡ e) ⊎ (1 ≤ length out.0)
jumped now e b out r = elim r.reason [ inl same ↦ inl same | inr (due, some_out) ↦ inr some_out ]

Ascending-of_Release :
    (now e : ℕ) (b : Buffer) (out : List ReceivedVideoPacket × Buffer) (r : Release now e b out)
    → Ascending e out.0 r.stop
Ascending-of_Release now e b out r =
    Release-Ascending now e r.start r.stop out.0 r.from r.upto r.numbered r.counted
      (jumped now e b out r)

run-Ascending :
    (arrivals : List (ℕ × ReceivedVideoPacket)) (e : ℕ) (b : Buffer)
    → IsSettled e b
    → (stop : ℕ) × Ascending e (run arrivals b).0 stop × IsSettled stop (run arrivals b).1
unfolding run
run-Ascending [] e b h = (e, refl, h)
run-Ascending ((now, p) ∷ arrivals) e b h =
    let r = push-Release now p e b h in
    let (stop, later, settled) = run-Ascending arrivals r.stop (push now p b).1 r.settled in
    (
      stop,
      Ascending-append e r.stop stop (push now p b).0 (run arrivals (push now p b).1).0
          (Ascending-of_Release now e b (push now p b) r) later,
      settled,
    )

-- Each packet is ahead of the one before it by the serial arithmetic of 16-bit sequence numbers.
abbrev pub IsSerial : List ReceivedVideoPacket → Type 0
IsSerial [] = Unit
IsSerial (p ∷ []) = Unit
IsSerial (p ∷ q ∷ ps) =
    (1 ≤ sequence_delta (sequence q) (sequence p))
    × (sequence_delta (sequence q) (sequence p) ≤ 0x8000)
    × IsSerial (q ∷ ps)

delta_of_numbers :
    (s t : ℕ) (p q : ReceivedVideoPacket)
    → s + 1 ≤ t
    → t ≤ s + 0x8000
    → sequence p ≡ s % 65536
    → sequence q ≡ t % 65536
    → (1 ≤ sequence_delta (sequence q) (sequence p))
      × (sequence_delta (sequence q) (sequence p) ≤ 0x8000)
unfolding sequence_delta
delta_of_numbers s t p q lo hi sp sq = omega arith

Ascending-IsSerial : (lo hi : ℕ) (ps : List ReceivedVideoPacket) → Ascending lo ps hi → IsSerial ps
Ascending-IsSerial lo hi [] h = tt
Ascending-IsSerial lo hi (p ∷ []) h = tt
Ascending-IsSerial lo hi (p ∷ q ∷ ps) (s, from, upto, seq, (t, from', upto', seq', h)) =
    let (ahead, near) = delta_of_numbers s t p q from' (omega arith) seq seq' in
    (ahead, near, Ascending-IsSerial (s + 1) hi (q ∷ ps) (t, from', upto', seq', h))

-- Over any run of arrivals, at any times, on a well-formed buffer: each packet that is released is
-- ahead of the one released before it, by the serial arithmetic of 16-bit sequence numbers, so the
-- reader never gets a packet twice in a row nor an older one after a newer one.
pub run-IsSerial :
    (arrivals : List (ℕ × ReceivedVideoPacket)) (b : Buffer)
    → IsValid b
    → IsSerial (run arrivals b).0
unfolding run
run-IsSerial [] b h = tt
run-IsSerial ((now, p) ∷ arrivals) b (inl (fresh, empty)) =
    let r = push-Release_first now p b fresh empty in
    let (stop, later, settled) = run-Ascending arrivals r.stop (push now p b).1 r.settled in
    Ascending-IsSerial (sequence p) stop _ (
      Ascending-append (sequence p) r.stop stop (push now p b).0 (run arrivals (push now p b).1).0
        (Ascending-of_Release now (sequence p) b (push now p b) r) later)
run-IsSerial ((now, p) ∷ arrivals) b (inr (e, h)) =
    let (stop, all, settled) = run-Ascending ((now, p) ∷ arrivals) e b h in
    Ascending-IsSerial e stop _ all

not_old : (e : ℕ) → ltb_ℤ (pos e) (pos e) ≡ false
not_old e = ground arith

deliver_some :
    (now e : ℕ) (ready : List ReceivedVideoPacket) (c : Buffer) (p : ReceivedVideoPacket)
    (ps : List ReceivedVideoPacket)
    → ready ≡ p ∷ ps
    → (deliver now e (ready, c)).0 ≡ p ∷ ps
unfolding deliver
deliver_some now e [] c p ps h = cc
deliver_some now e (q ∷ qs) c p ps h = h

-- The packet that is expected is released by its own push, at once and before all others.
pub push_expected :
    (now : ℕ) (p : ReceivedVideoPacket) (e : ℕ) (b : Buffer)
    → IsSettled e b
    → sequence p ≡ e % 65536
    → (ps : List ReceivedVideoPacket) × ((push now p b).0 ≡ p ∷ ps)
unfolding push push_at store pop_ready
push_expected now p e b h seq =
    let d = setdefault e p b.packets in
    let here : get e d ≡ some p =
      subst (λ d. get e d ≡ some p) (sym (setdefault_fresh e p b.packets h.missing))
        (ground (arith, get-put e e p b.packets)) in
    let (ps, first) = pop_loop_head e p d here in
    let key : unwrapped (sequence p) (some e) ≡ pos e =
      rw seq (unwrap_sequence-mod e e (omega arith) (omega arith)) in
    (
      ps,
      subst
          (λ o.
            (push_at now p b (expected_or (sequence p) o) (unwrapped (sequence p) o)).0 ≡ p ∷ ps)
          (sym h.expects)
          (subst (λ k. (push_at now p b e k).0 ≡ p ∷ ps) (sym key)
            (rw (not_old e) (deliver_some now e _ _ p ps first))),
    )

not_ltb : (e : ℕ) (key : ℤ) → pos e ≤ℤ key → ltb_ℤ key (pos e) ≡ false
not_ltb e key above = ground arith

below_key : (e : ℕ) (key : ℤ) → pos e ≤ℤ key → e ≤ pos_part key
below_key e key above = ground arith

wait_is_over :
    (now t : ℕ) (c : Buffer)
    → c.blocked_at ≡ some t
    → t + c.max_delay ≤ now
    → (leb (length c.packets) c.max_packets && ltb now (since now c.blocked_at + c.max_delay))
      ≡ false
wait_is_over now t c blocked due = ground arith

deliver_due :
    (now e : ℕ) (ready : List ReceivedVideoPacket) (c : Buffer) (k : ℕ) (p : ReceivedVideoPacket)
    → (ready ≡ [] → get k c.packets ≡ some p)
    → (t : ℕ) → c.blocked_at ≡ some t
    → t + c.max_delay ≤ now
    → 1 ≤ length (deliver now e (ready, c)).0
unfolding deliver wait_or_flush
deliver_due now e (q ∷ qs) c k p found t blocked due = omega arith
deliver_due now e [] c k p found t blocked due =
    rw (wait_is_over now t c blocked due, wait_or_flush)
      (flush_releases e (record c { blocked_at = some (since now c.blocked_at) }) k p (found refl))

-- Once the buffer has been blocked for `max_delay`, the next packet that is not an old one ends
-- the wait: something is released.
pub push_overdue :
    (now : ℕ) (p : ReceivedVideoPacket) (e t : ℕ) (b : Buffer)
    → IsSettled e b
    → b.blocked_at ≡ some t
    → t + b.max_delay ≤ now
    → pos e ≤ℤ unwrap_sequence (sequence p) e
    → 1 ≤ length (push now p b).0
unfolding push push_at store pop_ready
push_overdue now p e t b h blocked due above =
    let key = unwrap_sequence (sequence p) e in
    let (seq, hi) = in_window p e above in
    let stored =
      setdefault-IsStored e (pos_part key) p b.packets h.unique h.window (below_key e key above) hi
        seq in
    let d = setdefault (pos_part key) p b.packets in
    subst
      (λ o. 1 ≤ length (push_at now p b (expected_or (sequence p) o) (unwrapped (sequence p) o)).0)
      (sym h.expects)
      (rw (not_ltb e key above) (
        deliver_due now e (pop_loop (length d) e d).0 _ (pos_part key) stored.held.0
          (λ nothing. rw (pop_loop_nil (length d) e d nothing) stored.held.1) t blocked due))
