-- ===== src/Reorder/Valid.antt =====
-- The well-formedness of the reorder buffer (discord/ext/native_voice/rtp.py), and the parts of
-- `push` from a well-formed buffer on: storing, releasing, waiting and flushing.
use discord_native_voice.Prelude.{
  ℕ, ◌+◌, ◌≤◌, ◌≡◌, refl, ap, ◌⊎◌, inl, inr, Bool, true, false, none, some, List, [], ◌∷◌, length,
  ℕ-eq, arith, Bool-cases, ltb, leb, leb→le, ◌&&◌,
}
use discord_native_voice.Prelude.Dict.{get, IsUnique}
use discord_native_voice.Rtp.{ReceivedVideoPacket}
use discord_native_voice.Reorder.{Buffer, pop_loop, pop_ready, flush, since, wait_or_flush, deliver}
use discord_native_voice.Reorder.Pop.{
  Window, Consecutive, pop_loop-Popped, pop_loop_pos, min_key-le, get-min_key, min_key_total,
}

-- Between two pushes, once the first packet has come: the stored packets lie in the half cycle
-- above the expected number, each under its own number, that number itself is missing, and there
-- are at most `max_packets` of them.
pub record IsSettled (expected : ℕ) (b : Buffer) : Type 0 where
  pub expects : b.expected_sequence ≡ some expected
  pub unique : IsUnique b.packets
  pub window : Window expected b.packets
  pub missing : get expected b.packets ≡ none
  pub room : length b.packets ≤ b.max_packets

-- A buffer before its first packet, or a settled one.
abbrev pub IsValid : Buffer → Type 0
IsValid b = ((b.expected_sequence ≡ none) × (b.packets ≡ [])) ⊎ ((e : ℕ) × IsSettled e b)

-- The head of the buffer has blocked it for `max_delay`, or one packet more is too many.
abbrev pub IsOverdue : ℕ → Buffer → Type 0
IsOverdue now b = (b.max_packets ≤ length b.packets) ⊎ (since now b.blocked_at + b.max_delay ≤ now)

-- What a push releases: consecutive packets from `start` on, where `start` is the number expected
-- before, or a later one, in the half cycle from it, if the buffer is overdue and something is
-- released; and the number that follows them is expected next.
pub record Release (now expected : ℕ) (b : Buffer) (out : List ReceivedVideoPacket × Buffer)
    : Type 0 where
  pub start : ℕ
  pub from : expected ≤ start
  pub upto : start ≤ expected + 0x7FFF
  pub numbered : Consecutive start out.0
  pub stop : ℕ
  pub counted : stop ≡ start + length out.0
  pub settled : IsSettled stop out.1
  pub reason : (start ≡ expected) ⊎ (IsOverdue now b × (1 ≤ length out.0))

-- What `_pop_ready` has left, before `push` looks whether anything was ready.
pub record IsPopped (expected : ℕ) (ready : List ReceivedVideoPacket) (b : Buffer) : Type 0 where
  pub numbered : Consecutive expected ready
  pub expects : b.expected_sequence ≡ some (expected + length ready)
  pub unique : IsUnique b.packets
  pub window : Window (expected + length ready) b.packets
  pub missing : get (expected + length ready) b.packets ≡ none
  pub room : length b.packets + length ready ≤ b.max_packets + 1

-- `flush` releases at least the packet with the lowest number.
pub flush_releases :
    (e : ℕ) (c : Buffer) (k : ℕ) (p : ReceivedVideoPacket)
    → get k c.packets ≡ some p
    → 1 ≤ length (flush e c).0
unfolding flush pop_ready
flush_releases e c k p found =
    let (m, least) = min_key_total c.packets k p found in
    let (q, head) = get-min_key c.packets m least in
    rw (least, flush) (pop_loop_pos m q c.packets head)

-- An overdue buffer skips to its lowest packet, and releases from there.
flush-Release :
    (now e : ℕ) (b c : Buffer) (k : ℕ) (p : ReceivedVideoPacket)
    → IsPopped e [] c
    → get k c.packets ≡ some p
    → c.max_packets ≡ b.max_packets
    → IsOverdue now b
    → Release now e b (flush e c)
unfolding flush pop_ready
flush-Release now e b c k p h found same due =
    let (m, least) = min_key_total c.packets k p found in
    let (q, head) = get-min_key c.packets m least in
    let near : (e ≤ m) × (m ≤ e + 0x7FFF) = omega (arith, h.window m q head) in
    let (stop_eq, numbered, unique, window, missing, sizes) =
      pop_loop-Popped (length c.packets) m c.packets h.unique
        (λ j r g. (
          min_key-le c.packets m j r least g,
          omega (arith, h.window j r g, near),
          (h.window j r g).2,
        ))
        (omega arith) in
    rw (least, flush)
      (record {
        start = m;
        from = omega (arith, near);
        upto = omega (arith, near);
        numbered = numbered;
        stop = (pop_loop (length c.packets) m c.packets).1;
        counted = stop_eq;
        settled = record {
          expects = refl;
          unique = unique;
          window = window;
          missing = missing;
          room = omega (arith, sizes, h.room, pop_loop_pos m q c.packets head);
        };
        reason = inr (due, pop_loop_pos m q c.packets head);
      })

and_left : (a b : Bool) → (a && b) ≡ true → a ≡ true
and_left a b h = ground arith

-- The test of `wait_or_flush`, after the packet was stored, read as a fact about the buffer before.
overdue :
    (n n' cap cap' now t t' delay delay' : ℕ)
    → (leb n' cap' && ltb now (t' + delay')) ≡ false
    → cap' ≡ cap
    → delay' ≡ delay
    → t' ≡ t
    → n' ≤ n + 1
    → (cap ≤ n) ⊎ (t + delay ≤ now)
overdue n n' cap cap' now t t' delay delay' h p q r g = ground arith

-- Whatever was ready: the rest of `push` releases it, waits, or flushes.
pub deliver-Release :
    (now e : ℕ) (b : Buffer) (ready : List ReceivedVideoPacket) (c : Buffer) (k : ℕ)
    (p : ReceivedVideoPacket)
    → IsPopped e ready c
    → (ready ≡ [] → get k c.packets ≡ some p)
    → c.max_packets ≡ b.max_packets
    → c.max_delay ≡ b.max_delay
    → c.blocked_at ≡ b.blocked_at
    → length c.packets ≤ length b.packets + 1
    → Release now e b (deliver now e (ready, c))
unfolding deliver wait_or_flush
deliver-Release now e b [] c k p h found packets_eq delay_eq blocked_eq grown =
    elim (Bool-cases
      (leb (length c.packets) c.max_packets && ltb now (since now c.blocked_at + c.max_delay))) [
        | inl waits ↦
            rw (waits, wait_or_flush)
              (record {
                start = e;
                from = omega arith;
                upto = omega arith;
                numbered = tt;
                stop = e + 0;
                counted = omega arith;
                settled = record {
                  expects = h.expects;
                  unique = h.unique;
                  window = h.window;
                  missing = h.missing;
                  room = leb→le _ _ (and_left _ _ waits);
                };
                reason = inl refl;
              })
        | inr skips ↦
            rw (skips, wait_or_flush)
              (flush-Release now e b (record c { blocked_at = some (since now c.blocked_at) }) k p
                (record {
                  numbered = tt;
                  expects = h.expects;
                  unique = h.unique;
                  window = h.window;
                  missing = h.missing;
                  room = h.room;
                })
                (found refl) packets_eq
                (overdue (length b.packets) (length c.packets) b.max_packets c.max_packets now
                  (since now b.blocked_at) (since now c.blocked_at) b.max_delay c.max_delay skips
                  packets_eq delay_eq (ap (since now) blocked_eq) grown))
      ]
deliver-Release now e b (q ∷ ready) c k p h found packets_eq delay_eq blocked_eq grown = record {
  start = e;
  from = omega arith;
  upto = omega arith;
  numbered = h.numbered;
  stop = e + length (q ∷ ready);
  counted = refl;
  settled = record {
    expects = h.expects;
    unique = h.unique;
    window = h.window;
    missing = h.missing;
    room = omega (arith, h.room);
  };
  reason = inl refl;
}
