-- ===== src/Reorder/Accounts.antt =====
-- The counters of the reorder buffer (discord/ext/native_voice/rtp.py) account for every packet.
use discord_native_voice.Prelude.{
  ℕ, ◌+◌, ◌≡◌, true, some, List, [], ◌∷◌, length, ℕ-eq, arith, Option-cases, Bool-cases, inl, inr,
  ltb, leb, ◌&&◌,
}
use discord_native_voice.Prelude.Int.{ℤ, pos, pos_part, ltb_ℤ}
use discord_native_voice.Prelude.Dict.{get, setdefault_fresh, setdefault_taken, length-put_new}
use discord_native_voice.Rtp.{ReceivedVideoPacket, sequence}
use discord_native_voice.Reorder.{
  Buffer, Stats, tally, pop_loop, pop_ready, min_key, flush, since, wait_or_flush, deliver, store,
  push_at, push, expected_or, unwrapped,
}
use discord_native_voice.Reorder.Pop.{pop_loop_size}

-- What the counters have seen, and where it went.
abbrev pub gone : Stats → ℕ
gone s = s.old_packets + s.duplicate_packets + s.ready_packets

-- Every packet that was pushed is old, a duplicate, released or still in the buffer.
abbrev pub IsBalanced : Buffer → Type 0
IsBalanced b = b.stats.packets_pushed ≡ gone b.stats + length b.packets

-- The same while `ready` packets are on their way out.
abbrev IsOwing : ℕ → Buffer → Type 0
IsOwing ready b = b.stats.packets_pushed ≡ gone b.stats + length b.packets + ready

flush-IsBalanced :
    (e : ℕ) (b : Buffer) → b.debug_stats ≡ true → IsBalanced b → IsBalanced (flush e b).1
unfolding flush pop_ready
flush-IsBalanced e b on h = elim (Option-cases (min_key b.packets)) [
  | inl empty ↦ rw (empty, flush) h
  | inr (m, least) ↦
      rw (least, flush) (ground (arith, pop_loop_size (length b.packets) m b.packets))
]

deliver-IsBalanced :
    (now e : ℕ) (ready : List ReceivedVideoPacket) (b : Buffer)
    → b.debug_stats ≡ true
    → IsOwing (length ready) b
    → IsBalanced (deliver now e (ready, b)).1
unfolding deliver wait_or_flush
deliver-IsBalanced now e (p ∷ ready) b on h = ground arith
deliver-IsBalanced now e [] b on h =
    elim (Bool-cases
      (leb (length b.packets) b.max_packets && ltb now (since now b.blocked_at + b.max_delay))) [
        | inl waits ↦ rw (waits, wait_or_flush) (ground arith)
        | inr skips ↦
            rw (skips, wait_or_flush)
              (flush-IsBalanced e (record b { blocked_at = some (since now b.blocked_at) }) on
                (omega (arith, h)))
      ]

-- A packet is stored, or counted as a duplicate.
store_counts :
    (key : ℕ) (p : ReceivedVideoPacket) (b : Buffer)
    → b.debug_stats ≡ true
    → gone (store key p b).stats + length (store key p b).packets
      ≡ gone b.stats + length b.packets + 1
unfolding store
store_counts key p b on = elim (Option-cases (get key b.packets)) [
  | inl fresh ↦
      ground (arith, setdefault_fresh key p b.packets fresh, length-put_new key p b.packets fresh)
  | inr (q, taken) ↦ ground (arith, setdefault_taken key p q b.packets taken)
]

push_at-IsBalanced :
    (now : ℕ) (p : ReceivedVideoPacket) (b : Buffer) (e : ℕ) (key : ℤ)
    → b.debug_stats ≡ true
    → IsBalanced b
    → IsBalanced (push_at now p b e key).1
unfolding push_at pop_ready
push_at-IsBalanced now p b e key on h = elim (Bool-cases (ltb_ℤ key (pos e))) [
  | inl old ↦ rw old (ground arith)
  | inr new ↦
      let b2 : Buffer = record (tally b λ s. record s { packets_pushed = s.packets_pushed + 1 }) {
        expected_sequence = some e;
      } in
      let stored = store (pos_part key) p b2 in
      rw new (
        deliver-IsBalanced now e (pop_loop (length stored.packets) e stored.packets).0 _ on (
          ground (
            arith,
            store_counts (pos_part key) p b2 on,
            pop_loop_size (length stored.packets) e stored.packets,
          )))
]

-- With `debug_stats` set the counters account for every packet: after any push, the packets that
-- were pushed are those counted as old, as duplicates and as released, and those in the buffer.
pub push-IsBalanced :
    (now : ℕ) (p : ReceivedVideoPacket) (b : Buffer)
    → b.debug_stats ≡ true
    → IsBalanced b
    → IsBalanced (push now p b).1
unfolding push
push-IsBalanced now p b on h =
    push_at-IsBalanced now p b (expected_or (sequence p) b.expected_sequence)
      (unwrapped (sequence p) b.expected_sequence) on h
