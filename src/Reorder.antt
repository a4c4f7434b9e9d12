-- ===== src/Reorder.antt =====
-- The reorder buffer of discord/ext/native_voice/rtp.py, `_VideoReceiveReorderBuffer`: received
-- video packets wait under their unwrapped sequence number until those before them have come, the
-- buffer is overfull, or the head has been missing for `max_delay`.
--
-- `time.perf_counter()` is the argument `now`, in microseconds; `now - since < max_delay` is
-- written `now < since + max_delay`. Keys below the expected number return before they are stored,
-- so the keys that are stored are natural numbers.
pub mod Pop
pub mod Valid
pub mod Order
pub mod Accounts
pub mod Delivery
mod Tests
use discord_native_voice.Prelude.{
  ℕ, zero, suc, ◌+◌, ◌-◌, Bool, ◌&&◌, Option, none, some, List, [], ◌∷◌, ◌++◌, length, max, min,
  ltb, leb, ℕ-eq, if◌then◌else◌,
}
use discord_native_voice.Prelude.Int.{ℤ, pos, pos_part, ltb_ℤ}
use discord_native_voice.Prelude.Dict.{Dict, get, contains, setdefault, erase}
use discord_native_voice.Rtp.{ReceivedVideoPacket, sequence}
use discord_native_voice.Rtp.Sequence.{unwrap_sequence}

-- The counters that are kept when `debug_stats` is set.
pub record Stats : Type 0 where
  pub packets_pushed : ℕ
  pub duplicate_packets : ℕ
  pub old_packets : ℕ
  pub waits : ℕ
  pub flushes : ℕ
  pub skipped_packets : ℕ
  pub ready_packets : ℕ
  pub max_buffered : ℕ

pub record Buffer : Type 0 where
  pub max_packets : ℕ
  pub max_delay : ℕ
  pub debug_stats : Bool
  pub expected_sequence : Option ℕ
  pub blocked_at : Option ℕ
  pub packets : Dict ℕ ReceivedVideoPacket
  pub stats : Stats

abbrev pub no_stats : Stats
no_stats = record {
  packets_pushed = 0;
  duplicate_packets = 0;
  old_packets = 0;
  waits = 0;
  flushes = 0;
  skipped_packets = 0;
  ready_packets = 0;
  max_buffered = 0;
}

-- `__init__`
abbrev pub init : ℕ → ℕ → Bool → Buffer
init max_packets max_delay debug_stats = record {
  max_packets = max_packets;
  max_delay = max_delay;
  debug_stats = debug_stats;
  expected_sequence = none;
  blocked_at = none;
  packets = [];
  stats = no_stats;
}

-- `if self.debug_stats:` before an update of the counters
abbrev pub tally : Buffer → (Stats → Stats) → Buffer
tally b f = record b { stats = if b.debug_stats then f b.stats else b.stats }

-- The loop of `_pop_ready` from `expected`: what it releases, the number that it stops at, and what
-- is left. Each round removes a packet, so as many rounds as there are packets are enough.
unfoldable pub pop_loop :
    ℕ → ℕ → Dict ℕ ReceivedVideoPacket → List ReceivedVideoPacket × ℕ × Dict ℕ ReceivedVideoPacket
pop_loop zero expected packets = ([], expected, packets)
pop_loop (suc rounds) expected packets = elim (get expected packets) [
  | none ↦ ([], expected, packets)
  | some p ↦
      let (ready, stop, rest) = pop_loop rounds (expected + 1) (erase expected packets) in
      (p ∷ ready, stop, rest)
]

pub pop_ready : Buffer → List ReceivedVideoPacket × Buffer
pop_ready b = elim b.expected_sequence [
  | none ↦ ([], b)
  | some expected ↦
      let (ready, stop, rest) = pop_loop (length b.packets) expected b.packets in
      (ready, record b { expected_sequence = some stop; packets = rest })
]

-- `min(self._packets)`; `none` where Python raises, on an empty dictionary
unfoldable pub min_key : Dict ℕ ReceivedVideoPacket → Option ℕ
min_key [] = none
min_key ((k, p) ∷ d) = elim (min_key d) [ none ↦ some k | some m ↦ some (min k m) ]

-- The end of `push`, from `previous_expected = expected`. The buffer holds at least the packet
-- that was pushed, so the first case is never met (`Reorder.Order`).
pub flush : ℕ → Buffer → List ReceivedVideoPacket × Buffer
flush previous b = elim (min_key b.packets) [
  | none ↦ ([], b)
  | some lowest ↦
      let b1 = record b { expected_sequence = some lowest; blocked_at = none } in
      let b2 = tally b1 λ s. record s {
        skipped_packets = s.skipped_packets + (lowest - previous);
        flushes = s.flushes + 1;
      } in
      let (ready, b3) = pop_ready b2 in
      (ready, tally b3 λ s. record s { ready_packets = s.ready_packets + length ready })
]

abbrev pub since : ℕ → Option ℕ → ℕ
since now none = now
since now (some t) = t

-- Nothing is ready: wait, unless the buffer is overfull or the head is overdue.
pub wait_or_flush : ℕ → ℕ → Buffer → List ReceivedVideoPacket × Buffer
wait_or_flush now expected b =
    let b1 = record b { blocked_at = some (since now b.blocked_at) } in
    if leb (length b.packets) b.max_packets && ltb now (since now b.blocked_at + b.max_delay)
    then ([], tally b1 λ s. record s { waits = s.waits + 1 })
    else flush expected b1

-- `if ready: …`, and what follows it
pub deliver : ℕ → ℕ → List ReceivedVideoPacket × Buffer → List ReceivedVideoPacket × Buffer
deliver now expected ([], b) = wait_or_flush now expected b
deliver now expected (p ∷ ready, b) = (
  p ∷ ready,
  tally (record b { blocked_at = none })
      λ s. record s { ready_packets = s.ready_packets + length (p ∷ ready) },
)

-- A packet that is not old is stored under `key`, unless that is taken.
pub store : ℕ → ReceivedVideoPacket → Buffer → Buffer
store key p b =
    let b1 = tally b λ s. record s {
      duplicate_packets =
          if contains key b.packets then s.duplicate_packets + 1 else s.duplicate_packets;
    } in
    let b2 = record b1 { packets = setdefault key p b1.packets } in
    tally b2 λ s. record s { max_buffered = max s.max_buffered (length b2.packets) }

-- The number that `push` compares with, and the packet's own: for the first packet, its sequence.
abbrev pub expected_or : ℕ → Option ℕ → ℕ
expected_or first none = first
expected_or first (some expected) = expected

abbrev pub unwrapped : ℕ → Option ℕ → ℤ
unwrapped seq none = pos seq
unwrapped seq (some expected) = unwrap_sequence seq expected

-- `push`, once both numbers are known
pub push_at : ℕ → ReceivedVideoPacket → Buffer → ℕ → ℤ → List ReceivedVideoPacket × Buffer
unfolding pop_ready flush wait_or_flush deliver store
push_at now p b expected key =
    let b1 = tally b λ s. record s { packets_pushed = s.packets_pushed + 1 } in
    let b2 = record b1 { expected_sequence = some expected } in
    if ltb_ℤ key (pos expected)
    then ([], tally b2 λ s. record s { old_packets = s.old_packets + 1 })
    else deliver now expected (pop_ready (store (pos_part key) p b2))

unfoldable pub push : ℕ → ReceivedVideoPacket → Buffer → List ReceivedVideoPacket × Buffer
unfolding push_at
push now p b =
    push_at now p b (expected_or (sequence p) b.expected_sequence)
      (unwrapped (sequence p) b.expected_sequence)

-- The packets that a run of pushes releases, in the order of their release, and the final buffer.
pub run : List (ℕ × ReceivedVideoPacket) → Buffer → List ReceivedVideoPacket × Buffer
run [] b = ([], b)
run ((now, p) ∷ arrivals) b =
    let (ready, b1) = push now p b in let (later, b2) = run arrivals b1 in (ready ++ later, b2)
