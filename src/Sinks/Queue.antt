-- ===== src/Sinks/Queue.antt =====
-- `QueueSink` and `AsyncQueueSink` of discord/ext/native_voice/media.py, on a queue that holds at
-- most `maxsize` packets, or any number if that is 0. The queues of the standard library are FIFO;
-- their `put_nowait` raises when they are full and `get_nowait` when they are empty.
use discord_native_voice.Prelude.{
  ℕ, ◌+◌, ◌-◌, ◌≤◌, ◌<◌, ◌≡◌, refl, Bool, true, false, not, ◌&&◌, inl, inr, Option, none, some,
  List, [], ◌∷◌, ◌++◌, length, drop, append_nil, append_assoc, length-append, length-drop,
  drop-drop, drop_inside, sym, ap, ◌∙◌, Bool-cases, leb, nat_eq, arith, if◌then◌else◌,
}
use discord_native_voice.Media.{MediaPacket}

pub record QueueSink : Type 0 where
  pub closed : Bool
  pub queue : List MediaPacket
  pub maxsize : ℕ
  pub drop_oldest : Bool
  pub dropped : ℕ

abbrev pub is_full : QueueSink → Bool
is_full s = not (nat_eq s.maxsize 0) && leb s.maxsize (length s.queue)

-- `put_nowait`: nothing where it raises `Full`
unfoldable pub put_nowait : MediaPacket → QueueSink → Option QueueSink
put_nowait packet s =
    if is_full s then none else some (record s { queue = s.queue ++ (packet ∷ []) })

-- The second attempt of `write`, after the oldest packet is taken out
abbrev pub put_again : QueueSink → Option QueueSink → Bool × QueueSink
put_again s none = (false, record s { dropped = s.dropped + 1 })
put_again s (some stored) = (true, record stored { dropped = stored.dropped + 1 })

abbrev pub write_after : MediaPacket → QueueSink → Option QueueSink → Bool × QueueSink
write_after packet s none =
    let taken = record s { queue = drop 1 s.queue } in
    if not s.drop_oldest
    then (false, record s { dropped = s.dropped + 1 })
    else put_again taken (put_nowait packet taken)
write_after packet s (some stored) = (true, stored)

-- `QueueSink.write`, and `AsyncQueueSink._put_packet`, which returns nothing
unfoldable pub queue_write : MediaPacket → QueueSink → Bool × QueueSink
unfolding put_nowait
queue_write packet s = if s.closed then (false, s) else write_after packet s (put_nowait packet s)

abbrev pub front : List MediaPacket → Option MediaPacket
front [] = none
front (packet ∷ _) = some packet

-- `get_nowait`: nothing where it raises `Empty`
abbrev pub get_nowait : QueueSink → Option MediaPacket × QueueSink
get_nowait s = (front s.queue, record s { queue = drop 1 s.queue })

-- A run of writes, with the number of those that were accepted
unfoldable pub queue_writes : List MediaPacket → QueueSink → ℕ × QueueSink
unfolding queue_write
queue_writes [] s = (0, s)
queue_writes (packet ∷ packets) s =
    let (accepted, s1) = queue_write packet s in
    let (more, s2) = queue_writes packets s1 in (if accepted then more + 1 else more, s2)

-- What the queue holds after so many writes: the newest packets, or the oldest.
abbrev pub newest : ℕ → List MediaPacket → List MediaPacket
newest n packets = drop (length packets - n) packets

newest-append :
    (n : ℕ) (xs ys : List MediaPacket) → newest n (newest n xs ++ ys) ≡ newest n (xs ++ ys)
newest-append n xs ys =
    let k = length xs - n in
    let kept : newest n xs ++ ys ≡ drop k (xs ++ ys) = sym (drop_inside k xs ys (omega arith)) in
    let size = length-drop k (xs ++ ys) in
    let total = length-append xs ys in
    ap (newest n) kept
    ∙ drop-drop (length (drop k (xs ++ ys)) - n) k (xs ++ ys)
    ∙ ap (λ m. drop m (xs ++ ys)) (omega arith)

-- The sink after a write that drops the oldest packet where it has to.
abbrev after_write : MediaPacket → QueueSink → QueueSink
after_write packet s = record s {
  queue = newest s.maxsize (s.queue ++ (packet ∷ []));
  dropped = s.dropped + (length s.queue + 1 - s.maxsize);
}

queue_write-after_write :
    (packet : MediaPacket) (s : QueueSink)
    → s.closed ≡ false
    → s.drop_oldest ≡ true
    → 0 < s.maxsize
    → length s.queue ≤ s.maxsize
    → queue_write packet s ≡ (true, after_write packet s)
unfolding queue_write put_nowait
queue_write-after_write packet s opened oldest some_room fits =
    let size = length-append s.queue (packet ∷ []) in
    let bounded : nat_eq s.maxsize 0 ≡ false = ground arith in
    elim (Bool-cases (leb s.maxsize (length s.queue))) [
      | inl full ↦
          let now_room : leb s.maxsize (length (drop 1 s.queue)) ≡ false =
            ground (arith, length-drop 1 s.queue) in
          let k : length (s.queue ++ (packet ∷ [])) - s.maxsize ≡ 1 = ground arith in
          let n : length s.queue + 1 - s.maxsize ≡ 1 = ground arith in
          let front_gone = drop_inside 1 s.queue (packet ∷ []) (ground arith) in
          rw (opened, oldest, bounded, full, bounded, now_room, k, n, front_gone) refl
      | inr room ↦
          let k : length (s.queue ++ (packet ∷ [])) - s.maxsize ≡ 0 = ground arith in
          let n : length s.queue + 1 - s.maxsize ≡ 0 = ground arith in
          let same : s.dropped + 0 ≡ s.dropped = omega arith in
          rw (opened, bounded, room, k, n, same) refl
    ]

-- Every write to an open sink of a positive size that drops the oldest packet is accepted. The
-- queue then holds the newest `maxsize` packets in order, and each packet that is not in it counts as
-- dropped.
pub queue_writes-newest :
    (packets : List MediaPacket) (s : QueueSink)
    → s.closed ≡ false
    → s.drop_oldest ≡ true
    → 0 < s.maxsize
    → length s.queue ≤ s.maxsize
    → ((queue_writes packets s).0 ≡ length packets)
      × ((queue_writes packets s).1.queue ≡ newest s.maxsize (s.queue ++ packets))
      × ((queue_writes packets s).1.dropped
          ≡ s.dropped + (length s.queue + length packets - s.maxsize))
unfolding queue_writes
queue_writes-newest [] s opened oldest some_room fits =
    let none_gone : length s.queue - s.maxsize ≡ 0 = omega arith in
    (refl, rw (append_nil s.queue, none_gone) refl, omega arith)
queue_writes-newest (packet ∷ packets) s opened oldest some_room fits =
    let stored = queue_write-after_write packet s opened oldest some_room fits in
    let next = after_write packet s in
    let size =
      length-drop (length (s.queue ++ (packet ∷ [])) - s.maxsize) (s.queue ++ (packet ∷ [])) in
    let longer = length-append s.queue (packet ∷ []) in
    let (accepted, held, count) =
      queue_writes-newest packets next opened oldest some_room (omega arith) in
    let joined : newest s.maxsize (next.queue ++ packets)
        ≡ newest s.maxsize (s.queue ++ (packet ∷ packets)) =
      newest-append s.maxsize (s.queue ++ (packet ∷ [])) packets
      ∙ ap (newest s.maxsize) (append_assoc s.queue (packet ∷ []) packets) in
    rw stored (omega arith, held ∙ joined, count ∙ omega arith)
