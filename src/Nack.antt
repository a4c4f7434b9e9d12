-- ===== src/Nack.antt =====
-- The receive side's bookkeeping of lost video packets in discord/ext/native_voice/client.py:
-- `_video_receive_last_sequences`, `_video_receive_pending_nacks` and the methods on them.
--
-- The table of an SSRC is one object that several methods change in place; here each method reads it
-- from the state and writes it back before it ends. `time.perf_counter()` is the argument `now`, in
-- microseconds, and `now - sent_at >= interval` is written `sent_at + interval <= now`. The packets
-- that the methods send are appended to `sent`; the crypto and the socket are taken not to raise.
pub mod Table
pub mod Valid
pub mod Sending
pub mod Retry
pub mod Track
mod Tests
use discord_native_voice.Prelude.{
  ℕ, zero, suc, ◌+◌, ◌-◌, ◌%◌, Bool, true, false, not, ◌||◌, ◌&&◌, String, Option, none, some, List,
  [], ◌∷◌, ◌++◌, map, length, take, drop, select, elem, is_empty, dedup, ltb, leb, nat_eq, ℕ-eq,
  if◌then◌else◌,
}
use discord_native_voice.Prelude.Dict.{Dict, get, put, erase, contains}
use discord_native_voice.Counter.{Stats, record_stat, record_max_stat}
use discord_native_voice.Rtp.{
  rtcp_nack_max_sequences, video_nack_max_outstanding, video_nack_max_retries,
  video_nack_retry_interval,
}
use discord_native_voice.Rtp.Sequence.{sequence_delta}
use discord_native_voice.Feedback.{Packet, send_rtcp_nack, send_video_pli}

pub record PendingVideoNack : Type 0 where
  pub sent_at : ℕ
  pub retries : ℕ

abbrev pub Table : Type 0
Table = Dict ℕ PendingVideoNack

pub record Tracker : Type 0 where
  pub rtx_enabled : Bool
  pub ssrc : ℕ
  pub last_sequences : Dict ℕ ℕ
  pub pending_nacks : Dict ℕ Table
  pub stats : Stats
  pub sent : List Packet

abbrev pub new_nack : PendingVideoNack
new_nack = record { sent_at = 0; retries = 0 }

abbrev pub tally : String → ℕ → Tracker → Tracker
tally key amount t = record t { stats = record_stat key amount t.stats }

abbrev pub emit : List Packet → Tracker → Tracker
emit packets t = record t { sent = t.sent ++ packets }

-- `self._video_receive_pending_nacks[ssrc]` becomes `table`
abbrev pub keep : ℕ → Table → Tracker → Tracker
keep ssrc table t = record t { pending_nacks = put ssrc table t.pending_nacks }

abbrev pub forget : ℕ → Tracker → Tracker
forget ssrc t = record t { pending_nacks = erase ssrc t.pending_nacks }

-- `if not pending:` the table of the SSRC is dropped.
abbrev pub keep_or_forget : ℕ → Table → Tracker → Tracker
keep_or_forget ssrc table t = if is_empty table then forget ssrc t else keep ssrc table t

abbrev pub table_or_empty : Option Table → Table
table_or_empty none = []
table_or_empty (some table) = table

-- `for sequence in added: pending[sequence] = _PendingVideoNack()`
unfoldable pub add_all : List ℕ → Table → Table
add_all [] table = table
add_all (sequence ∷ rest) table = add_all rest (put sequence new_nack table)

-- `_add_pending_video_nacks`, after its sequences were made unique and `pending` was looked up
unfoldable pub add_unique : ℕ → List ℕ → Table → Tracker → List ℕ × Tracker
unfolding add_all
add_unique media_ssrc [] pending t = ([], t)
add_unique media_ssrc (u ∷ us) pending t =
    let added = select (λ s. not (contains s pending)) (u ∷ us) in
    if is_empty added
    then ([], keep media_ssrc pending t)
    else if ltb video_nack_max_outstanding (length pending + length added)
    then (
      [],
      emit (send_video_pli t.ssrc media_ssrc)
          (forget media_ssrc (tally "video_nack_overflows" 1 t)),
    )
    else (added, keep media_ssrc (add_all added pending) t)

unfoldable pub add_pending_video_nacks : ℕ → List ℕ → Tracker → List ℕ × Tracker
unfolding add_unique
add_pending_video_nacks media_ssrc sequences t =
    add_unique media_ssrc (dedup (map (λ s. s % 65536) sequences))
      (table_or_empty (get media_ssrc t.pending_nacks)) t

-- `nack.sent_at = now; nack.retries += 1`, for the entry of a sequence, if it has one
unfoldable pub touch : ℕ → ℕ → Table → Table
touch now sequence table = elim (get sequence table) [
  | none ↦ table
  | some nack ↦ put sequence (record { sent_at = now; retries = nack.retries + 1 }) table
]

unfoldable pub touch_all : ℕ → List ℕ → Table → Table
unfolding touch
touch_all now [] table = table
touch_all now (sequence ∷ rest) table = touch_all now rest (touch now sequence table)

-- The loop of `_send_pending_video_nacks` that fills `sendable`.
unfoldable pub sendable : Table → List ℕ → List ℕ → List ℕ
sendable pending seen [] = []
sendable pending seen (sequence ∷ rest) =
    let normalized = sequence % 65536 in
    let skip = elem normalized seen || not (contains normalized pending) in
    let more = sendable pending (if skip then seen else normalized ∷ seen) rest in
    if skip then more else normalized ∷ more

-- The loop over chunks. Each round takes at least one sequence, so as many rounds as there are
-- sequences are enough.
unfoldable pub send_chunks : ℕ → ℕ → ℕ → List ℕ → Table → Tracker → Table × Tracker
unfolding touch_all
send_chunks zero now media_ssrc rest pending t = (pending, t)
send_chunks (suc rounds) now media_ssrc [] pending t = (pending, t)
send_chunks (suc rounds) now media_ssrc (s ∷ rest) pending t =
    let chunk = take rtcp_nack_max_sequences (s ∷ rest) in
    let counted =
      tally "video_nack_sequences_sent" (length chunk) (tally "video_nack_packets_sent" 1 t) in
    send_chunks rounds now media_ssrc (drop rtcp_nack_max_sequences (s ∷ rest))
      (touch_all now chunk pending) (emit (send_rtcp_nack t.ssrc media_ssrc chunk) counted)

unfoldable pub send_pending_video_nacks : ℕ → List ℕ → ℕ → Tracker → Tracker
unfolding send_chunks sendable
send_pending_video_nacks media_ssrc sequences now t = elim (get media_ssrc t.pending_nacks) [
  | none ↦ t
  | some pending ↦
      let ready = sendable pending [] sequences in
      let (pending', t') = send_chunks (length ready) now media_ssrc ready pending t in
      keep media_ssrc pending' t'
]

-- The keys of the entries that pass a test, in order.
unfoldable pub keys_where : (PendingVideoNack → Bool) → Table → List ℕ
keys_where test [] = []
keys_where test ((sequence, nack) ∷ table) =
    let rest = keys_where test table in if test nack then sequence ∷ rest else rest

abbrev pub is_expired : PendingVideoNack → Bool
is_expired nack = leb video_nack_max_retries nack.retries

abbrev pub is_due : ℕ → PendingVideoNack → Bool
is_due now nack = not (is_expired nack) && leb (nack.sent_at + video_nack_retry_interval) now

unfoldable pub erase_all : List ℕ → Table → Table
erase_all [] table = table
erase_all (sequence ∷ rest) table = erase_all rest (erase sequence table)

-- The end of `_retry_pending_video_nacks`: `if not pending: pop`
abbrev pub drop_if_empty : ℕ → Tracker → Tracker
drop_if_empty media_ssrc t =
    if is_empty (table_or_empty (get media_ssrc t.pending_nacks)) then forget media_ssrc t else t

-- `_retry_pending_video_nacks`, once `pending` was looked up
unfoldable pub retry_table : ℕ → Table → ℕ → Tracker → Tracker
unfolding send_pending_video_nacks keys_where erase_all
retry_table media_ssrc pending now t =
    let expired = keys_where is_expired pending in
    let due = keys_where (is_due now) pending in
    let t1 = keep media_ssrc (erase_all expired pending) t in
    let t2 =
      if is_empty expired then t1 else tally "video_nack_sequences_expired" (length expired) t1 in
    let t3 = if is_empty due then t2 else send_pending_video_nacks media_ssrc due now t2 in
    drop_if_empty media_ssrc t3

unfoldable pub retry_pending_video_nacks : ℕ → ℕ → Tracker → Tracker
unfolding retry_table
retry_pending_video_nacks media_ssrc now t = elim (get media_ssrc t.pending_nacks) [
  | none ↦ t
  | some pending ↦ retry_table media_ssrc pending now t
]

-- `[((previous + offset) & 0xFFFF) for offset in range(1, missing_count + 1)]`, from `offset` on
unfoldable pub missing_from : ℕ → ℕ → ℕ → List ℕ
missing_from previous offset zero = []
missing_from previous offset (suc count) =
    (previous + offset) % 65536 ∷ missing_from previous (offset + 1) count

abbrev pub retry_if_enabled : ℕ → ℕ → Tracker → Tracker
retry_if_enabled ssrc now t = if t.rtx_enabled then retry_pending_video_nacks ssrc now t else t

-- The arrival of a packet takes its sequence off the table of its SSRC.
unfoldable pub take_off : ℕ → ℕ → Tracker → Tracker
take_off ssrc sequence t = elim (get ssrc t.pending_nacks) [
  | none ↦ t
  | some pending ↦ keep_or_forget ssrc (erase sequence pending) t
]

-- A gap: the numbers between `previous` and `sequence` are asked for.
unfoldable pub request_missing : ℕ → List ℕ → ℕ → Tracker → Tracker
unfolding add_pending_video_nacks send_pending_video_nacks
request_missing ssrc missing now t =
    let (added, t1) = add_pending_video_nacks ssrc missing t in
    if is_empty added
    then t1
    else send_pending_video_nacks ssrc added now
        (tally "video_nack_sequences_added" (length added) t1)

-- `_track_video_receive_sequence`, after `delta` was found to be ahead
unfoldable pub advance : ℕ → ℕ → ℕ → ℕ → Tracker → Tracker
unfolding request_missing missing_from retry_pending_video_nacks
advance ssrc sequence previous now t =
    let delta = sequence_delta sequence previous in
    let t1 = if ltb sequence previous then tally "video_sequence_wraps" 1 t else t in
    let t2 =
      if ltb 1 delta
      then (let counted = tally "video_sequence_gaps" 1 t1 in
          record counted { stats = record_max_stat "video_sequence_gap_max" delta counted.stats })
      else t1 in
    let t3 = record t2 { last_sequences = put ssrc sequence t2.last_sequences } in
    if not t3.rtx_enabled
    then t3
    else if nat_eq delta 1
    then retry_pending_video_nacks ssrc now t3
    else retry_pending_video_nacks ssrc now
        (request_missing ssrc (missing_from previous 1 (delta - 1)) now t3)

-- `_track_video_receive_sequence` of a packet that is not repaired, by the last number of its SSRC
unfoldable pub track_from : ℕ → ℕ → Option ℕ → ℕ → Tracker → Tracker
unfolding advance retry_pending_video_nacks
track_from ssrc sequence none now t =
    retry_if_enabled ssrc now (record t { last_sequences = put ssrc sequence t.last_sequences })
track_from ssrc sequence (some previous) now t =
    let delta = sequence_delta sequence previous in
    if nat_eq delta 0 || ltb 0x7FFF delta
    then retry_if_enabled ssrc now (
        if nat_eq delta 0
        then tally "video_sequence_duplicates" 1 t
        else tally "video_sequence_old_or_reordered" 1 t)
    else advance ssrc sequence previous now t

unfoldable pub track_video_receive_sequence : ℕ → ℕ → Bool → ℕ → Tracker → Tracker
unfolding take_off track_from retry_pending_video_nacks
track_video_receive_sequence ssrc sequence repaired now t =
    let seq = sequence % 65536 in
    let t1 = take_off ssrc seq t in
    if repaired
    then retry_if_enabled ssrc now (tally "video_sequence_repaired_packets" 1 t1)
    else track_from ssrc seq (get ssrc t1.last_sequences) now t1
