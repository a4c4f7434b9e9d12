-- ===== src/Sources/Multi.antt =====
-- `MultiMediaSource` of discord/ext/native_voice/media.py. Its sources are numbers into a store, so
-- that one source may be listed twice. An `AudioSource` that is no `MediaSource` is one that has
-- audio, no video, and is never finished.
pub mod Mixing
use discord_native_voice.Prelude.{
  ℕ, ◌+◌, ◌≡◌, ◌≢◌, refl, ap, ◌∙◌, Bool, true, false, not, ◌||◌, ◌&&◌, inl, inr, Option, none, some,
  List, [], ◌∷◌, ◌++◌, length, select, elem, dedup, is_empty, nat_eq, Bool-cases, arith,
  if◌then◌else◌,
}
use discord_native_voice.Prelude.Bytes.{Bytes}
use discord_native_voice.Prelude.Result.{Result, ok, err}
use discord_native_voice.Sources.{SourceOps, VideoFrame, AudioError}

-- `TypeError` of an empty list, and the `ClientException` of Opus that would be mixed
pub data MultiError : Type 0 where
  no_sources opus_not_mixable : MultiError

pub record MultiMediaSource : Type 0 where
  pub sources : List ℕ
  pub audio_sources : List ℕ
  pub video_sources : List ℕ
  pub opus_audio_sources : List ℕ
  pub finished_audio : List ℕ
  pub finished_video : List ℕ
  pub cleaned : Bool

abbrev pub Store : Type 0 → Type 0
Store S = ℕ → S

abbrev pub set_at : {S : Type 0} → ℕ → S → Store S → Store S
set_at n s store m = if nat_eq m n then s else store m

-- `any(test(source) for source in sources)`, and with `all`
unfoldable pub some_source : (ℕ → Bool) → List ℕ → Bool
some_source test [] = false
some_source test (n ∷ ns) = test n || some_source test ns

unfoldable pub every_source : (ℕ → Bool) → List ℕ → Bool
every_source test [] = true
every_source test (n ∷ ns) = test n && every_source test ns

module _ {S : Type 0} (ops : SourceOps S) where
  -- `MultiMediaSource.__init__`
  unfoldable pub new_multi : List ℕ → Store S → Result MultiError MultiMediaSource
  unfolding select
  new_multi sources store =
      let audio_sources = select (λ n. ops.has_audio (store n)) sources in
      let opus_sources = select (λ n. ops.is_opus (store n)) audio_sources in
      if is_empty sources
      then err no_sources
      else if not (is_empty opus_sources) && not (nat_eq (length audio_sources) 1)
      then err opus_not_mixable
      else ok (record {
        sources = sources;
        audio_sources = audio_sources;
        video_sources = select (λ n. ops.has_video (store n)) sources;
        opus_audio_sources = opus_sources;
        finished_audio = [];
        finished_video = [];
        cleaned = false;
      })

  abbrev pub audio_source_done : MultiMediaSource → Store S → ℕ → Bool
  audio_source_done m store n = elem n m.finished_audio || ops.is_finished (store n)

  abbrev pub video_source_done : MultiMediaSource → Store S → ℕ → Bool
  video_source_done m store n = elem n m.finished_video || ops.is_finished (store n)

  -- `_active_audio_sources`, `_active_video_sources`
  abbrev pub active_audio_sources : MultiMediaSource → Store S → List ℕ
  active_audio_sources m store = select (λ n. not (audio_source_done m store n)) m.audio_sources

  abbrev pub active_video_sources : MultiMediaSource → Store S → List ℕ
  active_video_sources m store = select (λ n. not (video_source_done m store n)) m.video_sources

  abbrev pub multi_is_opus : MultiMediaSource → Store S → Bool
  multi_is_opus m store = some_source (λ n. not (audio_source_done m store n)) m.opus_audio_sources

  -- The chunks of the sources, and the sources that have ended
  abbrev pub add_chunk : ℕ → Bytes → List Bytes × List ℕ × Store S → List Bytes × List ℕ × Store S
  add_chunk n chunk (chunks, ended, store) = (
    if is_empty chunk then chunks else chunk ∷ chunks,
    if is_empty chunk then n ∷ ended else ended,
    store,
  )

  unfoldable pub read_sources : List ℕ → Store S → List Bytes × List ℕ × Store S
  read_sources [] store = ([], [], store)
  read_sources (n ∷ ns) store =
      let got = ops.read (store n) in add_chunk n got.0 (read_sources ns (set_at n got.1 store))

  abbrev pub mix_chunks :
      (List Bytes → Result AudioError Bytes) → List Bytes → Result AudioError Bytes
  mix_chunks mix [] = ok []
  mix_chunks mix (chunk ∷ chunks) = mix (chunk ∷ chunks)

  abbrev pub read_mixed :
      (List Bytes → Result AudioError Bytes)
      → MultiMediaSource
      → List Bytes × List ℕ × Store S
      → Result AudioError Bytes × MultiMediaSource × Store S
  read_mixed mix m (chunks, ended, store) =
      (mix_chunks mix chunks, record m { finished_audio = ended ++ m.finished_audio }, store)

  -- The first Opus source; `is_opus` has it that there is one
  abbrev pub read_opus :
      List ℕ → MultiMediaSource → Store S → Result AudioError Bytes × MultiMediaSource × Store S
  read_opus [] m store = (ok [], m, store)
  read_opus (n ∷ _) m store =
      let got = ops.read (store n) in
      (
        ok got.0,
        if is_empty got.0 then record m { finished_audio = n ∷ m.finished_audio } else m,
        set_at n got.1 store,
      )

  -- `MultiMediaSource.read`
  unfoldable pub multi_read :
      (List Bytes → Result AudioError Bytes)
      → MultiMediaSource
      → Store S
      → Result AudioError Bytes × MultiMediaSource × Store S
  unfolding some_source read_sources
  multi_read mix m store =
      if is_empty (active_audio_sources m store)
      then (ok [], m, store)
      else if multi_is_opus m store
      then read_opus m.opus_audio_sources m store
      else read_mixed mix m (read_sources (active_audio_sources m store) store)

  -- `MultiMediaSource.read_video`, on the sources that are to be tried
  abbrev pub finish_video : ℕ → S → MultiMediaSource → MultiMediaSource
  finish_video n s m =
      if ops.is_finished s then record m { finished_video = n ∷ m.finished_video } else m

  unfoldable pub try_video :
      List ℕ → MultiMediaSource → Store S → Option VideoFrame × MultiMediaSource × Store S
  try_video [] m store = (none, m, store)
  try_video (n ∷ ns) m store =
      let got = ops.read_video (store n) in
      let next = set_at n got.1 store in
      let rest = try_video ns (finish_video n got.1 m) next in
      if video_source_done m store n
      then try_video ns m store
      else elim got.0 [ none ↦ rest | some frame ↦ (some frame, m, next) ]

  unfoldable pub multi_read_video :
      MultiMediaSource → Store S → Option VideoFrame × MultiMediaSource × Store S
  unfolding try_video
  multi_read_video m store = try_video m.video_sources m store

  -- `MultiMediaSource.is_finished`
  unfoldable pub multi_is_finished : MultiMediaSource → Store S → Bool
  unfolding every_source
  multi_is_finished m store =
      every_source (audio_source_done m store) m.audio_sources
      && every_source (video_source_done m store) m.video_sources

  -- `source.cleanup()` of each
  unfoldable pub cleanup_each : List ℕ → Store S → Store S
  cleanup_each [] store = store
  cleanup_each (n ∷ ns) store = cleanup_each ns (set_at n (ops.cleanup (store n)) store)

  -- `MultiMediaSource.cleanup`: `_unique_sources` takes each source once
  unfoldable pub multi_cleanup : MultiMediaSource → Store S → MultiMediaSource × Store S
  unfolding cleanup_each
  multi_cleanup m store = if m.cleaned then (m, store) else (
    record m {
      cleaned = true;
      finished_audio = m.audio_sources ++ m.finished_audio;
      finished_video = m.video_sources ++ m.finished_video;
    },
    cleanup_each (dedup m.sources) store,
  )
