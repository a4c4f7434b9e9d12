-- ===== src/Sources/Tests.antt =====
-- The sources at concrete streams and stores.
use discord_native_voice.Prelude.{
  ℕ, ◌<◌, ◌≡◌, refl, Bool, true, false, none, some, List, [], ◌∷◌, length, take, drop,
  take-append-drop, length-take, select, elem, is_empty, nat_eq, arith, inl, if◌then◌else◌,
}
use discord_native_voice.Prelude.Bytes.{Bytes}
use discord_native_voice.Prelude.Result.{Result, ok, err}
use discord_native_voice.Rtp.{h264, vp8}
use discord_native_voice.Sources.Probe.{
  VideoProbeInfo, native_video_bitrate, resolve_video_probe_config, no_dimensions,
}
use discord_native_voice.Frames.{ByteStream}
use discord_native_voice.Frames.Source.Slices.{concat}
use discord_native_voice.Sources.{SourceOps, pcm_read, AudioError, not_whole_frame}
use discord_native_voice.Sources.Pcm.{read_pcm, Padded, read_pcm-Padded}
use discord_native_voice.Sources.Multi.{
  MultiMediaSource, Store, new_multi, multi_read, opus_not_mixable,
}
use discord_native_voice.Sources.Multi.Mixing.{multi_read_done}

read_ends-buffered : (n : ℕ) (bytes : Bytes) → 0 < n → take n bytes ≡ [] → bytes ≡ []
read_ends-buffered n [] h e = refl
read_ends-buffered n (b ∷ bytes) h e =
    let m = length-take n (b ∷ bytes) in
    let size : length (take n (b ∷ bytes)) ≡ 0 = cc in absurd (omega arith)

-- A stream in memory, which gives as many bytes as it is asked for.
instance abbrev buffered : ByteStream Bytes
buffered = record {
  read = λ n bytes. (take n bytes, drop n bytes);
  left = λ bytes. bytes;
  read_splits = λ n bytes. take-append-drop n bytes;
  read_fits = λ n bytes. let m = length-take n bytes in omega arith;
  read_ends = λ n bytes. read_ends-buffered n bytes;
}

abbrev five_bytes : Bytes
five_bytes = 1 ∷ 2 ∷ 3 ∷ 4 ∷ 5 ∷ []

reads_two_frames :
    read_pcm 4 6 (record { stream = five_bytes; closed = false })
    ≡ (1 ∷ 2 ∷ 3 ∷ 4 ∷ []) ∷ (5 ∷ 0 ∷ 0 ∷ 0 ∷ []) ∷ []
unfolding read_pcm pcm_read
reads_two_frames = refl

read_pcm-Padded_example :
    Padded 4 five_bytes (read_pcm 4 6 (record { stream = five_bytes; closed = false }))
read_pcm-Padded_example =
    read_pcm-Padded 4 6 five_bytes (omega arith) (λ n bytes. length-take n bytes) (omega arith)

-- A source of chunks of PCM, or of Opus.
abbrev Chunks : Type 0
Chunks = Bool × List Bytes

abbrev next_chunk_of : Bool → List Bytes → Bytes × Chunks
next_chunk_of opus [] = ([], (opus, []))
next_chunk_of opus (chunk ∷ chunks) = (chunk, (opus, chunks))

abbrev chunk_ops : SourceOps Chunks
chunk_ops = record {
  has_audio = λ s. true;
  has_video = λ s. false;
  is_opus = λ s. s.0;
  is_finished = λ s. is_empty s.1;
  read = λ s. next_chunk_of s.0 s.1;
  read_video = λ s. (none, s);
  cleanup = λ s. (s.0, []);
}

abbrev two_sources : Store Chunks
two_sources n = if nat_eq n 0 then (false, []) else (false, (n ∷ []) ∷ [])

abbrev opus_store : Store Chunks
opus_store n = (nat_eq n 1, (n ∷ []) ∷ [])

-- A mixture that only joins its chunks, and refuses an empty one.
abbrev joined : List Bytes → Result AudioError Bytes
joined [] = ok []
joined ([] ∷ chunks) = err not_whole_frame
joined ((b ∷ chunk) ∷ chunks) = ok (concat ((b ∷ chunk) ∷ chunks))

abbrev mixture : MultiMediaSource
mixture = record {
  sources = 0 ∷ 1 ∷ 2 ∷ [];
  audio_sources = 0 ∷ 1 ∷ 2 ∷ [];
  video_sources = [];
  opus_audio_sources = [];
  finished_audio = [];
  finished_video = [];
  cleaned = false;
}

mixes_two : (multi_read chunk_ops joined mixture two_sources).0 ≡ ok (1 ∷ 2 ∷ [])
unfolding multi_read elem select
mixes_two = refl

refuses_opus : new_multi chunk_ops (0 ∷ 1 ∷ []) opus_store ≡ err opus_not_mixable
unfolding new_multi
refuses_opus = refl

multi_read_done_example : (multi_read chunk_ops joined mixture two_sources).2 0 ≡ (false, [])
unfolding elem
multi_read_done_example = multi_read_done chunk_ops joined mixture two_sources 0 (inl refl) refl

abbrev probed : VideoProbeInfo
probed = record {
  width = some 1280;
  height = some 720;
  fps = some 0;
  bitrate = none;
  codec = some vp8;
}

-- A rate of 0 counts as unknown.
resolved :
    resolve_video_probe_config probed (some h264) none none none none
    ≡ ok (record { codec = h264; width = 1280; height = 720; fps = 30; bitrate = 4_000_000 })
unfolding resolve_video_probe_config native_video_bitrate
resolved = refl

unresolved : resolve_video_probe_config probed none (some 0) none none none ≡ err no_dimensions
unfolding resolve_video_probe_config
unresolved = refl
