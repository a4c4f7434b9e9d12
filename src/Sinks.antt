-- ===== src/Sinks.antt =====
-- The sinks of discord/ext/native_voice/media.py: what a sink offers, and the sinks that pass packets
-- on. A sink is its state and the operations on it; a call of `write` is given the clock. The values
-- that `write` returns, the parents and the destructor are not modelled.
pub mod Pass
pub mod Queue
pub mod Closing
pub mod PerUser
pub mod Opus
pub mod Silence
pub mod Wave
mod Tests
use discord_native_voice.Prelude.{
  ℕ, ◌+◌, ◌-◌, ◌<◌, ◌≡◌, refl, Bool, true, false, not, ◌||◌, ◌&&◌, Option, none, some, List, [],
  ◌∷◌, ltb, nat_eq, elem, if◌then◌else◌,
}
use discord_native_voice.Rtp.{MediaType, audio, video, Codec, opus, pcm, av1, h265, h264, vp8, vp9}
use discord_native_voice.Media.{MediaPacket}

-- `MediaSink`
pub record SinkOps (S : Type 0) : Type 0 where
  pub closed : S → Bool
  pub wants_media : MediaType → Codec → S → Bool
  pub write : ℕ → MediaPacket → S → S
  pub cleanup : S → S

-- A sink that is cleaned up is closed and takes no part any more.
pub record IsSink {S : Type 0} (ops : SinkOps S) : Type 0 where
  pub closed_cleanup : (s : S) → ops.closed (ops.cleanup s) ≡ true
  pub cleanup_cleanup : (s : S) → ops.cleanup (ops.cleanup s) ≡ ops.cleanup s
  pub wants_cleanup :
      (media_type : MediaType) (codec : Codec) (s : S)
      → ops.wants_media media_type codec (ops.cleanup s) ≡ false
  pub write_cleanup :
      (now : ℕ) (packet : MediaPacket) (s : S)
      → ops.write now packet (ops.cleanup s) ≡ ops.cleanup s
  pub closed_write :
      (now : ℕ) (packet : MediaPacket) (s : S) → ops.closed (ops.write now packet s) ≡ ops.closed s

abbrev pub media_type_number : MediaType → ℕ
media_type_number audio = 0
media_type_number video = 1

abbrev pub same_media_type : MediaType → MediaType → Bool
same_media_type a b = nat_eq (media_type_number a) (media_type_number b)

abbrev pub codec_number : Codec → ℕ
codec_number opus = 0
codec_number pcm = 1
codec_number av1 = 2
codec_number h265 = 3
codec_number h264 = 4
codec_number vp8 = 5
codec_number vp9 = 6

abbrev pub same_codec : Codec → Codec → Bool
same_codec a b = nat_eq (codec_number a) (codec_number b)

unfoldable pub some_media_type : MediaType → List MediaType → Bool
some_media_type media_type [] = false
some_media_type media_type (m ∷ media_types) =
    same_media_type m media_type || some_media_type media_type media_types

unfoldable pub some_codec : Codec → List Codec → Bool
some_codec codec [] = false
some_codec codec (c ∷ codecs) = same_codec c codec || some_codec codec codecs

-- `media_types is not None and media_type not in media_types`, the other way round
abbrev pub accepts_type : MediaType → Option (List MediaType) → Bool
accepts_type media_type none = true
accepts_type media_type (some media_types) = some_media_type media_type media_types

abbrev pub accepts_codec : Codec → Option (List Codec) → Bool
accepts_codec codec none = true
accepts_codec codec (some codecs) = some_codec codec codecs

-- `_FilteredMediaSink._matches`
unfoldable pub matches : MediaType → Codec → Option (List MediaType) → Option (List Codec) → Bool
unfolding some_media_type some_codec
matches media_type codec media_types codecs =
    if not (accepts_type media_type media_types) then false else accepts_codec codec codecs

-- `_FilteredMediaSink`: the filter of a sink that has one
pub record Filter : Type 0 where
  pub media_types : Option (List MediaType)
  pub codecs : Option (List Codec)

unfoldable pub filter_wants : Filter → Bool → MediaType → Codec → Bool
unfolding matches
filter_wants filter closed media_type codec =
    if closed then false else matches media_type codec filter.media_types filter.codecs

abbrev pub accepts_user : Option ℕ → Option (List ℕ) → Bool
accepts_user user none = true
accepts_user none (some users) = false
accepts_user (some user) (some users) = elem user users

-- `MediaFilter._predicate`
unfoldable pub media_predicate : Filter → Option (List ℕ) → MediaPacket → Bool
unfolding matches
media_predicate filter users packet =
    if not (matches packet.media_type packet.codec filter.media_types filter.codecs)
    then false
    else accepts_user packet.user_id users

-- `UserFilter._predicate`
abbrev pub user_predicate : ℕ → MediaPacket → Bool
user_predicate user packet = accepts_user packet.user_id (some (user ∷ []))

abbrev pub start_or : ℕ → Option ℕ → ℕ
start_or now none = now
start_or now (some start) = start

-- `TimedFilter._predicate`, at two readings of the clock: whether the packet passes, and the time of
-- the first packet
unfoldable pub timed_predicate : ℕ → ℕ → ℕ → Option ℕ → Bool × Option ℕ
timed_predicate duration first now start_time =
    (ltb (now - start_or first start_time) duration, some (start_or first start_time))
