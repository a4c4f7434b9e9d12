-- ===== src/Sinks/Pass.antt =====
-- The sinks that pass packets on to their children: filters, `MultiSink`, `BasicSink`
-- (discord/ext/native_voice/media.py).
use discord_native_voice.Prelude.{
  ℕ, Bool, true, false, not, List, [], ◌∷◌, ◌++◌, map, if◌then◌else◌,
}
use discord_native_voice.Rtp.{MediaType, Codec}
use discord_native_voice.Media.{MediaPacket}
use discord_native_voice.Sinks.{SinkOps, Filter, filter_wants, matches}

-- `BasicSink`: the packets that its callback has been given
pub record BasicSink : Type 0 where
  pub closed : Bool
  pub filter : Filter
  pub given : List MediaPacket

unfoldable pub basic_write : ℕ → MediaPacket → BasicSink → BasicSink
basic_write now packet s = if s.closed then s else record s { given = s.given ++ (packet ∷ []) }

unfoldable pub basic_ops : SinkOps BasicSink
unfolding basic_write filter_wants
basic_ops = record {
  closed = λ s. s.closed;
  wants_media = λ media_type codec s. filter_wants s.filter s.closed media_type codec;
  write = basic_write;
  cleanup = λ s. if s.closed then s else record s { closed = true };
}

-- `ConditionalFilter` and its subclasses, with the state of the predicate
pub record FilterSink (P S : Type 0) : Type 0 where
  pub closed : Bool
  pub state : P
  pub destination : S

-- `MultiSink`
pub record MultiSink (S : Type 0) : Type 0 where
  pub closed : Bool
  pub children : List S

module _ {P S : Type 0} (child : SinkOps S) where
  abbrev pub pass_on : ℕ → MediaPacket → FilterSink P S → Bool × P → FilterSink P S
  pass_on now packet s (pass, state) = record s {
    state = state;
    destination = if pass then child.write now packet s.destination else s.destination;
  }

  -- `ConditionalFilter.write`
  unfoldable pub filter_write :
      (ℕ → MediaPacket → P → Bool × P) → ℕ → MediaPacket → FilterSink P S → FilterSink P S
  filter_write predicate now packet s =
      if s.closed then s else pass_on now packet s (predicate now packet s.state)

  -- `ConditionalFilter.wants_media`, and that of `MediaFilter`, which has a filter
  unfoldable pub destination_wants : MediaType → Codec → FilterSink P S → Bool
  destination_wants media_type codec s =
      if s.closed then false else child.wants_media media_type codec s.destination

  unfoldable pub media_filter_wants : Filter → MediaType → Codec → FilterSink P S → Bool
  unfolding destination_wants matches
  media_filter_wants filter media_type codec s =
      if not (destination_wants media_type codec s)
      then false
      else matches media_type codec filter.media_types filter.codecs

  -- `MediaSink.cleanup`, with one child
  unfoldable pub destination_cleanup : FilterSink P S → FilterSink P S
  destination_cleanup s =
      if s.closed then s else record s { closed = true; destination = child.cleanup s.destination }

  unfoldable pub filter_ops : (ℕ → MediaPacket → P → Bool × P) → Filter → SinkOps (FilterSink P S)
  unfolding filter_write media_filter_wants destination_cleanup
  filter_ops predicate filter = record {
    closed = λ s. s.closed;
    wants_media = media_filter_wants filter;
    write = filter_write predicate;
    cleanup = destination_cleanup;
  }

module _ {S : Type 0} (child : SinkOps S) where
  unfoldable pub write_each : ℕ → MediaPacket → List S → List S
  write_each now packet [] = []
  write_each now packet (s ∷ children) =
      (if child.wants_media packet.media_type packet.codec s then child.write now packet s else s)
      ∷ write_each now packet children

  -- `MultiSink.write`
  unfoldable pub multi_write : ℕ → MediaPacket → MultiSink S → MultiSink S
  unfolding write_each
  multi_write now packet s =
      if s.closed then s else record s { children = write_each now packet s.children }

  -- `MediaSink.cleanup`, with several children
  unfoldable pub multi_cleanup : MultiSink S → MultiSink S
  multi_cleanup s =
      if s.closed then s else record s { closed = true; children = map child.cleanup s.children }

  unfoldable pub multi_ops : SinkOps (MultiSink S)
  unfolding multi_write multi_cleanup
  multi_ops = record {
    closed = λ s. s.closed;
    wants_media = λ media_type codec s. not s.closed;
    write = multi_write;
    cleanup = multi_cleanup;
  }
