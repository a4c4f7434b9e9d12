-- ===== src/Sinks/Closing.antt =====
-- A sink that is cleaned up takes no part any more: the sinks of Sinks/Pass.
use discord_native_voice.Prelude.{ℕ, refl, Bool, inl, inr, Bool-cases}
use discord_native_voice.Media.{MediaPacket}
use discord_native_voice.Sinks.{SinkOps, IsSink, Filter, filter_wants}
use discord_native_voice.Sinks.Pass.{
  basic_write, basic_ops, filter_write, destination_wants, media_filter_wants, destination_cleanup,
  filter_ops, multi_write, multi_cleanup, multi_ops,
}

-- A callback's sink that is cleaned up is closed for good: it wants nothing, its callback is given
-- nothing more, and only a cleanup closes it.
pub basic_ops-IsSink : IsSink basic_ops
unfolding basic_ops basic_write filter_wants
basic_ops-IsSink = record {
  closed_cleanup = λ s. elim (Bool-cases s.closed) [ inl e ↦ rw e refl | inr e ↦ rw e refl ];
  cleanup_cleanup = λ s. elim (Bool-cases s.closed) [ inl e ↦ rw e refl | inr e ↦ rw e refl ];
  wants_cleanup = λ m c s. elim (Bool-cases s.closed) [ inl e ↦ rw e refl | inr e ↦ rw e refl ];
  write_cleanup = λ n p s. elim (Bool-cases s.closed) [ inl e ↦ rw e refl | inr e ↦ rw e refl ];
  closed_write = λ n p s. elim (Bool-cases s.closed) [ inl e ↦ rw e refl | inr e ↦ rw e refl ];
}

module _ {P S : Type 0} (child : SinkOps S) where
  -- A filter that is cleaned up is closed for good, whatever its predicate.
  pub filter_ops-IsSink :
      (predicate : ℕ → MediaPacket → P → Bool × P) (filter : Filter)
      → IsSink (filter_ops child predicate filter)
  unfolding filter_ops filter_write media_filter_wants destination_wants destination_cleanup
  filter_ops-IsSink predicate filter = record {
    closed_cleanup = λ s. elim (Bool-cases s.closed) [ inl e ↦ rw e refl | inr e ↦ rw e refl ];
    cleanup_cleanup = λ s. elim (Bool-cases s.closed) [ inl e ↦ rw e refl | inr e ↦ rw e refl ];
    wants_cleanup = λ m c s. elim (Bool-cases s.closed) [ inl e ↦ rw e refl | inr e ↦ rw e refl ];
    write_cleanup = λ n p s. elim (Bool-cases s.closed) [ inl e ↦ rw e refl | inr e ↦ rw e refl ];
    closed_write = λ n p s. elim (Bool-cases s.closed) [ inl e ↦ rw e refl | inr e ↦ rw e refl ];
  }

module _ {S : Type 0} (child : SinkOps S) where
  -- A fan-out that is cleaned up is closed for good, whatever its children do: it wants nothing and
  -- writes nothing more, a second cleanup changes nothing, and only a cleanup closes it.
  pub multi_ops-IsSink : IsSink (multi_ops child)
  unfolding multi_ops multi_write multi_cleanup
  multi_ops-IsSink = record {
    closed_cleanup = λ s. elim (Bool-cases s.closed) [ inl e ↦ rw e refl | inr e ↦ rw e refl ];
    cleanup_cleanup = λ s. elim (Bool-cases s.closed) [ inl e ↦ rw e refl | inr e ↦ rw e refl ];
    wants_cleanup = λ m c s. elim (Bool-cases s.closed) [ inl e ↦ rw e refl | inr e ↦ rw e refl ];
    write_cleanup = λ n p s. elim (Bool-cases s.closed) [ inl e ↦ rw e refl | inr e ↦ rw e refl ];
    closed_write = λ n p s. elim (Bool-cases s.closed) [ inl e ↦ rw e refl | inr e ↦ rw e refl ];
  }
