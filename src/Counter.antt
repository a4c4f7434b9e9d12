-- ===== src/Counter.antt =====
-- The debug counters of discord/ext/native_voice/client.py: `_video_receive_stats`, a `Counter`
-- keyed by name. With `enable_debug_stats` off the recording methods are replaced by the `_ignore`
-- ones, which do nothing.
use text.Mathlib.Text.{◌==◌ as string_same}
use text.Mathlib.TextEquality.{eq_iff}
use discord_native_voice.Prelude.{ℕ, ◌+◌, String, Bool, Option, none, some, max, Eq, if◌then◌else◌}
use discord_native_voice.Prelude.Dict.{Dict, get, put}

instance abbrev pub String-eq : Eq String
String-eq = record { same = string_same; same_iff = eq_iff }

pub record Stats : Type 0 where
  pub enabled : Bool
  pub counts : Dict String ℕ

or_zero : Option ℕ → ℕ
or_zero none = 0
or_zero (some n) = n

-- `_record_video_receive_stat`, or `_ignore_video_receive_stat`
unfoldable pub record_stat : String → ℕ → Stats → Stats
unfolding or_zero
record_stat key amount s =
    if s.enabled
    then record s { counts = put key (or_zero (get key s.counts) + amount) s.counts }
    else s

-- `_record_video_receive_max_stat`, or `_ignore_video_receive_max_stat`
unfoldable pub record_max_stat : String → ℕ → Stats → Stats
unfolding or_zero
record_max_stat key value s =
    if s.enabled
    then record s { counts = put key (max (or_zero (get key s.counts)) value) s.counts }
    else s
