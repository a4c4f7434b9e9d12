-- ===== src/Sinks/PerUser.antt =====
-- `PerUserSink` of discord/ext/native_voice/media.py. The factory of children is a parameter.
pub mod Routing
use discord_native_voice.Prelude.{
  ℕ, ◌≡◌, ◌↔◌, ◌≢◌, refl, sym, ap, ◌∙◌, Bool, true, false, not, ◌||◌, ◌&&◌, inl, inr, Option, none,
  some, List, [], ◌∷◌, map, nat_eq, nat_eq_iff, Eq, ℕ-eq, ◌==◌, arith, Bool-cases, if◌then◌else◌,
}
use discord_native_voice.Prelude.Dict.{Dict, get, put, erase, contains}
use discord_native_voice.Rtp.{MediaType, Codec}
use discord_native_voice.Media.{MediaPacket}
use discord_native_voice.Sinks.{SinkOps, IsSink}

-- `('user', n)` and `('ssrc', n)`
pub data ChildKey : Type 0 where
  user ssrc : ℕ → ChildKey

abbrev pub same_key : ChildKey → ChildKey → Bool
same_key (user a) (user b) = nat_eq a b
same_key (ssrc a) (ssrc b) = nat_eq a b
same_key _ _ = false

pub same_key_iff : (a b : ChildKey) → (same_key a b ≡ true) ↔ (a ≡ b)
same_key_iff (user a) (user b) = (λ h. ap user ((nat_eq_iff a b).0 h), λ h. (nat_eq_iff a b).1 cc)
same_key_iff (ssrc a) (ssrc b) = (λ h. ap ssrc ((nat_eq_iff a b).0 h), λ h. (nat_eq_iff a b).1 cc)
same_key_iff (user a) (ssrc b) = (λ h. cc, λ h. cc)
same_key_iff (ssrc a) (user b) = (λ h. cc, λ h. cc)

instance abbrev pub ChildKey-eq : Eq ChildKey
ChildKey-eq = record { same = same_key; same_iff = same_key_iff }

abbrev pub key_number : ChildKey → ℕ
key_number (user n) = n
key_number (ssrc n) = n

pub record PerUserSink (S : Type 0) : Type 0 where
  pub closed : Bool
  pub fallback_to_ssrc : Bool
  pub children_by_key : Dict ChildKey S
  pub user_ids_by_ssrc : Dict ℕ ℕ

abbrev pub known_key : Bool → ℕ → Option ℕ → Option ChildKey
known_key fallback n (some user_id) = some (user user_id)
known_key fallback n none = if fallback then some (ssrc n) else none

module _ {S : Type 0} where
  -- The child of an SSRC becomes the child of its user, if the user has none
  abbrev pub promoted : ℕ → Option S → Option S → Dict ChildKey S → ℕ → Dict ChildKey S
  promoted user_id (some moved) none children n = put (user user_id) moved (erase (ssrc n) children)
  promoted user_id _ _ children n = children

  abbrev pub key_of_user : ℕ → Option ℕ → PerUserSink S → Option ChildKey × PerUserSink S
  key_of_user n (some user_id) s = (
    some (user user_id),
    record s {
      user_ids_by_ssrc = put n user_id s.user_ids_by_ssrc;
      children_by_key =
          promoted user_id (get (ssrc n) s.children_by_key) (get (user user_id) s.children_by_key)
            s.children_by_key n;
    },
  )
  key_of_user n none s = (known_key s.fallback_to_ssrc n (get n s.user_ids_by_ssrc), s)

  -- `_packet_key`
  abbrev pub packet_key : MediaPacket → PerUserSink S → Option ChildKey × PerUserSink S
  packet_key packet s = key_of_user packet.ssrc packet.user_id s

  -- `_get_child`: the child of a key, a new one if there is none
  abbrev pub child_or : (ℕ → S) → ChildKey → Option S → S
  child_or factory key (some found) = found
  child_or factory key none = factory (key_number key)

module _ {S : Type 0} (child : SinkOps S) where
  -- A child that does not want the packet is kept as it is.
  abbrev pub offered : ℕ → MediaPacket → S → S
  offered now packet found =
      if child.wants_media packet.media_type packet.codec found
      then child.write now packet found
      else found

  abbrev pub write_to : (ℕ → S) → ℕ → MediaPacket → Option ChildKey × PerUserSink S → PerUserSink S
  write_to factory now packet (none, s) = s
  write_to factory now packet (some key, s) =
      let found = child_or factory key (get key s.children_by_key) in
      record s { children_by_key = put key (offered now packet found) s.children_by_key }

  -- `PerUserSink.write`
  unfoldable pub per_user_write : (ℕ → S) → ℕ → MediaPacket → PerUserSink S → PerUserSink S
  per_user_write factory now packet s =
      if s.closed then s else write_to factory now packet (packet_key packet s)

  -- `PerUserSink.cleanup`: the sink it leaves, and the children that it has closed
  unfoldable pub per_user_cleanup : PerUserSink S → PerUserSink S × List S
  per_user_cleanup s = if s.closed then (s, []) else (
    record s { closed = true; children_by_key = []; user_ids_by_ssrc = [] },
    map (λ entry. child.cleanup entry.1) s.children_by_key,
  )
