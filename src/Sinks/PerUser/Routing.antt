-- ===== src/Sinks/PerUser/Routing.antt =====
-- Which child of a `PerUserSink` gets a packet.
use discord_native_voice.Prelude.{
  ℕ, ◌≡◌, refl, ◌∙◌, true, false, Option, none, some, nat_eq, ℕ-eq, arith,
}
use discord_native_voice.Prelude.Dict.{
  get, put, erase, IsUnique, get-put, get-erase, IsUnique-put, IsUnique-erase,
}
use discord_native_voice.Media.{MediaPacket}
use discord_native_voice.Sinks.{SinkOps}
use discord_native_voice.Sinks.PerUser.{
  user, ssrc, ChildKey-eq, PerUserSink, offered, per_user_write,
}

module _ {S : Type 0} (child : SinkOps S) (factory : ℕ → S) where
  -- An open sink and what it holds for an SSRC and a user.
  pub record Holds (n user_id : ℕ) (by_ssrc by_user : Option S) (known : Option ℕ)
      (s : PerUserSink S) : Type 0 where
    pub opened : s.closed ≡ false
    pub fallback : s.fallback_to_ssrc ≡ true
    pub distinct : IsUnique s.children_by_key
    pub of_ssrc : get (ssrc n) s.children_by_key ≡ by_ssrc
    pub of_user : get (user user_id) s.children_by_key ≡ by_user
    pub user_known : get n s.user_ids_by_ssrc ≡ known

  same_number : (n : ℕ) → nat_eq n n ≡ true
  same_number n = ground arith

  unnamed_new :
      (now n user_id : ℕ) (packet : MediaPacket) (s : PerUserSink S)
      → packet.ssrc ≡ n
      → packet.user_id ≡ none
      → Holds n user_id none none none s
      → Holds n user_id
          (some (offered child now packet (factory n)))
          none
          none
          (per_user_write child factory now packet s)
  unfolding per_user_write
  unnamed_new now n user_id packet s at_ssrc unnamed h =
      rw (h.opened, at_ssrc, unnamed, h.user_known, h.fallback, h.of_ssrc)
        (record {
          opened = refl;
          fallback = refl;
          distinct = IsUnique-put (ssrc n) _ s.children_by_key h.distinct;
          of_ssrc = get-put (ssrc n) (ssrc n) _ s.children_by_key ∙ rw (same_number n) refl;
          of_user = get-put (ssrc n) (user user_id) _ s.children_by_key ∙ h.of_user;
          user_known = h.user_known;
        })

  named_first :
      (now n user_id : ℕ) (packet : MediaPacket) (s : PerUserSink S) (moved : S) (known : Option ℕ)
      → packet.ssrc ≡ n
      → packet.user_id ≡ some user_id
      → Holds n user_id (some moved) none known s
      → Holds n user_id none
          (some (offered child now packet moved))
          (some user_id)
          (per_user_write child factory now packet s)
  unfolding per_user_write
  named_first now n user_id packet s moved known at_ssrc named h =
      let gone = erase (ssrc n) s.children_by_key in
      let held = put (user user_id) moved gone in
      let unique =
        IsUnique-put (user user_id) moved gone
          (IsUnique-erase (ssrc n) s.children_by_key h.distinct) in
      let found : get (user user_id) held ≡ some moved =
        get-put (user user_id) (user user_id) moved gone ∙ rw (same_number user_id) refl in
      let none_left : get (ssrc n) held ≡ none =
        get-put (user user_id) (ssrc n) moved gone
        ∙ get-erase (ssrc n) (ssrc n) s.children_by_key h.distinct
        ∙ rw (same_number n) refl in
      rw (h.opened, at_ssrc, named, h.of_ssrc, h.of_user, found)
        (record {
          opened = refl;
          fallback = h.fallback;
          distinct = IsUnique-put (user user_id) _ held unique;
          of_ssrc = get-put (user user_id) (ssrc n) _ held ∙ none_left;
          of_user = get-put (user user_id) (user user_id) _ held ∙ rw (same_number user_id) refl;
          user_known = get-put n n user_id s.user_ids_by_ssrc ∙ rw (same_number n) refl;
        })

  unnamed_known :
      (now n user_id : ℕ) (packet : MediaPacket) (s : PerUserSink S) (own : S)
      → packet.ssrc ≡ n
      → packet.user_id ≡ none
      → Holds n user_id none (some own) (some user_id) s
      → Holds n user_id none
          (some (offered child now packet own))
          (some user_id)
          (per_user_write child factory now packet s)
  unfolding per_user_write
  unnamed_known now n user_id packet s own at_ssrc unnamed h =
      rw (h.opened, at_ssrc, unnamed, h.user_known, h.of_user)
        (record {
          opened = refl;
          fallback = h.fallback;
          distinct = IsUnique-put (user user_id) _ s.children_by_key h.distinct;
          of_ssrc = get-put (user user_id) (ssrc n) _ s.children_by_key ∙ h.of_ssrc;
          of_user =
              get-put (user user_id) (user user_id) _ s.children_by_key
              ∙ rw (same_number user_id) refl;
          user_known = h.user_known;
        })

  -- A packet of an unknown SSRC, a packet that names the user of this SSRC, and a packet without a
  -- user again all go to one child, which the user then has, if the sink falls back to SSRCs and has
  -- no child for this SSRC or this user. The SSRC keeps no child of its own.
  pub per_user_write-Holds :
      (t1 t2 t3 n user_id : ℕ) (p1 p2 p3 : MediaPacket) (s : PerUserSink S)
      → (p1.ssrc ≡ n) × (p1.user_id ≡ none)
      → (p2.ssrc ≡ n) × (p2.user_id ≡ some user_id)
      → (p3.ssrc ≡ n) × (p3.user_id ≡ none)
      → Holds n user_id none none none s
      → Holds n user_id none
          (some (offered child t3 p3 (offered child t2 p2 (offered child t1 p1 (factory n)))))
          (some user_id)
          (per_user_write child factory t3 p3
            (per_user_write child factory t2 p2 (per_user_write child factory t1 p1 s)))
  per_user_write-Holds t1 t2 t3 n user_id p1 p2 p3 s h1 h2 h3 h =
      let s1 = per_user_write child factory t1 p1 s in
      let s2 = per_user_write child factory t2 p2 s1 in
      unnamed_known t3 n user_id p3 s2 _ h3.0 h3.1 (
        named_first t2 n user_id p2 s1 _ none h2.0 h2.1 (unnamed_new t1 n user_id p1 s h1.0 h1.1 h))
