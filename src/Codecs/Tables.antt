-- ===== src/Codecs/Tables.antt =====
-- What the codec tables hold (discord/ext/native_voice/client.py).
use discord_native_voice.Prelude.{
  ℕ, ◌≡◌, refl, ap, ◌∙◌, Option, none, some, List, [], ◌∷◌, ℕ-eq, nat_eq, arith, if◌then◌else◌,
}
use discord_native_voice.Prelude.Dict.{Dict, get, put, get-put}
use discord_native_voice.Rtp.{MediaType, audio, video, Codec}
use discord_native_voice.Codecs.{
  CodecSpec, CodecLookups, add_rtx_type, add_if_video, add_codecs, get_codec_lookups,
}

-- What the last of the codecs that says something of a payload type says of it.
abbrev pub or_else {ℓ} : {A : Type ℓ} → Option A → Option A → Option A
or_else (some a) before = some a
or_else none before = before

abbrev pub last_says {ℓ} : {A : Type ℓ} → (CodecSpec → Option A) → List CodecSpec → Option A
last_says says [] = none
last_says says (codec ∷ codecs) = or_else (last_says says codecs) (says codec)

abbrev pub says_payload_type : ℕ → CodecSpec → Option (MediaType × Codec)
says_payload_type payload_type codec =
    if nat_eq codec.payload_type payload_type then some (codec.kind, codec.name) else none

abbrev pub says_rtx_type : ℕ → MediaType → Option ℕ → CodecSpec → Option (MediaType × Codec × ℕ)
says_rtx_type payload_type video (some rtx) codec =
    if nat_eq rtx payload_type then some (codec.kind, codec.name, codec.payload_type) else none
says_rtx_type payload_type _ _ codec = none

abbrev pub says_rtx : ℕ → CodecSpec → Option (MediaType × Codec × ℕ)
says_rtx payload_type codec = says_rtx_type payload_type codec.kind codec.rtx_payload_type codec

get-put-or_else :
    {V : Type 0} (k j : ℕ) (v : V) (d : Dict ℕ V)
    → get j (put k v d) ≡ or_else (if nat_eq k j then some v else none) (get j d)
get-put-or_else k j v d = ground (arith, get-put k j v d)

get-add_rtx_type :
    (k : ℕ) (kind : MediaType) (rtx : Option ℕ) (codec : CodecSpec)
    (table : Dict ℕ (MediaType × Codec × ℕ))
    → get k (add_rtx_type codec rtx table) ≡ or_else (says_rtx_type k video rtx codec) (get k table)
get-add_rtx_type k kind none codec table = refl
get-add_rtx_type k kind (some rtx) codec table =
    get-put-or_else rtx k (codec.kind, codec.name, codec.payload_type) table

get-add_if_video :
    (k : ℕ) (kind : MediaType) (codec : CodecSpec) (table : Dict ℕ (MediaType × Codec × ℕ))
    → get k (add_if_video codec kind table)
      ≡ or_else (says_rtx_type k kind codec.rtx_payload_type codec) (get k table)
get-add_if_video k video codec table = get-add_rtx_type k video codec.rtx_payload_type codec table
get-add_if_video k audio codec table = refl

or_else_assoc : {A : Type 0} (x y z : Option A) → or_else x (or_else y z) ≡ or_else (or_else x y) z
or_else_assoc none y z = refl
or_else_assoc (some a) y z = refl

get-add_codecs :
    (k : ℕ) (codecs : List CodecSpec) (l : CodecLookups)
    → (get k (add_codecs codecs l).payload_types
        ≡ or_else (last_says (says_payload_type k) codecs) (get k l.payload_types))
      × (get k (add_codecs codecs l).rtx_payload_types
          ≡ or_else (last_says (says_rtx k) codecs) (get k l.rtx_payload_types))
unfolding add_codecs
get-add_codecs k [] l = (refl, refl)
get-add_codecs k (codec ∷ codecs) l =
    let later = get-add_codecs k codecs _ in
    (
      later.0
          ∙ ap (or_else (last_says (says_payload_type k) codecs))
              (get-put-or_else codec.payload_type k (codec.kind, codec.name) l.payload_types)
          ∙ or_else_assoc (last_says (says_payload_type k) codecs) (says_payload_type k codec)
              (get k l.payload_types),
      later.1
          ∙ ap (or_else (last_says (says_rtx k) codecs))
              (get-add_if_video k codec.kind codec l.rtx_payload_types)
          ∙ or_else_assoc (last_says (says_rtx k) codecs) (says_rtx k codec)
              (get k l.rtx_payload_types),
    )

or_else-none : {A : Type 0} (x : Option A) → or_else x none ≡ x
or_else-none none = refl
or_else-none (some a) = refl

-- The table by payload type gives, for every number, the media type and the name of the last codec
-- with this payload type, and the RTX table those and the payload type of the last video codec with
-- this RTX payload type. A number that no codec has is in neither.
pub get-get_codec_lookups :
    (k : ℕ) (codecs : List CodecSpec)
    → (get k (get_codec_lookups codecs).payload_types ≡ last_says (says_payload_type k) codecs)
      × (get k (get_codec_lookups codecs).rtx_payload_types ≡ last_says (says_rtx k) codecs)
unfolding get_codec_lookups get
get-get_codec_lookups k codecs =
    let found = get-add_codecs k codecs (record { payload_types = []; rtx_payload_types = [] }) in
    (
      found.0 ∙ or_else-none (last_says (says_payload_type k) codecs),
      found.1 ∙ or_else-none (last_says (says_rtx k) codecs),
    )
