-- ===== src/Codecs.antt =====
-- The codec tables of discord/ext/native_voice/client.py, `_get_codec_lookups`, from the codec
-- specifications that the client offers. The cache on their key is left out: it returns what it
-- stored.
pub mod Tables
pub mod Capabilities
mod Tests
use discord_native_voice.Prelude.{ℕ, Option, none, some, List, [], ◌∷◌, ℕ-eq, if◌then◌else◌}
use discord_native_voice.Prelude.Dict.{Dict, put}
use discord_native_voice.Rtp.{MediaType, audio, video, Codec}

pub record CodecSpec : Type 0 where
  pub kind : MediaType
  pub name : Codec
  pub payload_type : ℕ
  pub rtx_payload_type : Option ℕ

-- The tables by payload type.
pub record CodecLookups : Type 0 where
  pub payload_types : Dict ℕ (MediaType × Codec)
  pub rtx_payload_types : Dict ℕ (MediaType × Codec × ℕ)

abbrev pub add_rtx_type :
    CodecSpec → Option ℕ → Dict ℕ (MediaType × Codec × ℕ) → Dict ℕ (MediaType × Codec × ℕ)
add_rtx_type codec none table = table
add_rtx_type codec (some rtx) table = put rtx (codec.kind, codec.name, codec.payload_type) table

abbrev pub add_if_video :
    CodecSpec → MediaType → Dict ℕ (MediaType × Codec × ℕ) → Dict ℕ (MediaType × Codec × ℕ)
add_if_video codec video table = add_rtx_type codec codec.rtx_payload_type table
add_if_video codec audio table = table

-- The loop over the codecs, on the tables so far
unfoldable pub add_codecs : List CodecSpec → CodecLookups → CodecLookups
add_codecs [] l = l
add_codecs (codec ∷ codecs) l = add_codecs codecs (record {
  payload_types = put codec.payload_type (codec.kind, codec.name) l.payload_types;
  rtx_payload_types = add_if_video codec codec.kind l.rtx_payload_types;
})

unfoldable pub get_codec_lookups : List CodecSpec → CodecLookups
unfolding add_codecs
get_codec_lookups codecs = add_codecs codecs (record { payload_types = []; rtx_payload_types = [] })
