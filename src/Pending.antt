-- ===== src/Pending.antt =====
-- Video frames that wait for their DAVE keys: the part of discord/ext/native_voice/client.py that
-- decrypts a frame, and `_pending_dave_video_frames`. The DAVE session is davey's; what the client
-- uses of it is the record `DaveSession`, as it stands at the moment of the call.
pub mod Laws
use text.Mathlib.Text.{find?}
use discord_native_voice.Prelude.{
  ℕ, ◌+◌, Bool, true, false, not, ◌||◌, ◌&&◌, String, Option, none, some, List, [], ◌∷◌, ◌++◌,
  length, drop, ltb, leb, if◌then◌else◌,
}
use discord_native_voice.Prelude.Dict.{Dict}
use discord_native_voice.Prelude.Int.{ℤ}
use discord_native_voice.Prelude.Bytes.{Bytes}
use discord_native_voice.Rtp.{Codec, DecodedRtpPacket, RtpPacket, MediaType, video}
use discord_native_voice.Media.{MediaPacket, RtcpTime, make_video_media_packet}

-- What `decrypt` returns, or the text of what it raises
pub data Decrypted : Type 0 where
  decrypted : Bytes → Decrypted
  raised : String → Decrypted

pub record DaveSession : Type 0 where
  pub ready : Bool
  pub can_passthrough : ℕ → Bool
  pub decrypt : ℕ → MediaType → Bytes → Decrypted

-- What the connection knows of DAVE.
pub record Dave : Type 0 where
  pub can_encrypt : Bool
  pub session : Option DaveSession

abbrev pub dave_pending_video_max_frames : ℕ
dave_pending_video_max_frames = 128

-- 10 seconds
abbrev pub dave_pending_video_max_age : ℕ
dave_pending_video_max_age = 10_000_000

pub record PendingDaveVideoFrame : Type 0 where
  pub decoded : DecodedRtpPacket
  pub codec : Codec
  pub ssrc : ℕ
  pub user_id : Option ℕ
  pub raw : Bytes
  pub payload : Bytes
  pub rtp_packets : List RtpPacket
  pub received_at : ℕ
  pub queued_at : ℕ

-- `needle in text`
abbrev pub occurs : String → String → Bool
occurs needle text = elim (find? text needle) [ none ↦ false | some _ ↦ true ]

unfoldable pub is_retryable_dave_decrypt_error : String → Bool
is_retryable_dave_decrypt_error message =
    occurs "NoValidCryptorFound" message || occurs "NoDecryptorForUser" message

unfoldable pub can_decrypt_with : Option DaveSession → ℕ → Bool
can_decrypt_with none user = false
can_decrypt_with (some session) user = session.ready && session.can_passthrough user

unfoldable pub can_decrypt_dave : Dave → ℕ → Bool
unfolding can_decrypt_with
can_decrypt_dave dave user = dave.can_encrypt || can_decrypt_with dave.session user

-- `_decrypt_video_frame`, by the session and the user
unfoldable pub decrypt_with : Dave → Option DaveSession → Option ℕ → Bytes → Decrypted
unfolding can_decrypt_dave
decrypt_with dave none user_id payload = decrypted payload
decrypt_with dave (some session) none payload = decrypted payload
decrypt_with dave (some session) (some user) payload =
    if can_decrypt_dave dave user then session.decrypt user video payload else decrypted payload

abbrev pub decrypt_video_frame : Dave → Option ℕ → Bytes → Decrypted
decrypt_video_frame dave user_id payload = decrypt_with dave dave.session user_id payload

unfoldable pub can_attempt_with : Dave → Option DaveSession → Option ℕ → Bool
unfolding can_decrypt_dave
can_attempt_with dave none user_id = false
can_attempt_with dave (some session) none = false
can_attempt_with dave (some session) (some user) = can_decrypt_dave dave user

abbrev pub can_attempt_video_dave_decrypt : Dave → Option ℕ → Bool
can_attempt_video_dave_decrypt dave user_id = can_attempt_with dave dave.session user_id

-- `now - frame.queued_at > DAVE_PENDING_VIDEO_MAX_AGE`
abbrev pub is_stale : ℕ → PendingDaveVideoFrame → Bool
is_stale now frame = ltb (frame.queued_at + dave_pending_video_max_age) now

-- The loop of `_stash_dave_video_frame` that drops old frames from the head
unfoldable pub drop_stale : ℕ → List PendingDaveVideoFrame → List PendingDaveVideoFrame
drop_stale now [] = []
drop_stale now (frame ∷ frames) =
    if is_stale now frame then drop_stale now frames else frame ∷ frames

-- `_stash_dave_video_frame`, with the frame as it is queued
unfoldable pub stash_dave_video_frame :
    ℕ → PendingDaveVideoFrame → List PendingDaveVideoFrame → List PendingDaveVideoFrame
unfolding drop_stale
stash_dave_video_frame now frame frames =
    let fresh = drop_stale now frames in
    (if leb dave_pending_video_max_frames (length fresh) then drop 1 fresh else fresh)
    ++ (record frame { queued_at = now } ∷ [])

-- What becomes of one pending frame.
pub data Fate : Type 0 where
  dropped : Fate
  waits : Fate
  opened : Bytes → Fate

unfoldable pub fate_of_result : Decrypted → Fate
unfolding is_retryable_dave_decrypt_error
fate_of_result (decrypted payload) = opened payload
fate_of_result (raised message) = if is_retryable_dave_decrypt_error message then waits else dropped

-- The body of the loop of `_retry_pending_dave_video_frames`
unfoldable pub fate : Dave → ℕ → PendingDaveVideoFrame → Fate
unfolding fate_of_result can_attempt_with decrypt_with
fate dave now frame =
    if is_stale now frame
    then dropped
    else if not (can_attempt_video_dave_decrypt dave frame.user_id)
    then waits
    else fate_of_result (decrypt_video_frame dave frame.user_id frame.payload)

-- The packet of a frame that was opened, by the time function of the client
abbrev pub opened_packet :
    (DecodedRtpPacket → ℕ → Option RtcpTime) → PendingDaveVideoFrame → Bytes → MediaPacket
opened_packet time frame payload =
    make_video_media_packet frame.decoded frame.codec frame.ssrc frame.user_id frame.raw payload
      frame.rtp_packets frame.received_at (time frame.decoded frame.ssrc)

abbrev pub add_fate :
    (DecodedRtpPacket → ℕ → Option RtcpTime)
    → PendingDaveVideoFrame
    → Fate
    → List MediaPacket × List PendingDaveVideoFrame
    → List MediaPacket × List PendingDaveVideoFrame
add_fate time frame dropped (ready, remaining) = (ready, remaining)
add_fate time frame waits (ready, remaining) = (ready, frame ∷ remaining)
add_fate time frame (opened payload) (ready, remaining) =
    (opened_packet time frame payload ∷ ready, remaining)

-- `_retry_pending_dave_video_frames`: the packets, and the frames that stay
unfoldable pub retry_pending_dave_video_frames :
    Dave
    → (DecodedRtpPacket → ℕ → Option RtcpTime)
    → ℕ
    → List PendingDaveVideoFrame
    → List MediaPacket × List PendingDaveVideoFrame
unfolding fate
retry_pending_dave_video_frames dave time now [] = ([], [])
retry_pending_dave_video_frames dave time now (frame ∷ frames) =
    add_fate time frame (fate dave now frame) (retry_pending_dave_video_frames dave time now frames)
