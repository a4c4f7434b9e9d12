-- ===== src/Pending/Laws.antt =====
-- The queue of frames that wait for their DAVE keys stays bounded, and one retry is enough
-- (discord/ext/native_voice/client.py).
use discord_native_voice.Prelude.{
  ℕ, suc, ◌≤◌, Option, List, [], ◌∷◌, length, drop, length-append, length-drop, leb, arith,
  Bool-cases, inl, inr,
}
use discord_native_voice.Rtp.{DecodedRtpPacket}
use discord_native_voice.Media.{MediaPacket, RtcpTime}
use discord_native_voice.Pending.{
  Dave, PendingDaveVideoFrame, is_stale, drop_stale, stash_dave_video_frame, Fate, dropped, waits,
  opened, fate, add_fate, retry_pending_dave_video_frames,
}

length-drop_stale :
    (now : ℕ) (frames : List PendingDaveVideoFrame) → length (drop_stale now frames) ≤ length frames
unfolding drop_stale
length-drop_stale now [] = omega arith
length-drop_stale now (frame ∷ frames) = elim (Bool-cases (is_stale now frame)) [
  | inl old ↦ rw old (omega (arith, length-drop_stale now frames))
  | inr fresh ↦ rw fresh (omega arith)
]

-- A queue of at most 128 frames has at most 128 frames after one more was put in.
pub stash_dave_video_frame-le :
    (now : ℕ) (frame : PendingDaveVideoFrame) (frames : List PendingDaveVideoFrame)
    → length frames ≤ 128
    → length (stash_dave_video_frame now frame frames) ≤ 128
unfolding stash_dave_video_frame
stash_dave_video_frame-le now frame frames h =
    let fresh = drop_stale now frames in
    let shorter = length-drop_stale now frames in
    let queued : List PendingDaveVideoFrame = record frame { queued_at = now } ∷ [] in
    elim (Bool-cases (leb 128 (length fresh))) [
      | inl full ↦ rw full (omega (arith, length-append (drop 1 fresh) queued, length-drop 1 fresh))
      | inr fits ↦ rw fits (ground (arith, length-append fresh queued))
    ]

pub length-retry_pending :
    (dave : Dave) (time : DecodedRtpPacket → ℕ → Option RtcpTime) (now : ℕ)
    (frames : List PendingDaveVideoFrame)
    → length (retry_pending_dave_video_frames dave time now frames).1 ≤ length frames
unfolding retry_pending_dave_video_frames
length-retry_pending dave time now [] = omega arith
length-retry_pending dave time now (frame ∷ frames) =
    let shorter = length-retry_pending dave time now frames in
    let rest = retry_pending_dave_video_frames dave time now frames in
    longer_by (fate dave now frame) time frame rest (length frames) shorter
  where
    longer_by :
        (f : Fate) (time : DecodedRtpPacket → ℕ → Option RtcpTime) (frame : PendingDaveVideoFrame)
        (rest : List MediaPacket × List PendingDaveVideoFrame) (n : ℕ)
        → length rest.1 ≤ n
        → length (add_fate time frame f rest).1 ≤ suc n
    longer_by dropped time frame rest n h = omega arith
    longer_by waits time frame rest n h = omega arith
    longer_by (opened payload) time frame rest n h = omega arith
