-- ===== src/Lib.antt =====
-- discord-native-voice: a Discord voice client, from RTP packets to media packets and from sources of
-- media to sinks.
--
-- The program receives batches of RTP packets, decrypts them in its native extension, finds the codec
-- of each, unwraps packets that were repaired over RTX, asks for lost ones, puts video packets back
-- in order, joins them to frames in a depacketizer, opens the frames with DAVE, and hands media
-- packets to a callback or a sink. On the side it answers with RTCP: receiver reports, NACKs and
-- picture loss indications. In the other direction a player reads audio and video frames from a source,
-- at the pace of the video, and the sources read and mix streams, files and other sources.
--
-- Which file models what (the paths are below discord/ext/native_voice):
--   Prelude   shared lists, dictionaries, bytes, bit operations and signed integers
--   Rtp       rtp.py: the constants, the dataclasses, and in Rtp/Sequence the serial arithmetic
--   Reorder   rtp.py: `_VideoReceiveReorderBuffer`; `push` is its method of that name
--   Counter   client.py: the counters of `_record_video_receive_stat` and `..._max_stat`
--   Feedback  client.py: `_send_rtcp_nack`, `send_video_pli`, the loop of `_handle_rtcp_nack`
--   Nack      client.py: `_track_video_receive_sequence` and the methods on pending NACKs
--   Reports   client.py: sender and receiver reports, built and read
--   Dave      dave.py: `_looks_like_dave_protocol_frame` and what it calls
--   Pending   client.py: the DAVE decryption of video frames and the queue of frames without keys
--   Media     media.py and client.py: `MediaPacket`, header extensions, packet times
--   Receive   client.py: `_decode_media_packets` and all that it calls
--   Send      client.py: the selection of video streams and the cache of keyframes
--   Codecs    client.py: `_get_codec_lookups`
--   Codecs/Capabilities  codecs.py: `get_local_video_codec_capabilities`; transcoding.py: its tables
--   Totals    client.py: the statistics that a client shows
--   Frames    media.py: `_read_exact` (Read), `_IVFFrameReader` (Ivf), `_AnnexBFrameReader` (AnnexB),
--             `EncodedVideoSource` (Source), `EncodedVideoSink` (Sink); RoundTrip and Truncated are about
--             the reader and the writer together
--   Sinks     media.py: `MediaSink` and its filters, `MultiSink` (Pass, Closing), `QueueSink` and
--             `AsyncQueueSink` (Queue), `PerUserSink` (PerUser), `_OpusDecoderCache` and `PCMDecodeSink`
--             (Opus), `SilenceFillSink` (Silence), `WaveSink` and `MixedWaveSink` (Wave)
--   Sources   media.py: `PCMMediaSource` (Pcm), frames from an iterator, `AudioMediaSource` and
--             `MultiMediaSource` (Multi), `SimulcastVideoSource` (Simulcast), `_resolve_video_probe_config`
--             (Probe)
--   Player    player.py: the statistics, the pacing, the video part of a turn of `_do_run`
-- A definition has the name of its method, without the leading underscore. An object is a record, a
-- method is a function from the record to its results and the record after it; a method of several
-- stages has one definition for each. The client of one component passes it the part of its state
-- that the component keeps: `Receiver` holds a `Tracker`, the `Reports`, a `Buffer` for each stream.
--
-- Times of the monotonic clock are natural numbers of microseconds and are arguments. The source's
-- floats are exact here: the jitter is a fraction over a power of 16, an NTP time counts units of
-- 2 ^ -32 seconds. A codec name is a constructor, so that `.upper()` is done once and for all.
-- Loops on fuel: the NACK packer and the chunks of a NACK have one round for each sequence and take at
-- least one in each; the reader of DAVE ranges has one round for each byte and reads at least two in
-- each; the reorder buffer pops at most as often as it has packets. The scan for a keyframe ends after
-- 16 units, as the source's does. `read_exact` has one round for each byte asked for and takes at least one
-- in each; the scan of an Annex B buffer and the reader of frames have one for each byte that is left, and
-- one more.
--
-- Parameters: the depacketizers of the native extension, davey's session, discord.py's tables of
-- SSRCs and users, its speaking flags, its frame size and its silence frame, the codec tables; the streams
-- that are read, the Opus decoder, the mixing and the addition of PCM, the factories of sinks, FFmpeg's lists and probes.
--
-- Not modelled: the rest of the send path and its native pipeline; the start and end of listening; the stream
-- client; what runs FFmpeg (its sources, its sinks, its arguments); the tree of sinks, the
-- composite sources and the volume; the player's audio, its pauses and a change of its source; the
-- sockets and the crypto; two threads that are within a method at the same time. Sending a packet is taken
-- not to raise.
pub mod Prelude
pub mod Counter
pub mod Rtp
pub mod Reorder
pub mod Feedback
pub mod Nack
pub mod Dave
pub mod Reports
pub mod Media
pub mod Pending
pub mod Receive
pub mod Send
pub mod Codecs
pub mod Frames
pub mod Totals
pub mod Sinks
pub mod Player
pub mod Sources
