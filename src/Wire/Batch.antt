-- ===== src/Wire/Batch.antt =====
-- Writing frames: `write_to_with_scratch`, `write_payload` and `write_frame_batch` of
-- crates/ssh-proxy-protocol/src/protocol.rs.
pub mod Counts
pub mod Total
use ssh_proxy.Base.{ℕ, ◌+◌, ◌%◌, [], List, ◌∷◌, ◌++◌, ok, err, leb, ltb, if◌then◌else◌, length}
use ssh_proxy.Wire.Bytes.{Bytes, u32_mod, u32_be}
use ssh_proxy.Wire.Cursor.{frame_too_large, write_failed}
use ssh_proxy.Wire.Frame.{Frame, chunk, encode_into, max_frame, frame_header}
use ssh_proxy.Wire.Sink.{Peer, Write, ◌>>=◌, pure, fail, lift, write_all_vectored_payload}

abbrev pub frame_write_batch_limit : ℕ
frame_write_batch_limit = 32

pub record FrameWriteBatchStats : Type 0 where
  pub frames_written : ℕ
  pub flushes : ℕ
  pub data_frames_written : ℕ
  pub data_bytes_written : ℕ
  pub vectored_writes : ℕ

unfoldable pub default_stats : FrameWriteBatchStats
default_stats = record {
  frames_written = 0;
  flushes = 0;
  data_frames_written = 0;
  data_bytes_written = 0;
  vectored_writes = 0;
}

unfoldable pub record_frame : Frame → FrameWriteBatchStats → FrameWriteBatchStats
record_frame (chunk id payload) t = record t {
  frames_written = t.frames_written + 1;
  data_frames_written = t.data_frames_written + 1;
  data_bytes_written = t.data_bytes_written + length payload;
}
record_frame _ t = record t { frames_written = t.frames_written + 1 }

module _ (peer : Peer) where
  unfoldable pub write_payload : ℕ → ℕ → Bytes → Write ℕ
  write_payload ty id payload =
      if leb (length payload) max_frame
      then write_all_vectored_payload peer (frame_header ty id (length payload)) payload
      else fail (frame_too_large (length payload))

  abbrev write_encoded : Frame → Write ℕ
  write_encoded f = lift (encode_into f) >>= λ (ty, id, payload). write_payload ty id payload

  unfoldable pub write_to_with_scratch : Frame → Write ℕ
  unfolding write_payload
  write_to_with_scratch (chunk id payload) = write_payload 3 id payload
  write_to_with_scratch f = write_encoded f

  unfoldable pub flush : Write (Unit {0})
  flush s = if peer.flushes then (s, ok tt) else (s, err write_failed)

  -- One frame of the batch.
  unfoldable pub write_counted : Frame → FrameWriteBatchStats → Write FrameWriteBatchStats
  write_counted f t = do
    writes ← write_to_with_scratch f
    pure (record_frame f (record t { vectored_writes = t.vectored_writes + writes }))

  -- The frames that wait in the channel, until none is left or the batch is full.
  unfoldable pub drain :
      List Frame → FrameWriteBatchStats → Write (FrameWriteBatchStats × List Frame)
  drain [] t = pure (t, [])
  drain (f ∷ rx) t =
      let next = write_counted f t >>= λ t'. drain rx t' in
      if ltb t.frames_written frame_write_batch_limit then next else pure (t, f ∷ rx)

  -- The statistics, and what stays in the channel.
  unfoldable pub write_frame_batch : Frame → List Frame → Write (FrameWriteBatchStats × List Frame)
  unfolding write_counted drain flush
  write_frame_batch first rx = do
    t ← write_counted first default_stats
    (t', rest) ← drain rx t
    _ ← flush
    pure (record t' { flushes = 1 }, rest)
