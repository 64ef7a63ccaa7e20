-- ===== src/Wire/RoundTrip.antt =====
-- The two ends of the data plane together: what one writes, the other reads.
use ssh_proxy.Base.{
  ℕ, zero, suc, ◌<◌, ◌≡◌, false, List, [], ◌∷◌, ◌++◌, some, ok, length, length-take, take, All,
  All-take, arith,
}
use ssh_proxy.Wire.Bytes.{Bytes}
use ssh_proxy.Wire.Frame.{Frame, IsTyped}
use ssh_proxy.Wire.Reader.{read_from, read_frames, read_from_end}
use ssh_proxy.Wire.Reader.Framed.{read_from-encode_into}
use ssh_proxy.Wire.Sink.{Peer, Sink}
use ssh_proxy.Wire.Batch.{FrameWriteBatchStats, write_frame_batch}
use ssh_proxy.Wire.Batch.Counts.{Encodes, EncodesAll, write_frame_batch_ok}

read_from-Encodes :
    (sizes : ℕ → ℕ) (f : Frame) (wire rest : Bytes)
    → IsTyped f
    → Encodes f wire
    → read_from sizes (record { ahead = wire ++ rest; broken = false })
      ≡ ok (some f, record { ahead = rest; broken = false })
read_from-Encodes sizes f wire rest t (ty, id, payload, e, l, w) =
    rw w (read_from-encode_into sizes f ty id payload rest false t e l)

-- The frames of a connection that ends behind their encodings are read back in order.
pub read_frames-EncodesAll :
    (fuel : ℕ) (sizes : ℕ → ℕ → ℕ) (fs : List Frame) (wire : Bytes)
    → All IsTyped fs
    → EncodesAll fs wire
    → length fs < fuel
    → read_frames fuel sizes (record { ahead = wire; broken = false }) ≡ ok fs
unfolding read_frames
read_frames-EncodesAll zero sizes fs wire t e h = absurd (omega arith)
read_frames-EncodesAll (suc n) sizes [] wire t e h = rw (e, read_from_end (sizes n))
read_frames-EncodesAll (suc n) sizes (f ∷ fs) wire t (first, rest, e, es, w) h =
    rw (w, read_from-Encodes (sizes n) f first rest t.0 e)
      (rw (read_frames-EncodesAll n sizes fs rest t.1 es (omega arith)))

-- A batch that was written to a new connection, of frames with numbers in range and texts in
-- UTF-8, is read back by the peer: the first frame and the at most 31 that were waiting, in order
-- and unchanged, however the octets arrive.
pub read_frames-write_frame_batch :
    (peer : Peer) (sizes : ℕ → ℕ → ℕ) (first : Frame) (rx rest : List Frame)
    (t : FrameWriteBatchStats) (calls : ℕ) (s' : Sink)
    → All IsTyped (first ∷ rx)
    → write_frame_batch peer first rx (record { out = []; calls = calls }) ≡ (s', ok (t, rest))
    → read_frames 33 sizes (record { ahead = s'.out; broken = false }) ≡ ok (first ∷ take 31 rx)
read_frames-write_frame_batch peer sizes first rx rest t calls s' h e =
    let (_, (wire, enc, out), _, _, _, _) =
      write_frame_batch_ok peer first rx rest t (record { out = []; calls = calls }) s' e in
    rw out (
      read_frames-EncodesAll 33 sizes (first ∷ take 31 rx) wire (h.0, All-take IsTyped 31 rx h.1)
        enc (omega (arith, length-take 31 rx)))
