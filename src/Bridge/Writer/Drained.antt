-- ===== src/Bridge/Writer/Drained.antt =====
-- The writer task at a peer that takes what it is sent: crates/ssh-proxy/src/bridge.rs.
use ssh_proxy.Base.{
  ℕ, zero, suc, ◌+◌, ◌%◌, ◌≤◌, ◌≡◌, refl, sym, ap, ◌∙◌, true, List, [], ◌∷◌, ◌++◌, ok, length, take,
  drop, All, All-drop, length-take, length-drop, take-append-drop, append_assoc, append-nil, arith,
}
use mathlib.Core.Path.{subst}
use ssh_proxy.Wire.Bytes.{Bytes, usize_mod}
use ssh_proxy.Wire.Frame.{Frame}
use ssh_proxy.Wire.Sink.{Peer, Sink}
use ssh_proxy.Wire.Sink.Sends.{IsUnwilling}
use ssh_proxy.Wire.Batch.{FrameWriteBatchStats, write_frame_batch}
use ssh_proxy.Wire.Batch.Counts.{EncodesAll, write_frame_batch_ok}
use ssh_proxy.Wire.Batch.Total.{Fits, write_frame_batch_total}
use ssh_proxy.Bridge.State.{BridgeMetrics, record_write_batch}
use ssh_proxy.Bridge.Writer.{WriterTask, writer_task}

EncodesAll-append :
    (fs gs : List Frame) (v w : Bytes)
    → EncodesAll fs v
    → EncodesAll gs w
    → EncodesAll (fs ++ gs) (v ++ w)
EncodesAll-append [] gs v w e es = rw e es
EncodesAll-append (f ∷ fs) gs v w (first, rest, e, es, q) es' =
    (first, rest ++ w, e, EncodesAll-append fs gs rest w es es', rw q (append_assoc first rest w))

-- All frames went out, in order, and were counted.
pub record IsDrained (w w' : WriterTask) : Type 0 where
  pub empty : w'.channel ≡ []
  pub wire : Bytes
  pub encodes : EncodesAll w.channel wire
  pub sent : w'.sink.out ≡ w.sink.out ++ wire
  pub frames :
      w'.metrics.frame_write_frames % usize_mod
      ≡ (w.metrics.frame_write_frames + length w.channel) % usize_mod
  pub failures : w'.metrics.frame_write_failures ≡ w.metrics.frame_write_failures

IsDrained-nil : (w : WriterTask) → w.channel ≡ [] → IsDrained w w
IsDrained-nil w e = record {
  empty = e;
  wire = [];
  encodes = rw e refl;
  sent = sym (append-nil w.sink.out);
  frames = rw e (omega arith);
  failures = refl;
}

-- The state behind a batch.
abbrev after : WriterTask → FrameWriteBatchStats → List Frame → Sink → WriterTask
after w stats rest s = record {
  channel = rest;
  metrics = record_write_batch stats w.metrics;
  sink = s;
}

IsDrained-batch :
    (peer : Peer) (f : Frame) (rx rest : List Frame) (t : FrameWriteBatchStats) (s : Sink)
    (w w' : WriterTask)
    → w.channel ≡ f ∷ rx
    → write_frame_batch peer f rx w.sink ≡ (s, ok (t, rest))
    → IsDrained (after w t rest s) w'
    → IsDrained w w'
unfolding record_write_batch
IsDrained-batch peer f rx rest t s w w' c e d =
    let (r, (wire, es, o), n, _, _, _) = write_frame_batch_ok peer f rx rest t w.sink s e in
    record {
      empty = d.empty;
      wire = wire ++ d.wire;
      encodes =
          rw (c, sym (take-append-drop 31 rx))
            (EncodesAll-append (f ∷ take 31 rx) (drop 31 rx) wire d.wire es
              (subst (λ fs. EncodesAll fs d.wire) r d.encodes));
      sent = d.sent ∙ rw o (append_assoc w.sink.out wire d.wire);
      frames = rw c (omega (arith, d.frames, n, ap length r, length-take 31 rx, length-drop 31 rx));
      failures = d.failures;
    }

module _ (peer : Peer) (willing : ¬ IsUnwilling peer) (flushes : peer.flushes ≡ true) where
  queue-IsDrained :
      (n : ℕ) (fs : List Frame) (m : BridgeMetrics) (s : Sink)
      → length fs ≤ n
      → All Fits fs
      → IsDrained
          (record { channel = fs; metrics = m; sink = s })
          (writer_task peer n (record { channel = fs; metrics = m; sink = s }))
  unfolding writer_task
  queue-IsDrained zero [] m s h fits =
      IsDrained-nil (record { channel = []; metrics = m; sink = s }) refl
  queue-IsDrained zero (f ∷ rx) m s h fits = absurd (omega arith)
  queue-IsDrained (suc n) [] m s h fits =
      IsDrained-nil (record { channel = []; metrics = m; sink = s }) refl
  queue-IsDrained (suc n) (f ∷ rx) m s h fits =
      let (s', (t, rest), e) = write_frame_batch_total peer willing f rx s flushes fits.0 fits.1 in
      let r = (write_frame_batch_ok peer f rx rest t s s' e).0 in
      let w : WriterTask = record { channel = f ∷ rx; metrics = m; sink = s } in
      rw (e, writer_task)
        (IsDrained-batch peer f rx rest t s' w (writer_task peer n (after w t rest s')) refl e (
          queue-IsDrained n rest (record_write_batch t m) s'
            (rw r (omega (arith, length-drop 31 rx))) (rw r (All-drop Fits 31 rx fits.1))))

  -- A peer that never refuses a write, takes something each time and flushes, is sent all frames of
  -- the channel whose encodings are within the limit: in order, one encoding behind the other; the
  -- task counts them and no failure, in as many batches as there are frames at most.
  pub writer_task-IsDrained :
      (n : ℕ) (w : WriterTask)
      → length w.channel ≤ n
      → All Fits w.channel
      → IsDrained w (writer_task peer n w)
  writer_task-IsDrained n w h fits = queue-IsDrained n w.channel w.metrics w.sink h fits
