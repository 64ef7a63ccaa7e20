-- ===== src/Wire/Batch/Total.antt =====
-- When a batch goes out: what the peer and the frames have to bring.
use ssh_proxy.Base.{
  ℕ, ◌≤◌, ◌≡◌, refl, ap, ◌∙◌, true, List, [], ◌∷◌, Result, ok, err, le→leb, ltb, length, All,
  Bool-cases, inl, inr,
}
use ssh_proxy.Wire.Bytes.{Bytes}
use ssh_proxy.Wire.Cursor.{FrameError}
use ssh_proxy.Wire.Frame.{Frame, chunk, encode_into, max_frame, frame_header}
use ssh_proxy.Wire.Frame.Payload.{encode_into_chunk}
use mathlib.Core.Path.{subst}
use ssh_proxy.Wire.Sink.{lift, Peer, Sink, Write, ◌>>=◌, resume}
use ssh_proxy.Wire.Sink.Sends.{Sent, IsUnwilling, write_all_vectored_payload-Sent}
use ssh_proxy.Wire.Batch.{
  FrameWriteBatchStats, default_stats, write_payload, write_to_with_scratch, write_counted, drain,
  write_frame_batch, frame_write_batch_limit,
}

-- The frame encodes, within the limit.
abbrev pub Fits : Frame → Type 0
Fits f =
    (ty id : ℕ) × (payload : Bytes) × (encode_into f ≡ ok (ty, id, payload))
    × (length payload ≤ max_frame)

-- The computation ends well from `s`.
abbrev Ends : {A : Type 0} → Sink × Result FrameError A → Type 0
Ends {A} p = (s' : Sink) × (a : A) × (p ≡ (s', ok a))

Sent-Ends :
    {A : Type 0} (peer : Peer) (goal : Bytes) (p : Sink × Result FrameError A)
    → ¬ IsUnwilling peer
    → Sent peer goal p.0 p.1
    → Ends p
Sent-Ends peer goal (s, ok a) w h = (s, a, refl)
Sent-Ends peer goal (s, err x) w h = absurd (w h.2)

resume-Ends :
    {A B : Type 0} (p : Sink × Result FrameError A) (f : A → Write B)
    → Ends p
    → ((s : Sink) (a : A) → Ends (f a s))
    → Ends (resume p.0 p.1 f)
resume-Ends p f (s, a, e) h = let (s', b, e') = h s a in (s', b, ap (λ q. resume q.0 q.1 f) e ∙ e')

module _ (peer : Peer) (willing : ¬ IsUnwilling peer) where
  write_payload-Ends :
      (ty id : ℕ) (payload : Bytes) (s : Sink)
      → length payload ≤ max_frame
      → Ends (write_payload peer ty id payload s)
  unfolding write_payload
  write_payload-Ends ty id payload s h = rw (le→leb (length payload) max_frame h) (
      Sent-Ends peer _ _ willing
        (write_all_vectored_payload-Sent peer (frame_header ty id (length payload)) payload s))

  write_encoded-Ends :
      (f : Frame) (s : Sink)
      → Fits f
      → Ends ((lift (encode_into f) >>= λ (ty, id, payload). write_payload peer ty id payload) s)
  write_encoded-Ends f s (ty, id, payload, e, l) = rw e (write_payload-Ends ty id payload s l)

  write_to_with_scratch-Ends :
      (f : Frame) (s : Sink) → Fits f → Ends (write_to_with_scratch peer f s)
  unfolding write_to_with_scratch
  write_to_with_scratch-Ends (chunk id payload) s (ty, id', payload', e, l) =
      write_payload-Ends 3 id payload s (subst (λ p. length p ≤ max_frame) (same_payload) l)
    where
      same_payload : payload' ≡ payload
      same_payload = cc (e, encode_into_chunk id payload)
  write_to_with_scratch-Ends f s h = write_encoded-Ends f s h

  write_counted-Ends :
      (f : Frame) (t : FrameWriteBatchStats) (s : Sink) → Fits f → Ends (write_counted peer f t s)
  unfolding write_counted
  write_counted-Ends f t s h =
      resume-Ends (write_to_with_scratch peer f s) _ (write_to_with_scratch-Ends f s h)
        (λ s' a. (s', _, refl))

  drain-Ends :
      (rx : List Frame) (t : FrameWriteBatchStats) (s : Sink)
      → All Fits rx
      → Ends (drain peer rx t s)
  unfolding drain
  drain-Ends [] t s h = (s, (t, []), refl)
  drain-Ends (f ∷ rx) t s h = elim (Bool-cases (ltb t.frames_written frame_write_batch_limit)) [
    | inl room ↦ rw room (
        resume-Ends (write_counted peer f t s) _ (write_counted-Ends f t s h.0)
          (λ s' t'. drain-Ends rx t' s' h.1))
    | inr full ↦ rw full (s, (t, f ∷ rx), refl)
  ]

  -- A peer that never refuses a write, takes something each time and flushes, is sent every batch
  -- whose frames have encodings within the limit.
  pub write_frame_batch_total :
      (first : Frame) (rx : List Frame) (s : Sink)
      → peer.flushes ≡ true
      → Fits first
      → All Fits rx
      → (s' : Sink) × (a : FrameWriteBatchStats × List Frame) × (write_frame_batch peer first rx s
          ≡ (s', ok a))
  unfolding write_frame_batch
  write_frame_batch_total first rx s yes_flush h hs =
      resume-Ends (write_counted peer first default_stats s) _
        (write_counted-Ends first default_stats s h)
        λ s₁ t.
          resume-Ends (drain peer rx t s₁) _ (drain-Ends rx t s₁ hs)
            λ s₂ a. rw yes_flush (s₂, _, refl)
