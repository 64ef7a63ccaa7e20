-- ===== src/Wire/Batch/Counts.antt =====
-- What a batch has written when it succeeds: the octets, the statistics and the rest of the channel.
use ssh_proxy.Base.{
  ℕ, zero, suc, ◌+◌, ◌≤◌, ◌≡◌, refl, sym, ap, ◌∙◌, true, false, List, [], ◌∷◌, ◌++◌, Result, ok,
  err, leb, leb→le, ltb, length, take, drop, append_assoc, append-nil, Bool-cases, inl, inr, arith,
}
use ssh_proxy.Wire.Bytes.{Bytes}
use ssh_proxy.Wire.Cursor.{FrameError}
use ssh_proxy.Wire.Frame.{Frame, chunk, encode_into, max_frame, frame_header, framed}
use ssh_proxy.Wire.Frame.Payload.{encode_into_chunk}
use ssh_proxy.Wire.Sink.{lift, pure, Peer, Sink, Write, ◌>>=◌, resume}
use ssh_proxy.Wire.Sink.Sends.{Sent, write_all_vectored_payload-Sent}
use ssh_proxy.Wire.Batch.{
  FrameWriteBatchStats, default_stats, record_frame, write_payload, write_to_with_scratch,
  write_counted, drain, write_frame_batch, frame_write_batch_limit, flush,
}

-- `wire` is the frame's encoding, within the limit, behind its header.
abbrev pub Encodes : Frame → Bytes → Type 0
Encodes f wire =
    (ty id : ℕ) × (payload : Bytes) × (encode_into f ≡ ok (ty, id, payload))
    × (length payload ≤ max_frame)
    × (wire ≡ framed ty id payload)

abbrev pub EncodesAll : List Frame → Bytes → Type 0
EncodesAll [] wire = wire ≡ []
EncodesAll (f ∷ fs) wire =
    (first rest : Bytes) × Encodes f first × EncodesAll fs rest × (wire ≡ first ++ rest)

abbrev pub data_frames : List Frame → ℕ
data_frames [] = 0
data_frames (chunk id payload ∷ fs) = suc (data_frames fs)
data_frames (_ ∷ fs) = data_frames fs

abbrev pub data_bytes : List Frame → ℕ
data_bytes [] = 0
data_bytes (chunk id payload ∷ fs) = length payload + data_bytes fs
data_bytes (_ ∷ fs) = data_bytes fs

-- The statistics have grown by those of the frames `fs`.
pub record Counts (t : FrameWriteBatchStats) (fs : List Frame) (t' : FrameWriteBatchStats)
    : Type 0 where
  pub frames : t'.frames_written ≡ t.frames_written + length fs
  pub datas : t'.data_frames_written ≡ t.data_frames_written + data_frames fs
  pub bytes : t'.data_bytes_written ≡ t.data_bytes_written + data_bytes fs

Counts-cons :
    (f : Frame) (fs : List Frame) (t t₁ t' : FrameWriteBatchStats)
    → Counts t (f ∷ []) t₁
    → Counts t₁ fs t'
    → Counts t (f ∷ fs) t'
Counts-cons (chunk id payload) fs t t₁ t' c d =
    omega (arith, c.frames, c.datas, c.bytes, d.frames, d.datas, d.bytes)
Counts-cons _ fs t t₁ t' c d = omega (arith, c.frames, c.datas, c.bytes, d.frames, d.datas, d.bytes)

resume-eq-ok :
    {A B : Type 0} (p : Sink × Result FrameError A) (f : A → Write B) {s' : Sink} {b : B}
    → resume p.0 p.1 f ≡ (s', ok b)
    → (s₁ : Sink) × (a : A) × (p ≡ (s₁, ok a)) × (f a s₁ ≡ (s', ok b))
resume-eq-ok (s₁, ok a) f e = (s₁, a, refl, e)
resume-eq-ok (s₁, err x) f e = cc

Sent-ok :
    {A : Type 0} (peer : Peer) (goal : Bytes) (p : Sink × Result FrameError A) {s' : Sink} {a : A}
    → Sent peer goal p.0 p.1
    → p ≡ (s', ok a)
    → s'.out ≡ goal
Sent-ok peer goal (s₁, ok b) h e = sym (ap (λ q. q.0.out) e) ∙ h
Sent-ok peer goal (s₁, err x) h e = cc

pure-eq-ok :
    {A : Type 0} (a : A) (s : Sink) {s' : Sink} {b : A} → pure a s ≡ (s', ok b) → (s' ≡ s) × (b ≡ a)
pure-eq-ok a s e = (sym (ap (λ p. p.0) e), cc (ap (λ p. p.1) e))

abbrev Batched : List Frame → FrameWriteBatchStats → FrameWriteBatchStats → Sink → Sink → Type 0
Batched fs t t' s s' =
    ((wire : Bytes) × EncodesAll fs wire × (s'.out ≡ s.out ++ wire)) × Counts t fs t'

Batched-none :
    (t : FrameWriteBatchStats) (rx : List Frame) (s : Sink) {t' : FrameWriteBatchStats}
    {rest : List Frame} {s' : Sink}
    → pure {A = FrameWriteBatchStats × List Frame} (t, rx) s ≡ (s', ok (t', rest))
    → (rest ≡ rx) × Batched [] t t' s s'
Batched-none t rx s e =
    let (q, r) = pure-eq-ok (t, rx) s e in
    let same : _ ≡ t = ap (λ p. p.0) r in
    (
      ap (λ p. p.1) r,
      (([], refl, ap (λ x. x.out) q ∙ sym (append-nil s.out)), rw same (omega arith)),
    )

abbrev Wrote : Frame → Sink → Sink → Type 0
Wrote f s s' = (wire : Bytes) × Encodes f wire × (s'.out ≡ s.out ++ wire)

Batched-cons :
    (f : Frame) (fs : List Frame) (t t₁ t' : FrameWriteBatchStats) (s s₁ s' : Sink)
    → Wrote f s s₁
    → Counts t (f ∷ []) t₁
    → Batched fs t₁ t' s₁ s'
    → Batched (f ∷ fs) t t' s s'
Batched-cons f fs t t₁ t' s s₁ s' (first, enc, out) c ((rest, encs, outs), cs) = (
  (
    first ++ rest,
    (first, rest, enc, encs, refl),
    outs ∙ ap (λ o. o ++ rest) out ∙ append_assoc s.out first rest,
  ),
  Counts-cons f fs t t₁ t' c cs,
)

module _ (peer : Peer) where
  write_payload_ok :
      (ty id : ℕ) (payload : Bytes) (s s' : Sink) (w : ℕ)
      → write_payload peer ty id payload s ≡ (s', ok w)
      → (length payload ≤ max_frame) × (s'.out ≡ s.out ++ framed ty id payload)
  unfolding write_payload
  write_payload_ok ty id payload s s' w e = elim (Bool-cases (leb (length payload) max_frame)) [
    | inl fits ↦ (
      leb→le _ _ fits,
      Sent-ok peer _ _
          (write_all_vectored_payload-Sent peer (frame_header ty id (length payload)) payload s)
          (rw fits at e),
    )
    | inr large ↦ absurd (ground (arith, rw large at e))
  ]

  write_encoded_ok :
      (f : Frame) (s s' : Sink) (w : ℕ)
      → (lift (encode_into f) >>= λ (ty, id, payload). write_payload peer ty id payload) s
        ≡ (s', ok w)
      → Wrote f s s'
  write_encoded_ok f s s' w e =
      let (s₁, a, q, e') = resume-eq-ok (s, encode_into f) _ e in
      let (l, o) = write_payload_ok a.0 a.1 a.2 s₁ s' w e' in
      let same : s₁ ≡ s = sym (ap (λ p. p.0) q) in
      (
        framed a.0 a.1 a.2,
        (a.0, a.1, a.2, ap (λ p. p.1) q, l, refl),
        o ∙ ap (λ p. p.out ++ framed a.0 a.1 a.2) same,
      )

  write_to_with_scratch_ok :
      (f : Frame) (s s' : Sink) (w : ℕ) → write_to_with_scratch peer f s ≡ (s', ok w) → Wrote f s s'
  unfolding write_to_with_scratch
  write_to_with_scratch_ok (chunk id payload) s s' w e =
      let (l, o) = write_payload_ok 3 id payload s s' w e in
      (framed 3 id payload, (3, id, payload, encode_into_chunk id payload, l, refl), o)
  write_to_with_scratch_ok f s s' w e = write_encoded_ok f s s' w e

  record_frame-Counts :
      (f : Frame) (t : FrameWriteBatchStats) (w : ℕ)
      → Counts t (f ∷ []) (record_frame f (record t { vectored_writes = w }))
  unfolding record_frame
  record_frame-Counts (chunk id payload) t w = omega arith
  record_frame-Counts _ t w = omega arith

  write_counted_ok :
      (f : Frame) (t t' : FrameWriteBatchStats) (s s' : Sink)
      → write_counted peer f t s ≡ (s', ok t')
      → Wrote f s s' × Counts t (f ∷ []) t'
  unfolding write_counted
  write_counted_ok f t t' s s' e =
      let (s₁, w, q, e') = resume-eq-ok (write_to_with_scratch peer f s) _ e in
      let (same, counted) = pure-eq-ok _ s₁ e' in
      (
        rw same (write_to_with_scratch_ok f s s₁ w q),
        rw counted (record_frame-Counts f t (t.vectored_writes + w)),
      )

  drain_ok :
      (n : ℕ) (rx rest : List Frame) (t t' : FrameWriteBatchStats) (s s' : Sink)
      → t.frames_written + n ≡ frame_write_batch_limit
      → drain peer rx t s ≡ (s', ok (t', rest))
      → (rest ≡ drop n rx) × Batched (take n rx) t t' s s'
  unfolding drain
  drain_ok zero [] rest t t' s s' h e = Batched-none t [] s e
  drain_ok (suc n) [] rest t t' s s' h e = Batched-none t [] s e
  drain_ok zero (f ∷ rx) rest t t' s s' h e =
      let full : ltb t.frames_written frame_write_batch_limit ≡ false = ground arith in
      Batched-none t (f ∷ rx) s (rw full at e)
  drain_ok (suc n) (f ∷ rx) rest t t' s s' h e =
      let room : ltb t.frames_written frame_write_batch_limit ≡ true = ground arith in
      let (s₁, t₁, q, e') = resume-eq-ok (write_counted peer f t s) _ (rw room at e) in
      let (wrote, c) = write_counted_ok f t t₁ s s₁ q in
      let (r, batch) = drain_ok n rx rest t₁ t' s₁ s' (omega (arith, c.frames)) e' in
      (r, Batched-cons f (take n rx) t t₁ t' s s₁ s' wrote c batch)

  flush_ok : (s s' : Sink) (u : Unit {0}) → flush peer s ≡ (s', ok u) → s' ≡ s
  unfolding flush
  flush_ok s s' u e = elim (Bool-cases peer.flushes) [
    | inl yes_flush ↦ sym (ap (λ p. p.0) (rw yes_flush at e))
    | inr no_flush ↦ cc (rw no_flush at e)
  ]

-- A batch that succeeds has taken its first frame and at most 31 of those that wait, in order; it
-- has sent their encodings one behind the other, has counted them, and leaves the others waiting.
pub write_frame_batch_ok :
    (peer : Peer) (first : Frame) (rx rest : List Frame) (t : FrameWriteBatchStats) (s s' : Sink)
    → write_frame_batch peer first rx s ≡ (s', ok (t, rest))
    → let sent = first ∷ take 31 rx in
      (rest ≡ drop 31 rx)
      × ((wire : Bytes) × EncodesAll sent wire × (s'.out ≡ s.out ++ wire))
      × (t.frames_written ≡ length sent)
      × (t.data_frames_written ≡ data_frames sent)
      × (t.data_bytes_written ≡ data_bytes sent)
      × (t.flushes ≡ 1)
unfolding write_frame_batch default_stats
write_frame_batch_ok peer first rx rest t s s' e =
    let (s₁, t₁, q₁, e₁) = resume-eq-ok (write_counted peer first default_stats s) _ e in
    let (s₂, a, q₂, e₂) = resume-eq-ok (drain peer rx t₁ s₁) _ e₁ in
    let (s₃, u, q₃, e₃) = resume-eq-ok (flush peer s₂) _ e₂ in
    let (wrote, c) = write_counted_ok peer first default_stats t₁ s s₁ q₁ in
    let (r, batch) = drain_ok peer 31 rx a.1 t₁ a.0 s₁ s₂ (omega (arith, c.frames)) q₂ in
    let all = Batched-cons first (take 31 rx) default_stats t₁ a.0 s s₁ s₂ wrote c batch in
    let (same, result) = pure-eq-ok _ s₃ e₃ in
    let unmoved : s' ≡ s₂ = same ∙ flush_ok peer s₂ s₃ u q₃ in
    let stats = ap (λ p. p.0) result in
    (
      ap (λ p. p.1) result ∙ r,
      (all.0.0, all.0.1, ap (λ x. x.out) unmoved ∙ all.0.2),
      ap (λ x. x.frames_written) stats ∙ omega (arith, all.1.frames),
      ap (λ x. x.data_frames_written) stats ∙ omega (arith, all.1.datas),
      ap (λ x. x.data_bytes_written) stats ∙ omega (arith, all.1.bytes),
      ap (λ x. x.flushes) stats,
    )
