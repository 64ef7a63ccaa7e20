-- ===== src/Wire/Sink.antt =====
-- The writing half of a connection, and how a header and a payload go out through it:
-- crates/ssh-proxy-protocol/src/protocol.rs.
pub mod Sends
use ssh_proxy.Base.{
  ℕ, zero, suc, ◌+◌, ◌-◌, Bool, true, false, ◌||◌, ◌++◌, Result, ok, err, ltb, ◌==◌, if◌then◌else◌,
  length, take, drop, min,
}
use ssh_proxy.Wire.Bytes.{Bytes}
use ssh_proxy.Wire.Cursor.{FrameError, write_zero, write_failed, stuck}

-- What the operating system answers to one write.
pub data Answer : Type 0 where
  accepts : ℕ → Answer
  refuses : Answer

pub record Sink : Type 0 where
  pub out : Bytes
  pub calls : ℕ

pub record Peer : Type 0 where
  pub answer : ℕ → Answer
  pub flushes : Bool

-- A computation that writes, and that may fail with part of its octets written.
abbrev pub Write : Type 0 → Type 0
Write A = Sink → Sink × Result FrameError A

-- What follows a step: the `?` operator.
abbrev pub resume :
    {A B : Type 0} → Sink → Result FrameError A → (A → Write B) → Sink × Result FrameError B
resume s (ok a) f = f a s
resume s (err e) f = (s, err e)

infixl 5 ◌>>=◌
abbrev pub ◌>>=◌ : {A B : Type 0} → Write A → (A → Write B) → Write B
◌>>=◌ m f s = resume (m s).0 (m s).1 f

abbrev pub pure : {A : Type 0} → A → Write A
pure a s = (s, ok a)

abbrev pub fail : {A : Type 0} → FrameError → Write A
fail e s = (s, err e)

abbrev pub lift : {A : Type 0} → Result FrameError A → Write A
lift r s = (s, r)

-- A write takes a prefix of what is offered, or fails.
unfoldable pub deliver : Answer → Bytes → Write ℕ
deliver refuses offered s = (record s { calls = s.calls + 1 }, err write_failed)
deliver (accepts n) offered s =
    let n' = min n (length offered) in
    (record s { out = s.out ++ take n' offered; calls = s.calls + 1 }, ok n')

module _ (peer : Peer) where
  -- `write_vectored` over the joined buffers.
  unfoldable pub write_vectored : Bytes → Write ℕ
  unfolding deliver
  write_vectored offered s = deliver (peer.answer s.calls) offered s

  -- What one round offers: the rest of both slices, or of the one that has a rest.
  unfoldable pub offered : Bytes → Bytes → ℕ → ℕ → Bytes
  offered header payload header_offset payload_offset =
      if ltb header_offset (length header)
      then (if ltb payload_offset (length payload)
          then drop header_offset header ++ drop payload_offset payload
          else drop header_offset header)
      else drop payload_offset payload

  unfoldable pub write_loop :
      (fuel : ℕ) (header payload : Bytes) (header_offset payload_offset writes : ℕ) → Write ℕ
  write_loop zero header payload header_offset payload_offset writes =
      if ltb header_offset (length header) || ltb payload_offset (length payload)
      then fail stuck
      else pure writes
  write_loop (suc fuel) header payload header_offset payload_offset writes =
      let remaining = length header - header_offset in
      let next = write_vectored (offered header payload header_offset payload_offset) >>= λ written.
      let whole = ltb written remaining in
      let rest =
        write_loop fuel header payload (if whole then header_offset + written else length header)
          (if whole then payload_offset else payload_offset + (written - remaining)) (writes + 1) in
      if written == 0 then fail write_zero else rest in
      if ltb header_offset (length header) || ltb payload_offset (length payload)
      then next
      else pure writes

  unfoldable pub write_all_vectored_payload : Bytes → Bytes → Write ℕ
  write_all_vectored_payload header payload =
      write_loop (length header + length payload) header payload 0 0 0
