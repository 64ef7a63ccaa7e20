-- ===== src/Wire/Source.antt =====
-- The reading half of a connection: what `AsyncRead` gives to `FrameReader` of
-- crates/ssh-proxy-protocol/src/protocol.rs.
pub mod Chunks
use ssh_proxy.Base.{
  ℕ, zero, suc, ◌+◌, ◌-◌, Bool, true, false, ◌&&◌, ◌==◌, ◌>>=◌, Result, ok, err, leb, ltb,
  if◌then◌else◌, length, take, drop, ◌++◌, min,
}
use ssh_proxy.Wire.Bytes.{Bytes}
use ssh_proxy.Wire.Cursor.{FrameError, payload_read, payload_early_eof, stuck}

-- The octets that are still to arrive. Behind them the connection ends, or breaks with an error.
pub record Source : Type 0 where
  pub ahead : Bytes
  pub broken : Bool

pub data Fault : Type 0 where
  unexpected_eof read_failed : Fault

-- `read_exact`.
unfoldable pub read_exact : ℕ → Source → Result Fault (Bytes × Source)
read_exact n s =
    if leb n (length s.ahead)
    then ok (take n s.ahead, record s { ahead = drop n s.ahead })
    else err (if s.broken then read_failed else unexpected_eof)

-- One `take(remaining).read_buf(..)`: up to `1 + size` octets of those that are ahead, none at the
-- end of the connection.
unfoldable pub read_buf : ℕ → ℕ → Source → Result FrameError (Bytes × Source)
read_buf remaining size s =
    let n = min remaining (min (suc size) (length s.ahead)) in
    if s.broken && (length s.ahead == 0)
    then err payload_read
    else ok (take n s.ahead, record s { ahead = drop n s.ahead })

-- The loop of `read_data_frame`. `sizes k` is how much the k-th read finds ready.
unfoldable pub read_chunks :
    (fuel : ℕ) (sizes : ℕ → ℕ) (k len : ℕ) (got : Bytes) (s : Source)
    → Result FrameError (Bytes × Source)
read_chunks zero sizes k len got s =
    if ltb (length got) len then err stuck else ok (take len got, s)
read_chunks (suc fuel) sizes k len got s =
    let next = read_buf (len - length got) (sizes k) s >>= λ (read, s'). elim (length read == 0) [
      | true ↦ err payload_early_eof
      | false ↦ read_chunks fuel sizes (k + 1) len (got ++ read) s'
    ] in
    if ltb (length got) len then next else ok (take len got, s)
