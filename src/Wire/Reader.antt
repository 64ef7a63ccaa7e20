-- ===== src/Wire/Reader.antt =====
-- `FrameReader::read_from` of crates/ssh-proxy-protocol/src/protocol.rs.
pub mod Framed
use ssh_proxy.Base.{
  ℕ, zero, suc, ◌-◌, ◌≡◌, refl, false, List, [], ◌∷◌, Option, none, some, Result, ok, err, ◌>>=◌,
  ltb, ◌==◌, if◌then◌else◌, get_elem?, take, drop, unwrap_or,
}
use ssh_proxy.Wire.Bytes.{Bytes, from_be}
use ssh_proxy.Wire.Cursor.{FrameError, stuck, header_read, payload_read, frame_too_large}
use ssh_proxy.Wire.Frame.{Frame, chunk, decode, max_frame}
use ssh_proxy.Wire.Source.{Source, unexpected_eof, read_failed, read_exact, read_chunks}

abbrev slice : ℕ → ℕ → Bytes → Bytes
slice lo hi xs = take (hi - lo) (drop lo xs)

pub read_data_frame : (ℕ → ℕ) → ℕ → ℕ → Source → Result FrameError (Frame × Source)
read_data_frame sizes id len s = do
  (payload, s') ← read_chunks len sizes 0 len [] s
  ok (chunk id payload, s')

pub read_structured_frame : ℕ → ℕ → ℕ → Source → Result FrameError (Frame × Source)
read_structured_frame ty id len s = elim (read_exact len s) [
  | err e ↦ err payload_read
  | ok (payload, s') ↦ (decode ty id payload >>= λ frame. ok (frame, s'))
]

abbrev some_frame : Result FrameError (Frame × Source) → Result FrameError (Option Frame × Source)
some_frame (ok (frame, s)) = ok (some frame, s)
some_frame (err e) = err e

read_body : (ℕ → ℕ) → Bytes → Source → Result FrameError (Option Frame × Source)
read_body sizes header s =
    let ty = unwrap_or (get_elem? header 0) 0 in
    let id = from_be 0 (slice 1 5 header) in
    let len = from_be 0 (slice 5 9 header) in
    if ltb max_frame len
    then err (frame_too_large len)
    else some_frame
        (if ty == 3 then read_data_frame sizes id len s else read_structured_frame ty id len s)

-- A connection that ends before a whole header is the end of the frames, not an error.
pub read_from : (ℕ → ℕ) → Source → Result FrameError (Option Frame × Source)
unfolding read_body
read_from sizes s = elim (read_exact 9 s) [
  | err unexpected_eof ↦ ok (none, record s { ahead = [] })
  | err read_failed ↦ err header_read
  | ok (header, s') ↦ read_body sizes header s'
]

abbrev collect :
    Result FrameError (Option Frame × Source)
    → (Source → Result FrameError (List Frame))
    → Result FrameError (List Frame)
collect (err e) next = err e
collect (ok (none, s)) next = ok []
collect (ok (some frame, s)) next = next s >>= λ frames. ok (frame ∷ frames)

-- `while let Some(frame) = reader.read_from(..).await?`, with the frames in order. `sizes n` is how
-- the octets of a frame arrive when `n` reads are left.
unfoldable pub read_frames : ℕ → (ℕ → ℕ → ℕ) → Source → Result FrameError (List Frame)
read_frames zero sizes s = err stuck
read_frames (suc n) sizes s = collect (read_from (sizes n) s) (λ s'. read_frames n sizes s')

pub read_from_end :
    (sizes : ℕ → ℕ)
    → read_from sizes (record { ahead = []; broken = false })
      ≡ ok (none, record { ahead = []; broken = false })
unfolding read_from read_exact
read_from_end sizes = refl
