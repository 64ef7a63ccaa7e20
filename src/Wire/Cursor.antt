-- ===== src/Wire/Cursor.antt =====
-- `Cursor` of crates/ssh-proxy-protocol/src/protocol.rs: a slice with a read position.
pub mod Reads
pub mod Typed
use ssh_proxy.Base.{
  ℕ, ◌+◌, ◌-◌, Bool, Result, ok, err, ◌>>=◌, ensure, ok_or, leb, ltb, ◌==◌, if◌then◌else◌, length,
  get_elem?, take, drop,
}
use ssh_proxy.Wire.Bytes.{Bytes, usize_mod, from_be, is_utf8}

pub data FrameError : Type 0 where
  payload_truncated payload_length_overflow invalid_utf8 string_too_long : FrameError
  trailing_bytes unknown_frame_type frame_too_large : ℕ → FrameError
  header_read payload_read payload_early_eof : FrameError
  write_zero write_failed : FrameError
  -- Not of the source: a loop of the model ran out of fuel.
  stuck : FrameError

pub record Cursor : Type 0 where
  pub bytes : Bytes
  pub pos : ℕ

unfoldable pub new : Bytes → Cursor
new bytes = record { bytes = bytes; pos = 0 }

abbrev Read : Type 0 → Type 0
Read A = Result FrameError (A × Cursor)

unfoldable pub read_u8 : Cursor → Read ℕ
read_u8 c = do
  value ← ok_or (get_elem? c.bytes c.pos) payload_truncated
  ok (value, record c { pos = c.pos + 1 })

-- `bytes.get(pos..end)`, with `end` the checked sum.
unfoldable pub read_bytes : Cursor → ℕ → Read Bytes
read_bytes c len =
    let stop = c.pos + len in
    if ltb stop usize_mod
    then (if leb stop (length c.bytes)
        then ok (take len (drop c.pos c.bytes), record c { pos = stop })
        else err payload_truncated)
    else err payload_length_overflow

unfoldable pub read_u16 : Cursor → Read ℕ
read_u16 c = do (bytes, c') ← read_bytes c 2; ok (from_be 0 bytes, c')

unfoldable pub read_u32 : Cursor → Read ℕ
read_u32 c = do (bytes, c') ← read_bytes c 4; ok (from_be 0 bytes, c')

unfoldable pub read_string : Cursor → Read Bytes
read_string c = do
  (len, c₁) ← read_u16 c
  (bytes, c₂) ← read_bytes c₁ len
  if is_utf8 bytes then ok (bytes, c₂) else err invalid_utf8

unfoldable pub is_empty : Cursor → Bool
is_empty c = c.pos == length c.bytes

unfoldable pub ensure_empty : Cursor → Result FrameError (Unit {0})
unfolding is_empty
ensure_empty c = ensure (is_empty c) (trailing_bytes (length c.bytes - c.pos))
