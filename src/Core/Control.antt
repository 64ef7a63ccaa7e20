-- ===== src/Core/Control.antt =====
-- JSON control frames: crates/ssh-proxy-protocol/src/protocol_core/codec.rs. The JSON encoder and
-- decoder belong to serde_json and are arguments. A writer is the octets that it is given, a reader the
-- octets that are still to come and an end.
pub mod Framed
use ssh_proxy.Base.{
  ℕ, ◌≡◌, Bool, true, false, ◌&&◌, not, List, [], ◌∷◌, ◌++◌, Option, none, some, Result, ok, err,
  ◌>>=◌, ◌>>◌, ensure, ok_or, ltb, leb, ◌==◌, ◌%◌, length, take, drop, if◌then◌else◌,
}
use ssh_proxy.Wire.Bytes.{Bytes, u16_be, u32_be, u32_mod, from_be}

pub data ControlError : Type 0 where
  encode_failed invalid_magic decode_failed : ControlError
  magic_unread version_unread length_unread payload_unread : ControlError
  unsupported_version too_large : ℕ → ControlError

-- `read_exact`.
unfoldable pub read_exact : ControlError → ℕ → Bytes → Result ControlError (Bytes × Bytes)
read_exact e n s = if leb n (length s) then ok (take n s, drop n s) else err e

-- `==` on slices.
unfoldable pub same_octets : Bytes → Bytes → Bool
same_octets [] [] = true
same_octets (a ∷ s) (b ∷ t) = (a == b) && same_octets s t
same_octets _ _ = false

module _ {T : Type 0} (to_vec : T → Option Bytes) where
  unfoldable pub write_json_control_frame : Bytes → ℕ → ℕ → T → Result ControlError Bytes
  write_json_control_frame magic version max_len value = do
    payload ← ok_or (to_vec value) encode_failed
    ensure (not (ltb max_len (length payload))) (too_large (length payload))
    ok (magic ++ (u16_be version ++ (u32_be (length payload % u32_mod) ++ payload)))

module _ {T : Type 0} (from_slice : Bytes → Option T) where
  -- The value, and what follows the frame.
  unfoldable pub read_json_control_frame : Bytes → ℕ → ℕ → Bytes → Result ControlError (T × Bytes)
  unfolding read_exact same_octets
  read_json_control_frame magic expected_version max_len s = do
    (actual_magic, s₁) ← read_exact magic_unread 4 s
    ensure (same_octets actual_magic magic) invalid_magic
    (version, s₂) ← read_exact version_unread 2 s₁
    ensure (from_be 0 version == expected_version) (unsupported_version (from_be 0 version))
    (len, s₃) ← read_exact length_unread 4 s₂
    ensure (not (ltb max_len (from_be 0 len))) (too_large (from_be 0 len))
    (payload, rest) ← read_exact payload_unread (from_be 0 len) s₃
    value ← ok_or (from_slice payload) decode_failed
    ok (value, rest)
