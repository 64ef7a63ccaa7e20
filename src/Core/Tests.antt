-- ===== src/Core/Tests.antt =====
-- The protocol core at concrete inputs.
use ssh_proxy.Base.{◌≡◌, ◌⊎◌, refl, inr, false, [], ◌∷◌, ◌++◌, Option, some, ok, err, arith}
use ssh_proxy.Wire.Bytes.{Bytes}
use ssh_proxy.Core.Control.{
  invalid_magic, unsupported_version, write_json_control_frame, read_json_control_frame,
}
use ssh_proxy.Core.Control.Framed.{
  Decodes, read_json_control_frame-write_json_control_frame, read_json_control_frame_refused,
}
use ssh_proxy.Core.Version.{
  protocol_compatibility_report, classify_protocol_compatibility, missing_from,
}
use ssh_proxy.Core.Version.Agreement.{protocol_compatibility_report-classify}

-- A value that is its own encoding.
abbrev encoded : Bytes → Option Bytes
encoded value = some value

encoded-Decodes : Decodes encoded encoded
encoded-Decodes value payload e = cc

abbrev magic : Bytes
magic = 0x53 ∷ 0x50 ∷ 0x58 ∷ 0x31 ∷ []

abbrev frame : Bytes
frame = magic ++ 0 ∷ 1 ∷ 0 ∷ 0 ∷ 0 ∷ 2 ∷ 0x7b ∷ 0x7d ∷ []

frame_written : write_json_control_frame encoded magic 1 4096 (0x7b ∷ 0x7d ∷ []) ≡ ok frame
unfolding write_json_control_frame
frame_written = refl

read_json_control_frame-write_json_control_frame_example :
    read_json_control_frame encoded magic 1 4096 (frame ++ 7 ∷ []) ≡ ok (0x7b ∷ 0x7d ∷ [], 7 ∷ [])
read_json_control_frame-write_json_control_frame_example =
    read_json_control_frame-write_json_control_frame encoded encoded magic 1 4096 (0x7b ∷ 0x7d ∷ [])
      frame (7 ∷ []) encoded-Decodes refl (omega arith) (omega arith) frame_written

read_json_control_frame_refused_example :
    (read_json_control_frame encoded magic 2 4096 (frame ++ []) ≡ err invalid_magic)
    ⊎ (read_json_control_frame encoded magic 2 4096 (frame ++ []) ≡ err (unsupported_version 1))
read_json_control_frame_refused_example =
    read_json_control_frame_refused encoded encoded magic magic 1 2 4096 4096 (0x7b ∷ 0x7d ∷ [])
      frame [] refl (omega arith) frame_written (inr (refl, λ e. omega arith))

protocol_compatibility_report-classify_example :
    (protocol_compatibility_report 1
      (some 1)
      1
      (some 1)
      ("frames-v1" ∷ [])
      ("other" ∷ [])).compatible
    ≡ false
unfolding classify_protocol_compatibility missing_from
protocol_compatibility_report-classify_example =
    protocol_compatibility_report-classify 1 (some 1) 1 (some 1) ("frames-v1" ∷ []) ("other" ∷ [])
