-- ===== src/Core/Version/Agreement.antt =====
-- The two judgements on a peer agree: crates/ssh-proxy-protocol/src/protocol_core/version.rs.
use Prim.Native.String.{String}
use ssh_proxy.Base.{
  ℕ, ◌≡◌, refl, Bool, true, false, Bool-cases, inl, inr, List, Option, none, some, ltb, leb, arith,
}
use ssh_proxy.Base.{◌==◌}
use ssh_proxy.Core.Version.{
  VersionCompatibility, compatible, is_empty, missing_from, control_api_check, peer_protocol_check,
  feature_check, protocol_compatibility_report, classify_protocol_compatibility,
}

abbrev pub is_compatible : VersionCompatibility → Bool
is_compatible compatible = true
is_compatible _ = false

-- The report calls a peer compatible exactly if the classification does.
pub protocol_compatibility_report-classify :
    (local_control : ℕ) (remote_control : Option ℕ) (local_peer : ℕ) (remote_peer : Option ℕ)
    (local_features remote_features : List String)
    → (protocol_compatibility_report local_control remote_control local_peer remote_peer
        local_features remote_features).compatible
      ≡ is_compatible (
          classify_protocol_compatibility local_control remote_control local_peer remote_peer
            local_features remote_features)
unfolding protocol_compatibility_report classify_protocol_compatibility control_api_check
    peer_protocol_check feature_check
protocol_compatibility_report-classify lc none lp none lf rf = refl
protocol_compatibility_report-classify lc none lp (some rp) lf rf = elim (Bool-cases (ltb lp rp)) [
  | inl newer ↦ rw newer refl
  | inr older ↦ rw older refl
]
protocol_compatibility_report-classify lc (some rc) lp none lf rf = elim (Bool-cases (leb rc lc)) [
  | inl supported ↦ rw supported refl
  | inr newer ↦ rw newer refl
]
protocol_compatibility_report-classify lc (some rc) lp (some rp) lf rf =
    elim (Bool-cases (leb rc lc)) [
      | inr newer ↦ rw newer refl
      | inl supported ↦ elim (Bool-cases (rp == lp)) [
        | inl same ↦
            let level : ltb lp rp ≡ false = ground arith in
            elim (Bool-cases (is_empty (missing_from lf rf))) [
              | inl full ↦ rw (supported, same, level, full) refl
              | inr lacks ↦ rw (supported, same, level, lacks) refl
            ]
        | inr other ↦ elim (Bool-cases (ltb lp rp)) [
          | inl above ↦ rw (supported, other, above) refl
          | inr below ↦ rw (supported, other, below) refl
        ]
      ]
    ]
