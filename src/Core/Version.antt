-- ===== src/Core/Version.antt =====
-- Versions and features of two peers: crates/ssh-proxy-protocol/src/protocol_core/version.rs. A check
-- stands for its JSON object, without the inputs that it repeats; a feature set is its names.
pub mod Agreement
use Prim.Native.String.{String, ◌++◌}
use text.Mathlib.Text.{◌==◌}
use ssh_proxy.Base.{
  ℕ, Bool, true, false, not, ◌&&◌, ◌||◌, List, [], ◌∷◌, Option, none, some, is_some, ltb, leb,
  filter, if◌then◌else◌,
}
use ssh_proxy.Base.{◌==◌ as ◌=ℕ=◌}
use ssh_proxy.Route.Text.{one_of}

-- `remote.is_supported_by(local)` and `remote.matches_required(local)`.
abbrev pub is_supported_by : ℕ → ℕ → Bool
is_supported_by version supported = leb version supported

abbrev pub matches_required : ℕ → ℕ → Bool
matches_required version required = version =ℕ= required

-- Names of the first that the second lacks.
unfoldable pub missing_from : List String → List String → List String
missing_from features remote = filter (λ f. not (one_of f remote)) features

unfoldable pub common_with : List String → List String → List String
common_with features remote = filter (λ f. one_of f remote) features

abbrev pub is_empty : List String → Bool
is_empty [] = true
is_empty (x ∷ xs) = false

abbrev supports_all : List String → List String → Bool
supports_all features required = is_empty (missing_from required features)

pub data VersionCompatibility : Type 0 where
  compatible upgrade_local upgrade_remote : VersionCompatibility
  incompatible : String → VersionCompatibility

pub record Check : Type 0 where
  pub name : String
  pub passed : Bool
  pub severity : String
  pub message : String

pub record ProtocolCompatibilityReport : Type 0 where
  pub checks : List Check
  pub compatible : Bool
  pub missing_features : List String
  pub common_features : List String

abbrev info_check : String → String → Check
info_check name message = record {
  name = name;
  passed = true;
  severity = "info";
  message = message;
}

abbrev error_check : String → String → Check
error_check name message = record {
  name = name;
  passed = false;
  severity = "error";
  message = message;
}

unfoldable pub control_api_check : ℕ → Option ℕ → Check
control_api_check local (some remote) =
    if leb remote local
    then info_check "control_api_version" "remote control API is supported"
    else error_check "control_api_version" "remote control API is newer than this binary supports"
control_api_check local none =
    error_check "control_api_version" "remote descriptor does not advertise a control API version"

unfoldable pub peer_protocol_check : ℕ → Option ℕ → Check
peer_protocol_check local (some remote) =
    if remote =ℕ= local
    then info_check "peer_protocol_version" "remote peer data protocol matches"
    else if ltb local remote
    then error_check "peer_protocol_version"
        "remote peer data protocol is newer than this binary supports"
    else error_check "peer_protocol_version"
        "remote peer data protocol is older than this binary requires"
peer_protocol_check local none =
    error_check "peer_protocol_version"
      "remote descriptor does not advertise a peer data protocol version"

unfoldable pub feature_check : List String → Check
feature_check missing =
    if is_empty missing
    then info_check "features" "remote advertises all locally required data-plane features"
    else error_check "features" "remote is missing required data-plane features"

abbrev pub is_no_error : Check → Bool
is_no_error c = not (c.severity == "error")

abbrev all_pass : List Check → Bool
all_pass [] = true
all_pass (c ∷ cs) = is_no_error c && all_pass cs

unfoldable pub protocol_compatibility_report :
    ℕ → Option ℕ → ℕ → Option ℕ → List String → List String → ProtocolCompatibilityReport
unfolding control_api_check peer_protocol_check feature_check
protocol_compatibility_report local_control remote_control local_peer remote_peer local_features
      remote_features =
    let missing_features = missing_from local_features remote_features in
    let checks : List Check =
      control_api_check local_control remote_control
      ∷ peer_protocol_check local_peer remote_peer
      ∷ feature_check missing_features
      ∷ [] in
    record {
      checks = checks;
      compatible = all_pass checks;
      missing_features = missing_features;
      common_features = common_with local_features remote_features;
    }

-- `missing.join(", ")`.
abbrev join : List String → String
join [] = ""
join (x ∷ []) = x
join (x ∷ y ∷ ys) = x ++ ", " ++ join (y ∷ ys)

-- `is_some_and`.
abbrev is_some_and : Option ℕ → (ℕ → Bool) → Bool
is_some_and (some n) p = p n
is_some_and none p = false

unfoldable pub classify_protocol_compatibility :
    ℕ → Option ℕ → ℕ → Option ℕ → List String → List String → VersionCompatibility
classify_protocol_compatibility local_control remote_control local_peer remote_peer local_features
      remote_features =
    let missing = missing_from local_features remote_features in
    if is_some_and remote_control (λ remote. not (is_supported_by remote local_control))
    then upgrade_local
    else if is_some_and remote_peer (λ remote. ltb local_peer remote)
    then upgrade_local
    else if not (is_some remote_control) || not (is_some remote_peer)
    then upgrade_remote
    else if is_some_and remote_peer (λ remote. not (matches_required remote local_peer))
    then upgrade_remote
    else if not (is_empty missing)
    then incompatible ("remote is missing required features: " ++ join missing)
    else compatible
