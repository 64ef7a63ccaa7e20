-- ===== src/Daemon/Ports.antt =====
-- The remote ports that a proxy session tries: `RemotePortPolicy` of
-- crates/ssh-proxy-daemon/src/session_spec.rs.
pub mod Candidates
use ssh_proxy.Base.{ℕ, zero, suc, ◌+◌, Bool, true, false, List, [], ◌∷◌, max, ltb, if◌then◌else◌}
use ssh_proxy.Wire.Bytes.{u16_mod}

pub record RemotePortPolicy : Type 0 where
  pub preferred : ℕ
  pub auto_pick : Bool
  pub range_size : ℕ

-- `DEFAULT_REMOTE_PORT_RANGE_SIZE`.
abbrev default_remote_port_range_size : ℕ
default_remote_port_range_size = 20

abbrev pub new_policy : ℕ → RemotePortPolicy
new_policy preferred = record {
  preferred = preferred;
  auto_pick = true;
  range_size = default_remote_port_range_size;
}

abbrev pub fixed_policy : ℕ → RemotePortPolicy
fixed_policy preferred = record { preferred = preferred; auto_pick = false; range_size = 1 }

abbrev pub candidate_count : RemotePortPolicy → ℕ
candidate_count r = if r.auto_pick then max r.range_size 1 else 1

-- The loop: `checked_add` ends it past the last port.
unfoldable pub collect_ports : ℕ → ℕ → ℕ → List ℕ
collect_ports preferred zero offset = []
collect_ports preferred (suc rounds) offset =
    let rest = collect_ports preferred rounds (offset + 1) in
    if ltb (preferred + offset) u16_mod then (preferred + offset) ∷ rest else []

-- An empty list becomes the preferred port.
abbrev pub or_preferred : ℕ → List ℕ → List ℕ
or_preferred preferred [] = preferred ∷ []
or_preferred preferred (port ∷ ports) = port ∷ ports

unfoldable pub candidates : RemotePortPolicy → List ℕ
unfolding collect_ports
candidates r = or_preferred r.preferred (collect_ports r.preferred (candidate_count r) 0)
