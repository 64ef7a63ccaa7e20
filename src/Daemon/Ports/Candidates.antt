-- ===== src/Daemon/Ports/Candidates.antt =====
-- Which ports are tried: crates/ssh-proxy-daemon/src/session_spec.rs.
use ssh_proxy.Base.{
  ℕ, zero, suc, ◌+◌, ◌-◌, ◌<◌, ◌≤◌, ◌≡◌, refl, List, [], ◌∷◌, Option, none, some, min, ltb, length,
  get_elem?, if◌then◌else◌, arith,
}
use ssh_proxy.Wire.Bytes.{u16_mod}
use ssh_proxy.Daemon.Ports.{
  RemotePortPolicy, candidate_count, collect_ports, or_preferred, candidates,
}

-- The port at a place of a run of ports that starts at `first`.
abbrev pub port_at : ℕ → ℕ → ℕ → Option ℕ
port_at first count k = if ltb k (min count (u16_mod - first)) then some (first + k) else none

get_elem?-collect_ports :
    (preferred rounds offset k : ℕ)
    → get_elem? (collect_ports preferred rounds offset) k ≡ port_at (preferred + offset) rounds k
unfolding collect_ports
get_elem?-collect_ports preferred zero offset k = ground arith
get_elem?-collect_ports preferred (suc rounds) offset zero = ground arith
get_elem?-collect_ports preferred (suc rounds) offset (suc k) =
    ground (arith, get_elem?-collect_ports preferred rounds (offset + 1) k)

candidate_count_ge_1 : (r : RemotePortPolicy) → 1 ≤ candidate_count r
candidate_count_ge_1 r = ground arith

-- A list with a first element stays as it is.
or_preferred_same :
    (preferred p : ℕ) (ports : List ℕ)
    → get_elem? ports 0 ≡ some p
    → (or_preferred preferred ports ≡ ports) × (1 ≤ length ports)
or_preferred_same preferred p [] e = cc
or_preferred_same preferred p (port ∷ ports) e = (refl, omega arith)

-- The candidates are the preferred port and the ports that follow it, in order, as many as the policy
-- asks for but none past 65535; there is one at least.
pub get_elem?-candidates :
    (r : RemotePortPolicy) (k : ℕ)
    → r.preferred < u16_mod
    → (get_elem? (candidates r) k ≡ port_at r.preferred (candidate_count r) k)
      × (1 ≤ length (candidates r))
unfolding candidates
get_elem?-candidates r k lt =
    let ports = collect_ports r.preferred (candidate_count r) 0 in
    let first : get_elem? ports 0 ≡ some (r.preferred + 0 + 0) = ground (
      arith,
      get_elem?-collect_ports r.preferred (candidate_count r) 0 0,
      candidate_count_ge_1 r,
    ) in
    let (same, long) = or_preferred_same r.preferred (r.preferred + 0 + 0) ports first in
    (
      rw same (ground (arith, get_elem?-collect_ports r.preferred (candidate_count r) 0 k)),
      rw same long,
    )
