-- ===== src/Daemon/Job.antt =====
-- The jobs of the daemon: crates/ssh-proxy-daemon/src/job.rs. The clock's seconds are an argument of what
-- reads it; texts are octets.
pub mod Invariant
use ssh_proxy.Base.{ℕ, Bool, true, false, ◌==◌, Option, none, some, min}
use ssh_proxy.Wire.Bytes.{Bytes, ascii}
use ssh_proxy.Core.Repair.{RepairAction, action_for_blocker}

pub data DaemonJobState : Type 0 where
  queued running waiting_retry healthy failed cancelled : DaemonJobState

abbrev pub is_terminal : DaemonJobState → Bool
is_terminal healthy = true
is_terminal failed = true
is_terminal cancelled = true
is_terminal queued = false
is_terminal running = false
is_terminal waiting_retry = false

pub data DaemonJobPhase : Type 0 where
  queued_phase reconciling resolve_target validate_local_proxy select_remote_port : DaemonJobPhase
  ensure_local_proxy ensure_peer inspect_peer_descriptor dependency_check : DaemonJobPhase
  stage_remote_peer write_peer_config install_peer_service start_peer_service : DaemonJobPhase
  peer_health_probe record_peer ensure_transport plan_route start_route : DaemonJobPhase
  wait_route_ready verify_remote_port apply_remote_settings health_monitoring : DaemonJobPhase
  stage_update verify_update switch_binary restart_daemon rollback : DaemonJobPhase
  healthy_phase failed_phase cancelled_phase : DaemonJobPhase

pub record DaemonJobRecord : Type 0 where
  pub id : Bytes
  pub kind : Bytes
  pub state : DaemonJobState
  pub phase : DaemonJobPhase
  pub progress : ℕ
  pub blocker : Option Bytes
  pub next_action : Option Bytes
  pub repair_action : Option RepairAction
  pub last_error : Option Bytes
  pub retry_after_ms : Option ℕ
  pub recovery_attempts : ℕ
  pub target : Option Bytes
  pub workspace_id : Option Bytes
  pub route_id : Option Bytes
  pub remote_url : Option Bytes
  pub created_at_unix : ℕ
  pub updated_at_unix : ℕ

abbrev pub new_job : ℕ → Bytes → Bytes → DaemonJobRecord
new_job now id kind = record {
  id = id;
  kind = kind;
  state = queued;
  phase = queued_phase;
  progress = 0;
  blocker = none;
  next_action = none;
  repair_action = none;
  last_error = none;
  retry_after_ms = none;
  recovery_attempts = 0;
  target = none;
  workspace_id = none;
  route_id = none;
  remote_url = none;
  created_at_unix = now;
  updated_at_unix = now;
}

abbrev pub kept_error : DaemonJobState → Option Bytes → Option Bytes
kept_error failed error = error
kept_error _ error = none

abbrev pub kept_retry : DaemonJobState → Option ℕ → Option ℕ
kept_retry waiting_retry retry = retry
kept_retry _ retry = none

unfoldable pub transition :
    ℕ → DaemonJobState → DaemonJobPhase → ℕ → DaemonJobRecord → DaemonJobRecord
transition now state phase progress j = record j {
  state = state;
  phase = phase;
  progress = min progress 100;
  updated_at_unix = now;
  last_error = kept_error state j.last_error;
  retry_after_ms = kept_retry state j.retry_after_ms;
}

abbrev pub with_target : Bytes → DaemonJobRecord → DaemonJobRecord
with_target target j = record j { target = some target }

abbrev pub with_workspace : Option Bytes → DaemonJobRecord → DaemonJobRecord
with_workspace workspace_id j = record j { workspace_id = workspace_id }

abbrev pub with_route : Bytes → DaemonJobRecord → DaemonJobRecord
with_route route_id j = record j { route_id = some route_id }

abbrev pub with_remote_url : Option Bytes → DaemonJobRecord → DaemonJobRecord
with_remote_url remote_url j = record j { remote_url = remote_url }

abbrev pub with_next_action : Bytes → DaemonJobRecord → DaemonJobRecord
with_next_action next_action j = record j { next_action = some next_action }

abbrev pub with_retry_after_ms : ℕ → DaemonJobRecord → DaemonJobRecord
with_retry_after_ms retry_after_ms j = record j { retry_after_ms = some retry_after_ms }

abbrev pub with_recovery_attempts : ℕ → DaemonJobRecord → DaemonJobRecord
with_recovery_attempts recovery_attempts j = record j { recovery_attempts = recovery_attempts }

abbrev pub repair_of : Option Bytes → Option RepairAction
repair_of none = none
repair_of (some blocker) = action_for_blocker blocker

unfoldable pub fail_with : ℕ → Bytes → Option Bytes → DaemonJobRecord → DaemonJobRecord
fail_with now error blocker j = record j {
  state = failed;
  phase = failed_phase;
  progress = 100;
  last_error = some error;
  repair_action = repair_of blocker;
  blocker = blocker;
  retry_after_ms = none;
  updated_at_unix = now;
}

abbrev pub job_health : DaemonJobState → Bytes
job_health healthy = ascii "healthy"
job_health failed = ascii "failed"
job_health cancelled = ascii "cancelled"
job_health queued = ascii "starting"
job_health running = ascii "starting"
job_health waiting_retry = ascii "starting"

-- The name that serde gives to a state.
abbrev pub state_name : DaemonJobState → Bytes
state_name queued = ascii "queued"
state_name running = ascii "running"
state_name waiting_retry = ascii "waiting_retry"
state_name healthy = ascii "healthy"
state_name failed = ascii "failed"
state_name cancelled = ascii "cancelled"

abbrev pub phase_name : DaemonJobPhase → Bytes
phase_name queued_phase = ascii "queued"
phase_name reconciling = ascii "reconciling"
phase_name resolve_target = ascii "resolve_target"
phase_name validate_local_proxy = ascii "validate_local_proxy"
phase_name select_remote_port = ascii "select_remote_port"
phase_name ensure_local_proxy = ascii "ensure_local_proxy"
phase_name ensure_peer = ascii "ensure_peer"
phase_name inspect_peer_descriptor = ascii "inspect_peer_descriptor"
phase_name dependency_check = ascii "dependency_check"
phase_name stage_remote_peer = ascii "stage_remote_peer"
phase_name write_peer_config = ascii "write_peer_config"
phase_name install_peer_service = ascii "install_peer_service"
phase_name start_peer_service = ascii "start_peer_service"
phase_name peer_health_probe = ascii "peer_health_probe"
phase_name record_peer = ascii "record_peer"
phase_name ensure_transport = ascii "ensure_transport"
phase_name plan_route = ascii "plan_route"
phase_name start_route = ascii "start_route"
phase_name wait_route_ready = ascii "wait_route_ready"
phase_name verify_remote_port = ascii "verify_remote_port"
phase_name apply_remote_settings = ascii "apply_remote_settings"
phase_name health_monitoring = ascii "health_monitoring"
phase_name stage_update = ascii "stage_update"
phase_name verify_update = ascii "verify_update"
phase_name switch_binary = ascii "switch_binary"
phase_name restart_daemon = ascii "restart_daemon"
phase_name rollback = ascii "rollback"
phase_name healthy_phase = ascii "healthy"
phase_name failed_phase = ascii "failed"
phase_name cancelled_phase = ascii "cancelled"
