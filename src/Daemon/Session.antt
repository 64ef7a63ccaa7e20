-- ===== src/Daemon/Session.antt =====
-- The record of a proxy session: crates/ssh-proxy-daemon/src/session.rs. What is copied from
-- elsewhere as JSON (the settings, the route, the probe) is left out; the clock's seconds are an argument.
use ssh_proxy.Base.{ℕ, Bool, false, Option, none, some, unwrap_or}
use ssh_proxy.Wire.Bytes.{Bytes, ascii}
use ssh_proxy.Core.Repair.{RepairAction}
use ssh_proxy.Daemon.Job.{DaemonJobRecord, job_health, state_name, phase_name}

pub record RemoteSetupStatus : Type 0 where
  pub state : Bytes
  pub last_hash : Option Bytes
  pub desired_hash : Option Bytes
  pub applied_hash : Option Bytes
  pub drift_detected : Bool
  pub remote_url : Option Bytes
  pub verified : Bool
  pub next_action : Option Bytes
  pub last_error : Option Bytes
  pub updated_at_unix : ℕ

abbrev pub pending_setup : ℕ → RemoteSetupStatus
pending_setup now = record {
  state = ascii "pending";
  last_hash = none;
  desired_hash = none;
  applied_hash = none;
  drift_detected = false;
  remote_url = none;
  verified = false;
  next_action = some (ascii "wait_for_proxy_session_job");
  last_error = none;
  updated_at_unix = now;
}

abbrev pub required_setup : ℕ → RemoteSetupStatus
required_setup now = record (pending_setup now) {
  state = ascii "required";
  next_action = some (ascii "apply_remote_settings");
}

abbrev pub running_setup : ℕ → Option Bytes → Option Bytes → RemoteSetupStatus
running_setup now desired_hash remote_url = record (pending_setup now) {
  state = ascii "running";
  desired_hash = desired_hash;
  remote_url = remote_url;
  next_action = some (ascii "wait_for_remote_setup");
}

abbrev pub applied_setup : ℕ → Bytes → Bytes → Bytes → Bool → RemoteSetupStatus
applied_setup now desired_hash applied_hash remote_url verified = record {
  state = ascii "applied";
  last_hash = some applied_hash;
  desired_hash = some desired_hash;
  applied_hash = some applied_hash;
  drift_detected = false;
  remote_url = some remote_url;
  verified = verified;
  next_action = some (ascii "monitor_remote_setup_drift");
  last_error = none;
  updated_at_unix = now;
}

abbrev pub failed_setup : ℕ → Bytes → Option Bytes → Option Bytes → RemoteSetupStatus
failed_setup now error desired_hash remote_url = record (pending_setup now) {
  state = ascii "failed";
  desired_hash = desired_hash;
  remote_url = remote_url;
  next_action = some (ascii "rerun_apply_remote_settings");
  last_error = some error;
}

pub record ProxySessionRecord : Type 0 where
  pub session_id : Bytes
  pub target : Bytes
  pub workspace_id : Option Bytes
  pub job_id : Bytes
  pub route_id : Bytes
  pub local_proxy : Bytes
  pub remote_bind : Bytes
  pub remote_port : ℕ
  pub remote_url : Bytes
  pub state : Bytes
  pub phase : Bytes
  pub health : Bytes
  pub blocker : Option Bytes
  pub next_action : Option Bytes
  pub repair_action : Option RepairAction
  pub last_error : Option Bytes
  pub remote_setup : RemoteSetupStatus
  pub recovery_attempts : ℕ
  pub created_at_unix : ℕ
  pub updated_at_unix : ℕ

abbrev pub session_from_job :
    ℕ → Bytes → Bytes → Bytes → Bytes → Bytes → ℕ → Bytes → DaemonJobRecord → ProxySessionRecord
session_from_job now session_id target route_id local_proxy remote_bind remote_port remote_url j =
    record {
      session_id = session_id;
      target = target;
      workspace_id = j.workspace_id;
      job_id = j.id;
      route_id = route_id;
      local_proxy = local_proxy;
      remote_bind = remote_bind;
      remote_port = remote_port;
      remote_url = unwrap_or j.remote_url remote_url;
      state = state_name j.state;
      phase = phase_name j.phase;
      health = job_health j.state;
      blocker = j.blocker;
      next_action = j.next_action;
      repair_action = j.repair_action;
      last_error = j.last_error;
      remote_setup = pending_setup now;
      recovery_attempts = j.recovery_attempts;
      created_at_unix = j.created_at_unix;
      updated_at_unix = j.updated_at_unix;
    }
