-- ===== src/Daemon/Job/Invariant.antt =====
-- What holds of a job at any time: crates/ssh-proxy-daemon/src/job.rs.
use ssh_proxy.Base.{ℕ, ◌≤◌, ◌≡◌, ◌⊎◌, Option, none}
use ssh_proxy.Wire.Bytes.{Bytes}
use ssh_proxy.Daemon.Job.{
  DaemonJobState, waiting_retry, failed, DaemonJobPhase, DaemonJobRecord, new_job, transition,
  with_target, with_workspace, with_route, with_remote_url, with_next_action, with_retry_after_ms,
  with_recovery_attempts, repair_of, fail_with,
}

-- The records that the calls make, at any times. A retry is set where the job waits for one.
pub data Reaches : DaemonJobRecord → Type 0 where
  starts : (now : ℕ) (id kind : Bytes) → Reaches (new_job now id kind)
  moves :
      (now : ℕ) (state : DaemonJobState) (phase : DaemonJobPhase) (progress : ℕ)
      {j : DaemonJobRecord}
      → Reaches j
      → Reaches (transition now state phase progress j)
  fails :
      (now : ℕ) (error : Bytes) (blocker : Option Bytes) {j : DaemonJobRecord}
      → Reaches j
      → Reaches (fail_with now error blocker j)
  sets_target : (target : Bytes) {j : DaemonJobRecord} → Reaches j → Reaches (with_target target j)
  sets_workspace :
      (workspace : Option Bytes) {j : DaemonJobRecord}
      → Reaches j
      → Reaches (with_workspace workspace j)
  sets_route : (route : Bytes) {j : DaemonJobRecord} → Reaches j → Reaches (with_route route j)
  sets_url :
      (url : Option Bytes) {j : DaemonJobRecord} → Reaches j → Reaches (with_remote_url url j)
  sets_next_action :
      (action : Bytes) {j : DaemonJobRecord} → Reaches j → Reaches (with_next_action action j)
  sets_retry :
      (retry : ℕ) {j : DaemonJobRecord}
      → j.state ≡ waiting_retry
      → Reaches j
      → Reaches (with_retry_after_ms retry j)
  sets_attempts :
      (attempts : ℕ) {j : DaemonJobRecord} → Reaches j → Reaches (with_recovery_attempts attempts j)

pub record IsConsistent (j : DaemonJobRecord) : Type 0 where
  pub bounded : j.progress ≤ 100
  pub error_of : (j.last_error ≡ none) ⊎ (j.state ≡ failed)
  pub retry_of : (j.retry_after_ms ≡ none) ⊎ (j.state ≡ waiting_retry)
  pub repair_is : j.repair_action ≡ repair_of j.blocker
