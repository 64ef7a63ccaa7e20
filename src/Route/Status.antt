-- ===== src/Route/Status.antt =====
-- What the daemon says of a route: crates/ssh-proxy-route/src/status.rs. Texts are octets, and the clock's
-- seconds are an argument.
use ssh_proxy.Base.{ℕ, Bool, ◌||◌, ◌++◌, Option, none, some, if◌then◌else◌}
use ssh_proxy.Wire.Bytes.{Bytes, ascii}
use ssh_proxy.Http.Text.{equal}
use ssh_proxy.Daemon.Json.{Json}

pub record RouteStats : Type 0 where
  pub state : Bytes
  pub attempts : ℕ
  pub restart_count : ℕ
  pub last_error : Option Bytes
  pub last_event : Option Bytes
  pub started_at_unix : ℕ
  pub updated_at_unix : ℕ

abbrev pub default_route_stats : ℕ → RouteStats
default_route_stats now = record {
  state = ascii "starting";
  attempts = 0;
  restart_count = 0;
  last_error = none;
  last_event = some (ascii "route task created");
  started_at_unix = now;
  updated_at_unix = now;
}

pub record RouteReadinessReport : Type 0 where
  pub state : Bytes
  pub phase : Bytes
  pub retry_count : ℕ
  pub attempts : ℕ
  pub blocker : Option Bytes
  pub next_action : Bytes
  pub managed_by : Bytes
  pub job_id : Bytes
  pub route_id : Bytes
  pub peer : Option Bytes
  pub updated_at : ℕ

unfoldable pub readiness_phase : Bytes → Bytes
unfolding equal
readiness_phase state =
    if equal state (ascii "running")
    then ascii "ready"
    else if equal state (ascii "failed") || equal state (ascii "error")
    then ascii "failed"
    else if equal state (ascii "restarting")
    then ascii "starting"
    else if equal state (ascii "stopping") || equal state (ascii "stopped")
    then ascii "stopped"
    else ascii "starting"

unfoldable pub readiness_action : Bytes → Bytes
unfolding equal
readiness_action phase =
    if equal phase (ascii "ready")
    then ascii "none"
    else if equal phase (ascii "failed")
    then ascii "restart-route"
    else if equal phase (ascii "stopped")
    then ascii "remove-or-restart-route"
    else ascii "wait"

abbrev pub from_stats : Bytes → Option Bytes → RouteStats → RouteReadinessReport
from_stats id peer stats =
    let phase = readiness_phase stats.state in
    record {
      state = stats.state;
      phase = phase;
      retry_count = stats.restart_count;
      attempts = stats.attempts;
      blocker = stats.last_error;
      next_action = readiness_action phase;
      managed_by = ascii "current-daemon";
      job_id = ascii "route:" ++ id;
      route_id = id;
      peer = peer;
      updated_at = stats.updated_at_unix;
    }

pub record RouteTaskRecord : Type 0 where
  pub id : Bytes
  pub direction : Bytes
  pub detail : Bytes
  pub listen : Option Bytes
  pub peer : Option Bytes
  pub persist : Bool
  pub created_at_unix : ℕ
  pub fallback_reason : Option Bytes
  pub task_finished : Bool
  pub runtime : Json
  pub stats : RouteStats
  pub link : Json

pub record RouteStatusReport : Type 0 where
  pub id : Bytes
  pub direction : Bytes
  pub detail : Bytes
  pub listen : Option Bytes
  pub peer : Option Bytes
  pub persist : Bool
  pub created_at_unix : ℕ
  pub fallback_reason : Option Bytes
  pub task_finished : Bool
  pub runtime : Json
  pub state : Bytes
  pub last_error : Option Bytes
  pub started_at : ℕ
  pub updated_at : ℕ
  pub readiness : RouteReadinessReport
  pub managed_by : Bytes
  pub job_id : Bytes
  pub stats : RouteStats
  pub link : Json

abbrev pub to_status_report : RouteTaskRecord → RouteStatusReport
to_status_report r = record {
  id = r.id;
  direction = r.direction;
  detail = r.detail;
  listen = r.listen;
  peer = r.peer;
  persist = r.persist;
  created_at_unix = r.created_at_unix;
  fallback_reason = r.fallback_reason;
  task_finished = r.task_finished;
  runtime = r.runtime;
  state = r.stats.state;
  last_error = r.stats.last_error;
  started_at = r.stats.started_at_unix;
  updated_at = r.stats.updated_at_unix;
  readiness = from_stats r.id r.peer r.stats;
  managed_by = ascii "current-daemon";
  job_id = ascii "route:" ++ r.id;
  stats = r.stats;
  link = r.link;
}
