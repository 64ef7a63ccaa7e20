-- ===== src/Core/Repair.antt =====
-- What repairs a blocker: crates/ssh-proxy-core/src/repair.rs. Texts are octets.
use ssh_proxy.Base.{ℕ, Bool, true, false, ◌||◌, Option, none, some, if◌then◌else◌}
use ssh_proxy.Wire.Bytes.{Bytes, ascii}
use ssh_proxy.Http.Text.{equal}

pub record RepairAction : Type 0 where
  pub id : Bytes
  pub label : Bytes
  pub kind : Bytes
  pub command : Option Bytes
  pub interactive : Bool
  pub requires_elevation : Bool
  pub retry_after_ms : Option ℕ
  pub message : Option Bytes

abbrev pub new_action : Bytes → Bytes → Bytes → RepairAction
new_action id label kind = record {
  id = id;
  label = label;
  kind = kind;
  command = none;
  interactive = false;
  requires_elevation = false;
  retry_after_ms = none;
  message = none;
}

abbrev with_command : Bytes → RepairAction → RepairAction
with_command command a = record a { command = some command }

abbrev made_interactive : Bool → RepairAction → RepairAction
made_interactive requires_elevation a = record a {
  interactive = true;
  requires_elevation = requires_elevation;
}

abbrev with_retry : ℕ → RepairAction → RepairAction
with_retry retry_after_ms a = record a { retry_after_ms = some retry_after_ms }

abbrev with_message : Bytes → RepairAction → RepairAction
with_message message a = record a { message = some message }

-- The actions, by the blockers that they repair.
abbrev pub install_daemon : RepairAction
install_daemon =
    with_message (ascii "Install or start the system daemon, then retry the proxy session.") (
      with_retry 1000 (
        made_interactive true (
          with_command (ascii "ssh_proxy daemon install --scope system --elevate") (
            new_action (ascii "install_daemon") (ascii "Install ssh_proxy daemon")
              (ascii "daemon_install")))))

abbrev pub repair_daemon_acl : RepairAction
repair_daemon_acl =
    with_message (ascii "Reinstall the daemon to repair the private control endpoint ACL.") (
      with_retry 1000 (
        made_interactive true (
          with_command (ascii "ssh_proxy daemon install --scope system --elevate") (
            new_action (ascii "repair_daemon_acl") (ascii "Repair daemon permissions")
              (ascii "daemon_reinstall")))))

abbrev pub reinstall_stale_daemon : RepairAction
reinstall_stale_daemon =
    with_message
      (ascii "The running daemon is using stale token-based control; reinstall to migrate it.")
      (made_interactive true (
        with_command (ascii "ssh_proxy daemon install --scope system --elevate") (
          new_action (ascii "reinstall_stale_daemon") (ascii "Repair stale daemon configuration")
            (ascii "daemon_reinstall"))))

abbrev pub run_elevated_install : RepairAction
run_elevated_install = with_message (ascii "This action needs an interactive elevation prompt.") (
    made_interactive true (
      with_command (ascii "ssh_proxy daemon install --scope system --elevate") (
        new_action (ascii "run_elevated_install") (ascii "Run elevated install")
          (ascii "daemon_install"))))

abbrev pub retry_daemon_install : RepairAction
retry_daemon_install =
    with_message (ascii "The elevated install was cancelled before the daemon could be repaired.") (
      made_interactive true (
        with_command (ascii "ssh_proxy daemon install --scope system --elevate") (
          new_action (ascii "retry_daemon_install") (ascii "Retry daemon install")
            (ascii "daemon_install"))))

abbrev pub restart_conflicting_route : RepairAction
restart_conflicting_route =
    with_message (ascii "Stop or adopt the existing daemon-owned route, then retry.") (
      with_command (ascii "ssh_proxy down --target <target> --json") (
        new_action (ascii "restart_conflicting_route") (ascii "Restart conflicting route")
          (ascii "route_repair")))

abbrev pub retry_remote_handoff : RepairAction
retry_remote_handoff =
    with_message
      (ascii "The daemon will retry once; collect a report if the remote port stays unavailable.")
      (with_retry 1000 (
        with_command (ascii "ssh_proxy doctor --json --report") (
          new_action (ascii "retry_remote_handoff") (ascii "Retry remote handoff")
            (ascii "proxy_session_retry"))))

abbrev pub repair_ssh_auth : RepairAction
repair_ssh_auth =
    with_message
      (ascii
        "Make the same identity available to the Windows OpenSSH agent/Pageant or use an unencrypted identity file.")
      (with_command (ascii "ssh-add <identity-file>") (
        new_action (ascii "repair_ssh_auth") (ascii "Repair SSH authentication")
          (ascii "ssh_auth")))

abbrev pub use_emergency_external_ssh : RepairAction
use_emergency_external_ssh =
    with_message
      (ascii
        "The Rust SSH path found an unsupported OpenSSH directive; external SSH must be explicitly allowed.")
      (new_action (ascii "use_emergency_external_ssh")
        (ascii "Use explicit external SSH compatibility") (ascii "emergency_compat"))

abbrev pub rerun_apply_settings : RepairAction
rerun_apply_settings =
    with_message (ascii "Rerun daemon-owned remote setup after checking the report.") (
      with_command (ascii "ssh_proxy vscode apply-settings --json") (
        new_action (ascii "rerun_apply_settings") (ascii "Apply remote settings again")
          (ascii "remote_setup")))

abbrev pub repair_remote_peer : RepairAction
repair_remote_peer =
    with_message (ascii "Collect a daemon report, then retry the daemon-owned remote peer install.")
      (with_retry 1000 (
        with_command (ascii "ssh_proxy doctor --json --report --target <target>") (
          new_action (ascii "repair_remote_peer") (ascii "Repair remote peer")
            (ascii "remote_peer_repair"))))

unfoldable pub action_for_blocker : Bytes → Option RepairAction
unfolding equal
action_for_blocker blocker =
    if equal blocker (ascii "daemon_unavailable")
    then some install_daemon
    else if equal blocker (ascii "daemon_pipe_access_denied")
    then some repair_daemon_acl
    else if equal blocker (ascii "node_control_token_required")
        || equal blocker (ascii "invalid_node_control_token")
    then some reinstall_stale_daemon
    else if equal blocker (ascii "requires_elevation")
    then some run_elevated_install
    else if equal blocker (ascii "cancelled_by_user")
    then some retry_daemon_install
    else if equal blocker (ascii "route_already_running_different_spec")
    then some restart_conflicting_route
    else if equal blocker (ascii "handoff_timeout")
        || equal blocker (ascii "remote_port_refused")
        || equal blocker (ascii "remote_port_not_ready")
    then some retry_remote_handoff
    else if equal blocker (ascii "ssh_auth_failed")
    then some repair_ssh_auth
    else if equal blocker (ascii "ssh_config_unsupported")
    then some use_emergency_external_ssh
    else if equal blocker (ascii "remote_setup_failed")
    then some rerun_apply_settings
    else if equal blocker (ascii "remote_peer_install_failed")
    then some repair_remote_peer
    else none
