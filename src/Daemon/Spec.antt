-- ===== src/Daemon/Spec.antt =====
-- What a proxy session is asked for, and when a running one serves: `ProxySessionSpec` of
-- crates/ssh-proxy-daemon/src/session_spec.rs. Texts and paths are octets.
pub mod Reuse
use ssh_proxy.Base.{
  ℕ, Bool, true, false, not, ◌&&◌, List, [], ◌∷◌, ◌++◌, Option, none, some, is_some, unwrap_or,
  ◌==◌, if◌then◌else◌,
}
use ssh_proxy.Wire.Bytes.{Bytes, ascii}
use ssh_proxy.Socks.{IpAddr, v4, v6}
use ssh_proxy.Http.Text.{equal, has, is_nil}
use ssh_proxy.Daemon.Json.{Json, flag, number, text, texts, object, Fields, end, field, same_json}
use ssh_proxy.Daemon.Ports.{RemotePortPolicy, fixed_policy, candidates}
use ssh_proxy.Daemon.Keys.{
  route_id_for_key, job_id_for_key, session_id_for_key, proxy_url_for_remote,
}

pub data RouteConnectMode : Type 0 where
  auto direct reverse_link : RouteConnectMode

pub record SshTargetSpec : Type 0 where
  pub host_name : Option Bytes
  pub user : Option Bytes
  pub port : Option ℕ
  pub identity : List Bytes
  pub config : Option Bytes
  pub known_hosts : Option Bytes
  pub jump : List Bytes
  pub accept_new : Bool

pub record ApplyPolicy : Type 0 where
  pub vscode_settings : Bool
  pub terminal_env : Bool
  pub server_env : Bool
  pub git : Bool
  pub git_global : Bool
  pub git_workspace : Bool
  pub git_force_override : Bool
  pub remote_status_file : Bool
  pub verify_remote_port : Bool
  pub no_proxy : Bytes
  pub proxy_support : Bytes
  pub server_dir : Bytes

abbrev pub default_apply_policy : ApplyPolicy
default_apply_policy = record {
  vscode_settings = true;
  terminal_env = true;
  server_env = true;
  git = true;
  git_global = true;
  git_workspace = true;
  git_force_override = true;
  remote_status_file = true;
  verify_remote_port = true;
  no_proxy = ascii "localhost,127.0.0.1,::1";
  proxy_support = ascii "override";
  server_dir = ascii ".vscode-server";
}

pub record ProxySessionSpec : Type 0 where
  pub target : Bytes
  pub workspace_id : Option Bytes
  pub ssh : Option SshTargetSpec
  pub workspace_paths : List Bytes
  pub local_proxy : Bytes
  pub remote_bind : IpAddr
  pub remote_port_policy : RemotePortPolicy
  pub connect_mode : RouteConnectMode
  pub apply_policy : ApplyPolicy

abbrev pub spec_key : ProxySessionSpec → Bytes
spec_key s = unwrap_or s.workspace_id s.target

abbrev pub route_id : ProxySessionSpec → Bytes
route_id s = route_id_for_key (spec_key s)

abbrev pub job_id : ProxySessionSpec → Bytes
job_id s = job_id_for_key (spec_key s)

abbrev pub session_id : ProxySessionSpec → Bytes
session_id s = session_id_for_key (spec_key s)

module _ (show_ip : IpAddr → Bytes) where
  abbrev pub remote_url_for_port : ProxySessionSpec → ℕ → Bytes
  remote_url_for_port s remote_port =
      proxy_url_for_remote s.local_proxy (show_ip s.remote_bind) remote_port

  abbrev pub remote_url : ProxySessionSpec → Bytes
  remote_url s = remote_url_for_port s s.remote_port_policy.preferred

abbrev pub with_remote_port : ProxySessionSpec → ℕ → ProxySessionSpec
with_remote_port s remote_port = record s {
  remote_port_policy = record s.remote_port_policy { preferred = remote_port };
}

abbrev no_texts : List Bytes → Bool
no_texts [] = true
no_texts (t ∷ ts) = false

abbrev pub is_empty : SshTargetSpec → Bool
is_empty s =
    not (is_some s.host_name)
    && not (is_some s.user)
    && not (is_some s.port)
    && no_texts s.identity
    && not (is_some s.config)
    && not (is_some s.known_hosts)
    && no_texts s.jump
    && not s.accept_new

abbrev pub ssh_args : SshTargetSpec → List Bytes
ssh_args s = elim s.host_name [
  | some host_name ↦ ascii "-o" ∷ (ascii "HostName=" ++ host_name) ∷ []
  | none ↦ []
]

-- A field that is left out when it has nothing to say.
abbrev pub text_field? : Bytes → Option Bytes → Fields → Fields
text_field? key none rest = rest
text_field? key (some t) rest = field key (text t) rest

abbrev pub number_field? : Bytes → Option ℕ → Fields → Fields
number_field? key none rest = rest
number_field? key (some n) rest = field key (number n) rest

abbrev pub texts_field? : Bytes → List Bytes → Fields → Fields
texts_field? key [] rest = rest
texts_field? key (t ∷ ts) rest = field key (texts (t ∷ ts)) rest

abbrev pub flag_field? : Bytes → Bool → Fields → Fields
flag_field? key false rest = rest
flag_field? key true rest = field key (flag true) rest

unfoldable pub ssh_value : SshTargetSpec → Json
ssh_value s = object (
    text_field? (ascii "host_name") s.host_name (
      text_field? (ascii "user") s.user (
        number_field? (ascii "port") s.port (
          texts_field? (ascii "identity") s.identity (
            text_field? (ascii "config") s.config (
              text_field? (ascii "known_hosts") s.known_hosts (
                texts_field? (ascii "jump") s.jump
                  (flag_field? (ascii "accept_new") s.accept_new end))))))))

unfoldable pub apply_policy_value : ApplyPolicy → Json
apply_policy_value p = object (
    field (ascii "vscode_settings") (flag p.vscode_settings) (
      field (ascii "terminal_env") (flag p.terminal_env) (
        field (ascii "server_env") (flag p.server_env) (
          field (ascii "git") (flag p.git) (
            field (ascii "git_global") (flag p.git_global) (
              field (ascii "git_workspace") (flag p.git_workspace) (
                field (ascii "git_force_override") (flag p.git_force_override) (
                  field (ascii "remote_status_file") (flag p.remote_status_file) (
                    field (ascii "verify_remote_port") (flag p.verify_remote_port) (
                      field (ascii "no_proxy") (text p.no_proxy) (
                        field (ascii "proxy_support") (text p.proxy_support)
                          (field (ascii "server_dir") (text p.server_dir) end))))))))))))

abbrev pub port_policy_value : RemotePortPolicy → Json
port_policy_value r = object (
    field (ascii "preferred") (number r.preferred) (
      field (ascii "auto_pick") (flag r.auto_pick)
        (field (ascii "range_size") (number r.range_size) end)))

abbrev pub connect_mode_name : RouteConnectMode → Bytes
connect_mode_name auto = ascii "auto"
connect_mode_name direct = ascii "direct"
connect_mode_name reverse_link = ascii "reverse-link"

abbrev pub ssh_field? : Option SshTargetSpec → Fields → Fields
ssh_field? none rest = rest
ssh_field? (some ssh) rest = field (ascii "ssh") (ssh_value ssh) rest

abbrev clear_identity : SshTargetSpec → SshTargetSpec
clear_identity ssh = record ssh { identity = [] }

abbrev cleared : Option SshTargetSpec → Option SshTargetSpec
cleared none = none
cleared (some ssh) = some (clear_identity ssh)

abbrev pub normalize_proxy_session_spec_for_live_reuse : ProxySessionSpec → ProxySessionSpec
normalize_proxy_session_spec_for_live_reuse s = record s { ssh = cleared s.ssh }

-- At a fixed port, and without the keys that were found for it.
abbrev pub settled : ℕ → ProxySessionSpec → ProxySessionSpec
settled port s =
    normalize_proxy_session_spec_for_live_reuse
      (record (with_remote_port s port) { remote_port_policy = fixed_policy port })

module _ (show_ip : IpAddr → Bytes) where
  unfoldable pub to_value : ProxySessionSpec → Json
  to_value s = object (
      field (ascii "target") (text s.target) (
        text_field? (ascii "workspace_id") s.workspace_id (
          ssh_field? s.ssh (
            texts_field? (ascii "workspace_paths") s.workspace_paths (
              field (ascii "local_proxy") (text s.local_proxy) (
                field (ascii "remote_bind") (text (show_ip s.remote_bind)) (
                  field (ascii "remote_port_policy") (port_policy_value s.remote_port_policy) (
                    field (ascii "connect_mode") (text (connect_mode_name s.connect_mode))
                      (field (ascii "apply_policy") (apply_policy_value s.apply_policy) end)))))))))

  unfoldable pub proxy_session_specs_match_at_selected_port :
      ProxySessionSpec → ProxySessionSpec → ℕ → Bool
  proxy_session_specs_match_at_selected_port existing requested selected_port =
      same_json (to_value (settled selected_port existing))
        (to_value (settled selected_port requested))

  unfoldable pub proxy_session_specs_match : ProxySessionSpec → ProxySessionSpec → Bool
  proxy_session_specs_match left right =
      let selected_port = left.remote_port_policy.preferred in
      let r = right.remote_port_policy in
      let matched = proxy_session_specs_match_at_selected_port left right selected_port in
      if selected_port == r.preferred
      then matched
      else if r.auto_pick && has selected_port (candidates r)
      then matched
      else false
