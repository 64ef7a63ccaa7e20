-- ===== src/Quic/Session.antt =====
-- How a route's session is agreed upon: crates/ssh-proxy/src/quic_native/control.rs and
-- crates/ssh-proxy/src/quic_native/session.rs. The JSON of serde_json is an argument, and what answers a
-- hello too; either side is given the octets that the other one sends before it closes.
pub mod Agreed
use ssh_proxy.Base.{
  ℕ, Bool, true, false, List, [], Option, Result, ok, err, ◌++◌, ◌==◌, if◌then◌else◌,
}
use ssh_proxy.Wire.Bytes.{Bytes, ascii}
use ssh_proxy.Core.Control.{
  ControlError, same_octets, write_json_control_frame, read_json_control_frame,
}

abbrev pub control_frame_magic : Bytes
control_frame_magic = ascii "QNC1"

abbrev pub control_frame_version : ℕ
control_frame_version = 1

abbrev pub max_control_frame : ℕ
max_control_frame = 65536

pub record RouteControlHello : Type 0 where
  pub version : ℕ
  pub route_id : Bytes
  pub node : Bytes
  pub features : List Bytes
  pub preferred_protocols : List Bytes

pub record RouteControlWelcome : Type 0 where
  pub version : ℕ
  pub route_id : Bytes
  pub accepted : Bool
  pub selected_protocol : Option Bytes
  pub message : Bytes

pub data RouteControlFrame : Type 0 where
  hello_frame : RouteControlHello → RouteControlFrame
  welcome_frame : RouteControlWelcome → RouteControlFrame
  ping pong : ℕ → RouteControlFrame

pub record RouteSessionSpec : Type 0 where
  pub route_id : Bytes
  pub node : Bytes
  pub features : List Bytes
  pub preferred_protocols : List Bytes

abbrev pub into_hello : RouteSessionSpec → RouteControlHello
into_hello s = record {
  version = control_frame_version;
  route_id = s.route_id;
  node = s.node;
  features = s.features;
  preferred_protocols = s.preferred_protocols;
}

pub record RouteSessionWelcome : Type 0 where
  pub hello : RouteControlHello
  pub welcome : RouteControlWelcome

pub data SessionError : Type 0 where
  hello_unsent welcome_unread hello_unread welcome_unsent : ControlError → SessionError
  welcome_expected hello_expected : SessionError
  route_id_mismatch : Bytes → Bytes → SessionError
  rejected : Bytes → SessionError

module _ (to_vec : RouteControlFrame → Option Bytes) where
  abbrev pub write_to : RouteControlFrame → Result ControlError Bytes
  write_to frame =
      write_json_control_frame to_vec control_frame_magic control_frame_version max_control_frame
        frame

module _ (from_slice : Bytes → Option RouteControlFrame) where
  abbrev pub read_from : Bytes → Result ControlError (RouteControlFrame × Bytes)
  read_from s =
      read_json_control_frame from_slice control_frame_magic control_frame_version max_control_frame
        s

-- The client's judgement of the welcome; `rest` is what is left in the stream.
abbrev pub judged :
    RouteControlHello
    → RouteControlWelcome
    → Bytes
    → Result SessionError (RouteSessionWelcome × Bytes)
judged hello welcome rest =
    if same_octets welcome.route_id hello.route_id
    then (if welcome.accepted
        then ok (record { hello = hello; welcome = welcome }, rest)
        else err (rejected welcome.message))
    else err (route_id_mismatch hello.route_id welcome.route_id)

abbrev pub welcomed :
    RouteControlHello
    → Result ControlError (RouteControlFrame × Bytes)
    → Result SessionError (RouteSessionWelcome × Bytes)
welcomed hello (err e) = err (welcome_unread e)
welcomed hello (ok (welcome_frame welcome, rest)) = judged hello welcome rest
welcomed hello (ok (hello_frame h, rest)) = err welcome_expected
welcomed hello (ok (ping seq, rest)) = err welcome_expected
welcomed hello (ok (pong seq, rest)) = err welcome_expected

module _ (to_vec : RouteControlFrame → Option Bytes)
    (from_slice : Bytes → Option RouteControlFrame) where
  -- What the client sends, and what comes of it.
  unfoldable pub client_negotiate :
      RouteSessionSpec → Bytes → Bytes × Result SessionError (RouteSessionWelcome × Bytes)
  unfolding same_octets
  client_negotiate spec s =
      let hello = into_hello spec in
      elim (write_to to_vec (hello_frame hello)) [
        | err e ↦ ([], err (hello_unsent e))
        | ok octets ↦ (octets, welcomed hello (read_from from_slice s))
      ]

  abbrev answered :
      RouteControlHello
      → Bytes
      → Result ControlError Bytes
      → Bytes × Result SessionError (RouteControlHello × Bytes)
  answered hello rest (err e) = ([], err (welcome_unsent e))
  answered hello rest (ok octets) = (octets, ok (hello, rest))

  abbrev responded :
      RouteControlHello
      → RouteControlWelcome
      → Bytes
      → Bytes × Result SessionError (RouteControlHello × Bytes)
  responded hello welcome rest =
      if same_octets welcome.route_id hello.route_id
      then answered hello rest (write_to to_vec (welcome_frame welcome))
      else ([], err (route_id_mismatch hello.route_id welcome.route_id))

  -- What the server sends, and what comes of it.
  unfoldable pub server_accept :
      (RouteControlHello → RouteControlWelcome)
      → Bytes
      → Bytes × Result SessionError (RouteControlHello × Bytes)
  unfolding same_octets
  server_accept respond s = elim (read_from from_slice s) [
    | err e ↦ ([], err (hello_unread e))
    | ok (hello_frame hello, rest) ↦ responded hello (respond hello) rest
    | ok (welcome_frame w, rest) ↦ ([], err hello_expected)
    | ok (ping seq, rest) ↦ ([], err hello_expected)
    | ok (pong seq, rest) ↦ ([], err hello_expected)
  ]
