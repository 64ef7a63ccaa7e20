-- ===== src/Quic/Session/Agreed.antt =====
-- Client and server agree on a session: crates/ssh-proxy/src/quic_native/session.rs.
use ssh_proxy.Base.{
  ◌≡◌, refl, true, false, ◌++◌, Option, Result, ok, err, arith, Bool-cases, inl, inr,
}
use ssh_proxy.Wire.Bytes.{Bytes}
use ssh_proxy.Core.Control.{same_octets}
use ssh_proxy.Core.Control.Framed.{
  Decodes, same_octets_refl, read_json_control_frame-write_json_control_frame,
}
use ssh_proxy.Quic.Session.{
  RouteControlHello, RouteControlWelcome, RouteControlFrame, hello_frame, welcome_frame,
  RouteSessionSpec, RouteSessionWelcome, SessionError, rejected, control_frame_magic,
  control_frame_version, max_control_frame, into_hello, write_to, read_from, client_negotiate,
  server_accept,
}

-- What the client makes of a welcome to its own route.
abbrev pub verdict :
    RouteControlHello
    → RouteControlWelcome
    → Bytes
    → Result SessionError (RouteSessionWelcome × Bytes)
verdict hello welcome rest = elim welcome.accepted [
  | true ↦ ok (record { hello = hello; welcome = welcome }, rest)
  | false ↦ err (rejected welcome.message)
]

module _ (to_vec : RouteControlFrame → Option Bytes)
    (from_slice : Bytes → Option RouteControlFrame) where
  read_from-write_to :
      (frame : RouteControlFrame) (octets rest : Bytes)
      → Decodes to_vec from_slice
      → write_to to_vec frame ≡ ok octets
      → read_from from_slice (octets ++ rest) ≡ ok (frame, rest)
  read_from-write_to frame octets rest decodes e =
      read_json_control_frame-write_json_control_frame to_vec from_slice control_frame_magic
        control_frame_version max_control_frame frame octets rest decodes refl (omega arith)
        (omega arith) e

  -- If the server answers the hello of the client for the same route, and either side can write its
  -- frame and decodes what the other one encodes, then the server gets exactly this hello, and the
  -- client the answer: a session with both if the answer accepts, and else an error with its message.
  -- Neither side takes more of its stream than the frame of the other.
  pub client_negotiate-server_accept :
      (spec : RouteSessionSpec) (respond : RouteControlHello → RouteControlWelcome)
      (asked answer : Bytes) (later more : Bytes)
      → Decodes to_vec from_slice
      → (respond (into_hello spec)).route_id ≡ spec.route_id
      → write_to to_vec (hello_frame (into_hello spec)) ≡ ok asked
      → write_to to_vec (welcome_frame (respond (into_hello spec))) ≡ ok answer
      → (server_accept to_vec from_slice respond (asked ++ later)
          ≡ (answer, ok (into_hello spec, later)))
        × (client_negotiate to_vec from_slice spec (answer ++ more)
            ≡ (asked, verdict (into_hello spec) (respond (into_hello spec)) more))
  unfolding server_accept client_negotiate
  client_negotiate-server_accept spec respond asked answer later more decodes same e₁ e₂ =
      let hello = into_hello spec in
      let r₁ = read_from-write_to (hello_frame hello) asked later decodes e₁ in
      let r₂ = read_from-write_to (welcome_frame (respond hello)) answer more decodes e₂ in
      let itself : same_octets (respond hello).route_id spec.route_id ≡ true =
        rw same (same_octets_refl spec.route_id) in
      (
        rw (r₁, server_accept) (rw (itself, e₂) refl),
        rw (e₁, client_negotiate)
            (rw (r₂, itself)
              (elim (Bool-cases (respond hello).accepted) [
                | inl welcome ↦ rw welcome refl
                | inr refusal ↦ rw refusal refl
              ])),
      )
