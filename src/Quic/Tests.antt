-- ===== src/Quic/Tests.antt =====
-- Native QUIC sessions at concrete inputs.
use mathlib.Core.Path.{subst}
use ssh_proxy.Base.{
  zero, suc, get_elem?, ℕ, ◌<◌, ◌≡◌, refl, Bool, true, false, [], ◌∷◌, ◌++◌, List, Option, none,
  some, ok, err, arith, ◌⊎◌,
}
use ssh_proxy.Wire.Bytes.{Bytes, ascii, is_utf8}
use ssh_proxy.Wire.Cursor.{payload_truncated}
use ssh_proxy.Core.Control.{same_octets, write_json_control_frame}
use ssh_proxy.Core.Control.Framed.{Decodes}
use ssh_proxy.Quic.Header.{
  StreamHeader, tcp_connect, invalid_magic, cursor_failed, encode, encoded_capacity_hint, decode,
}
use ssh_proxy.Quic.Header.ReadBack.{IsHeader}
use ssh_proxy.Quic.Flow.{header_failed, write_flow_header, read_flow_header}
use ssh_proxy.Quic.Flow.Whole.{read_flow_header-write_flow_header}
use ssh_proxy.Quic.Session.{
  RouteControlHello, RouteControlWelcome, RouteControlFrame, hello_frame, welcome_frame, ping, pong,
  RouteSessionSpec, into_hello, write_to, rejected, client_negotiate, server_accept,
}
use ssh_proxy.Quic.Pool.{quic_worker_score}
use ssh_proxy.Quic.Runtime.{
  ConnectionWorker, new_worker, mark_control_degraded, State, connected, select_worker, opened,
  written, timed_out, open_begin, open_finish, Stream, drop_stream,
}
use ssh_proxy.Quic.Runtime.Flows.{
  in_use, Reaches, connects, selects, opens, writes_header, stalls_header, drops,
}
use ssh_proxy.Quic.Runtime.Balance.{IsBalanced, Reaches-IsBalanced}
use ssh_proxy.Quic.Runtime.Selection.{IsLeast, select_worker-IsLeast}
use ssh_proxy.Quic.Session.Agreed.{client_negotiate-server_accept}

abbrev header : StreamHeader
header = record {
  route_id = ascii "r";
  stream_id = 42;
  target = record { kind = tcp_connect; host = ascii "ab.c"; port = 443 };
  egress_proxy = some (ascii "p");
  flags = 16;
}

abbrev header_octets : Bytes
header_octets =
    ascii "QNT1"
    ++ 0 ∷ 1 ∷ 0 ∷ 28 ∷ 0 ∷ 0 ∷ 0 ∷ 16 ∷ 0 ∷ 0 ∷ 0 ∷ 0 ∷ 0 ∷ 0 ∷ 0 ∷ 42 ∷ 1 ∷ 0 ∷ 1 ∷ b'r' ∷ 0 ∷ 4
      ∷ []
    ++ ascii "ab.c"
    ++ 1 ∷ 187 ∷ 1 ∷ 0 ∷ 1 ∷ b'p' ∷ []

header_written : write_flow_header header ≡ ok header_octets
unfolding write_flow_header encode
header_written = refl

wrong_magic : decode (0x58 ∷ 0x58 ∷ 0x58 ∷ 0x58 ∷ 0 ∷ 1 ∷ 0 ∷ 0 ∷ []) ≡ err invalid_magic
unfolding decode
wrong_magic = refl

header-IsHeader : IsHeader header
unfolding is_utf8
header-IsHeader = record {
  flags_of = omega arith;
  id_of = omega arith;
  port_of = omega arith;
  route_of = (omega arith, refl);
  host_of = (omega arith, refl);
  egress_of = (omega arith, refl);
}

read_flow_header-write_flow_header_example :
    ((encoded_capacity_hint header < 65544)
      × (read_flow_header (header_octets ++ 1 ∷ 2 ∷ []) ≡ ok (header, 1 ∷ 2 ∷ [])))
    ⊎ ((encoded_capacity_hint header ≡ 65544)
        × (read_flow_header (header_octets ++ 1 ∷ 2 ∷ [])
            ≡ err (header_failed (cursor_failed payload_truncated))))
read_flow_header-write_flow_header_example =
    read_flow_header-write_flow_header header header_octets (1 ∷ 2 ∷ []) header-IsHeader
      header_written

-- An encoding of short frames by their number of octets, in place of JSON.
abbrev hello_octets : ℕ → Bytes → Bytes → List Bytes → List Bytes → Option Bytes
hello_octets v (r ∷ []) [] [] [] = some (v ∷ r ∷ [])
hello_octets _ _ _ _ _ = none

abbrev welcome_octets : ℕ → Bytes → Bool → Option Bytes → Bytes → Option Bytes
welcome_octets v (r ∷ []) true none [] = some (v ∷ r ∷ 0 ∷ [])
welcome_octets v (r ∷ []) false none [] = some (v ∷ r ∷ 0 ∷ 0 ∷ [])
welcome_octets _ _ _ _ _ = none

abbrev to_vec : RouteControlFrame → Option Bytes
to_vec (hello_frame h) = hello_octets h.version h.route_id h.node h.features h.preferred_protocols
to_vec (welcome_frame w) =
    welcome_octets w.version w.route_id w.accepted w.selected_protocol w.message
to_vec (ping seq) = some (seq ∷ [])
to_vec (pong seq) = none

abbrev hello_of : ℕ → Bytes → Bytes → List Bytes → List Bytes → RouteControlHello
hello_of v r n f p = record {
  version = v;
  route_id = r;
  node = n;
  features = f;
  preferred_protocols = p;
}

abbrev welcome_of : ℕ → Bytes → Bool → Option Bytes → Bytes → RouteControlWelcome
welcome_of v r accepted protocol message = record {
  version = v;
  route_id = r;
  accepted = accepted;
  selected_protocol = protocol;
  message = message;
}

abbrev from_slice : Bytes → Option RouteControlFrame
from_slice (v ∷ r ∷ []) = some (hello_frame (hello_of v (r ∷ []) [] [] []))
from_slice (v ∷ r ∷ _ ∷ []) = some (welcome_frame (welcome_of v (r ∷ []) true none []))
from_slice (v ∷ r ∷ _ ∷ _ ∷ []) = some (welcome_frame (welcome_of v (r ∷ []) false none []))
from_slice (seq ∷ []) = some (ping seq)
from_slice _ = none

hello_decodes :
    (v : ℕ) (r n : Bytes) (f p : List Bytes) (s : Bytes)
    → hello_octets v r n f p ≡ some s
    → from_slice s ≡ some (hello_frame (hello_of v r n f p))
hello_decodes v (r ∷ []) [] [] [] s e =
    let same : v ∷ r ∷ [] ≡ s = cc e in
    subst (λ t. from_slice t ≡ some (hello_frame (hello_of v (r ∷ []) [] [] []))) same refl
hello_decodes v r n f p s e = absurd (cc e)

welcome_decodes :
    (v : ℕ) (r : Bytes) (a : Bool) (p : Option Bytes) (m : Bytes) (s : Bytes)
    → welcome_octets v r a p m ≡ some s
    → from_slice s ≡ some (welcome_frame (welcome_of v r a p m))
welcome_decodes v (r ∷ []) true none [] s e =
    let same : v ∷ r ∷ 0 ∷ [] ≡ s = cc e in
    subst (λ t. from_slice t ≡ some (welcome_frame (welcome_of v (r ∷ []) true none []))) same refl
welcome_decodes v (r ∷ []) false none [] s e =
    let same : v ∷ r ∷ 0 ∷ 0 ∷ [] ≡ s = cc e in
    subst (λ t. from_slice t ≡ some (welcome_frame (welcome_of v (r ∷ []) false none []))) same refl
welcome_decodes v r a p m s e = absurd (cc e)

to_vec-Decodes : Decodes to_vec from_slice
to_vec-Decodes (hello_frame h) s e =
    hello_decodes h.version h.route_id h.node h.features h.preferred_protocols s e
to_vec-Decodes (welcome_frame w) s e =
    welcome_decodes w.version w.route_id w.accepted w.selected_protocol w.message s e
to_vec-Decodes (ping seq) s e =
    let same : seq ∷ [] ≡ s = cc e in subst (λ t. from_slice t ≡ some (ping seq)) same refl
to_vec-Decodes (pong seq) s e = absurd (cc e)

abbrev spec : RouteSessionSpec
spec = record { route_id = b'a' ∷ []; node = []; features = []; preferred_protocols = [] }

-- The server knows only the route `b`.
abbrev respond : RouteControlHello → RouteControlWelcome
respond hello = welcome_of 1 hello.route_id (same_octets hello.route_id (b'b' ∷ [])) none []

abbrev front : Bytes
front = ascii "QNC1" ++ 0 ∷ 1 ∷ 0 ∷ 0 ∷ 0 ∷ []

asked_written : write_to to_vec (hello_frame (into_hello spec)) ≡ ok (front ++ 2 ∷ 1 ∷ b'a' ∷ [])
unfolding write_json_control_frame
asked_written = refl

answer_written :
    write_to to_vec (welcome_frame (respond (into_hello spec)))
    ≡ ok (front ++ 4 ∷ 1 ∷ b'a' ∷ 0 ∷ 0 ∷ [])
unfolding write_json_control_frame same_octets
answer_written = refl

client_negotiate-server_accept_example :
    (server_accept to_vec from_slice respond (front ++ 2 ∷ 1 ∷ b'a' ∷ 7 ∷ [])
      ≡ (front ++ 4 ∷ 1 ∷ b'a' ∷ 0 ∷ 0 ∷ [], ok (into_hello spec, 7 ∷ [])))
    × (client_negotiate to_vec from_slice spec (front ++ 4 ∷ 1 ∷ b'a' ∷ 0 ∷ 0 ∷ 9 ∷ [])
        ≡ (front ++ 2 ∷ 1 ∷ b'a' ∷ [], err (rejected [])))
unfolding same_octets
client_negotiate-server_accept_example =
    client_negotiate-server_accept to_vec from_slice spec respond (front ++ 2 ∷ 1 ∷ b'a' ∷ [])
      (front ++ 4 ∷ 1 ∷ b'a' ∷ 0 ∷ 0 ∷ []) (7 ∷ []) (9 ∷ []) to_vec-Decodes refl asked_written
      answer_written

idle_workers :
    (i : ℕ) (w : ConnectionWorker)
    → get_elem? (new_worker ∷ new_worker ∷ []) i ≡ some w
    → w ≡ new_worker
idle_workers zero w e = cc e
idle_workers (suc zero) w e = cc e
idle_workers (suc (suc i)) w e = absurd (cc e)

-- The second connection is degraded, so the first one is taken.
degraded_is_passed :
    (select_worker (connected (new_worker ∷ mark_control_degraded new_worker ∷ []) none)).1 ≡ some 0
unfolding select_worker quic_worker_score
degraded_is_passed = refl

abbrev in_use_0 : Stream
in_use_0 = record { worker = 0; closed = false }

abbrev dialled : State
dialled = (select_worker (connected (new_worker ∷ new_worker ∷ []) none)).0

-- One stream is in use, and one on the other connection fails to write its header in time.
abbrev busy : State
busy =
    open_finish 1 timed_out
      (open_begin 1 (opened 9) (open_finish 0 written (open_begin 0 (opened 5) dialled)))

busy_reached : Reaches busy (in_use in_use_0 ∷ [])
busy_reached = stalls_header 1 [] (in_use in_use_0 ∷ []) (
    opens 1 9 (omega arith) (
      writes_header 0 [] [] (
        opens 0 5 (omega arith)
          (selects (connects (new_worker ∷ new_worker ∷ []) none idle_workers)))))

Reaches-IsBalanced_example : IsBalanced (drop_stream in_use_0 busy) []
Reaches-IsBalanced_example = Reaches-IsBalanced (drops in_use_0 [] [] busy_reached)

abbrev degraded : State
degraded = connected (mark_control_degraded new_worker ∷ new_worker ∷ []) none

select_worker-IsLeast_example :
    (i : ℕ) × ((select_worker degraded).1 ≡ some i) × IsLeast degraded.workers i
select_worker-IsLeast_example =
    select_worker-IsLeast degraded (mark_control_degraded new_worker) (new_worker ∷ []) refl
      (omega arith)
