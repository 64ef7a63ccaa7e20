-- ===== src/Remote/State.antt =====
-- The frames that reach the remote end: `run_transport_with_egress_proxy` of
-- crates/ssh-proxy/src/remote.rs. A channel stands for its sender, as in Bridge/State.
use ssh_proxy.Base.{ℕ, ◌+◌, ◌++◌, Bool, List, [], ◌∷◌, Option, none, some, or_option, if◌then◌else◌}
use ssh_proxy.Base.Table.{Table, lookup, insert, remove}
use ssh_proxy.Wire.Bytes.{Bytes, ascii}
use ssh_proxy.Wire.Frame.{Frame, open_tcp, open_tcp_result, chunk, close, udp_packet, log}
use ssh_proxy.Bridge.State.{UdpDatagram}
use ssh_proxy.Bridge.Reader.{Delivery, taken, receiver_gone, too_late}

-- What a task that opens a stream was started with.
pub record Open : Type 0 where
  pub id : ℕ
  pub host : Bytes
  pub port : ℕ
  pub egress_proxy : Option Bytes

pub record Transport : Type 0 where
  pub tcp_streams : Table ℕ
  pub udp_streams : Table ℕ
  -- The next handle of a channel.
  pub channels : ℕ
  -- What the writer task was given.
  pub sent : List Frame
  -- What the stream channels were given, oldest first.
  pub tcp_queue : List (ℕ × Bytes)
  pub udp_queue : List (ℕ × UdpDatagram)
  -- The tasks that were started, oldest first.
  pub opens : List Open
  pub assocs : List (ℕ × ℕ)

abbrev pub run_transport : Transport
run_transport = record {
  tcp_streams = [];
  udp_streams = [];
  channels = 0;
  sent = [];
  tcp_queue = [];
  udp_queue = [];
  opens = [];
  assocs = [];
}

-- `tx.send(frame)` with its result dropped; `up` says whether the writer task still runs.
abbrev pub send : Bool → Frame → Transport → Transport
send up f s = if up then record s { sent = s.sent ++ f ∷ [] } else s

abbrev pub drop_tcp : ℕ → Transport → Transport
drop_tcp id s = record s { tcp_streams = remove id s.tcp_streams }

abbrev pub drop_udp : ℕ → Transport → Transport
drop_udp id s = record s { udp_streams = remove id s.udp_streams }

unfoldable pub tcp_deliver : Delivery → Bool → ℕ → ℕ → Bytes → Transport → Transport
tcp_deliver taken up id tx payload s = record s { tcp_queue = s.tcp_queue ++ (tx, payload) ∷ [] }
tcp_deliver receiver_gone up id tx payload s = drop_tcp id s
tcp_deliver too_late up id tx payload s =
    send up (close id (ascii "remote receiver backpressure timed out after 30s")) (drop_tcp id s)

unfoldable pub udp_deliver : Delivery → Bool → ℕ → ℕ → UdpDatagram → Transport → Transport
udp_deliver taken up id tx d s = record s { udp_queue = s.udp_queue ++ (tx, d) ∷ [] }
udp_deliver receiver_gone up id tx d s = drop_udp id s
udp_deliver too_late up id tx d s =
    send up (close id (ascii "remote UDP receiver backpressure timed out after 10s"))
      (drop_udp id s)

-- The channel of an association, which is started when there is none.
unfoldable pub associate : ℕ → Transport → Transport × ℕ
associate id s = elim (lookup id s.udp_streams) [
  | some tx ↦ (s, tx)
  | none ↦ (
    record s {
      udp_streams = insert id s.channels s.udp_streams;
      channels = s.channels + 1;
      assocs = s.assocs ++ (id, s.channels) ∷ [];
    },
    s.channels,
  )
]

-- The `match` of the loop.
unfoldable pub dispatch : Option Bytes → Delivery → Bool → Frame → Transport → Transport
unfolding tcp_deliver udp_deliver associate
dispatch default_egress_proxy d up (open_tcp id host port egress_proxy) s = record s {
  opens =
      s.opens
      ++ (record {
        id = id;
        host = host;
        port = port;
        egress_proxy = or_option egress_proxy default_egress_proxy;
      })
        ∷ [];
}
dispatch default_egress_proxy d up (chunk id payload) s = elim (lookup id s.tcp_streams) [
  | none ↦ s
  | some tx ↦ tcp_deliver d up id tx payload s
]
dispatch default_egress_proxy d up (close id reason) s = drop_udp id (drop_tcp id s)
dispatch default_egress_proxy d up (udp_packet id host port payload) s =
    let (s', tx) = associate id s in
    udp_deliver d up id tx (record { host = host; port = port; payload = payload }) s'
dispatch default_egress_proxy d up (log message) s = s
dispatch default_egress_proxy d up (open_tcp_result id accepted message) s = s
