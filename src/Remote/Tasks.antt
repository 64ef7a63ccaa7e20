-- ===== src/Remote/Tasks.antt =====
-- The tasks of the remote end: `handle_open_tcp`, `spawn_udp_assoc` and `verify_token` of
-- crates/ssh-proxy/src/remote.rs. How `connect` ends, what the target sends and which of the two copies
-- ends first are arguments.
use ssh_proxy.Base.{
  ℕ, zero, suc, ◌+◌, ◌++◌, Bool, true, false, List, [], ◌∷◌, Option, none, some, Result, ok, err,
  ◌>>=◌, ◌>>◌, ensure, min, take, drop, length,
}
use ssh_proxy.Base.Table.{insert}
use ssh_proxy.Wire.Bytes.{Bytes, ascii, from_be}
use ssh_proxy.Wire.Source.{Source, Fault, read_exact}
use ssh_proxy.Wire.Frame.{open_tcp_result, chunk, close, udp_packet}
use ssh_proxy.Bridge.State.{UdpDatagram}
use ssh_proxy.Http.Text.{equal}
use ssh_proxy.Remote.State.{Transport, send, drop_tcp}

-- The target is not reached.
unfoldable pub open_failed : Bool → ℕ → Bytes → Transport → Transport
open_failed up id message s = send up (open_tcp_result id false message) s

-- The target is reached: the channel of the stream, and the answer.
unfoldable pub open_connected : Bool → ℕ → Transport → Transport
open_connected up id s =
    send up (open_tcp_result id true [])
      (record s { tcp_streams = insert id s.channels s.tcp_streams; channels = s.channels + 1 })

-- One round of the copy from the target.
unfoldable pub relay_read : Bool → ℕ → Bytes → Transport → Transport
relay_read up id payload s = send up (chunk id payload) s

-- A copy has ended.
unfoldable pub relay_ended : Bool → ℕ → Transport → Transport
relay_ended up id s = send up (close id (ascii "tcp closed")) (drop_tcp id s)

-- A UDP socket that cannot be bound, and a datagram that comes in.
unfoldable pub udp_bind_failed : Bool → ℕ → Bytes → Transport → Transport
udp_bind_failed up id reason s = send up (close id (ascii "udp bind failed: " ++ reason)) s

unfoldable pub udp_received : Bool → ℕ → UdpDatagram → Transport → Transport
udp_received up id d s = send up (udp_packet id d.host d.port d.payload) s

-- What the target sends, as the copy reads it: `sizes k` is how much the k-th read finds ready.
unfoldable pub copy_reads : (fuel : ℕ) (sizes : ℕ → ℕ) (k : ℕ) (ahead : Bytes) → List Bytes
copy_reads zero sizes k ahead = []
copy_reads (suc fuel) sizes k [] = []
copy_reads (suc fuel) sizes k (b ∷ ahead) =
    let n = min (suc (sizes k)) (length (b ∷ ahead)) in
    take n (b ∷ ahead) ∷ copy_reads fuel sizes (k + 1) (drop n (b ∷ ahead))

abbrev pub all_reads : (ℕ → ℕ) → Bytes → List Bytes
all_reads sizes ahead = copy_reads (length ahead) sizes 0 ahead

-- How a task goes: the target is not reached; or it is, and so many of the reads are passed on before
-- the copies end.
pub data Course : Type 0 where
  fails : Bytes → Course
  relays : List Bytes → Course

unfoldable pub relay_all : Bool → ℕ → List Bytes → Transport → Transport
unfolding relay_read
relay_all up id [] s = s
relay_all up id (payload ∷ rest) s = relay_all up id rest (relay_read up id payload s)

-- The whole task, if nothing else happens.
unfoldable pub handle_open_tcp : Bool → ℕ → Course → Transport → Transport
unfolding open_failed open_connected relay_all relay_ended
handle_open_tcp up id (fails message) s = open_failed up id message s
handle_open_tcp up id (relays reads) s =
    relay_ended up id (relay_all up id reads (open_connected up id s))

pub data TokenError : Type 0 where
  unread : Fault → TokenError
  invalid_token : TokenError

abbrev read_token : ℕ → Source → Result TokenError (Bytes × Source)
read_token n s = elim (read_exact n s) [ err e ↦ err (unread e) | ok r ↦ ok r ]

-- The stream behind the token that it starts with.
unfoldable pub verify_token : Option Bytes → Source → Result TokenError Source
unfolding read_exact from_be equal
verify_token none s = ok s
verify_token (some expected) s = do
  (len, s₁) ← read_token 2 s
  (token, s₂) ← read_token (from_be 0 len) s₁
  ensure (equal token expected) invalid_token
  ok s₂
