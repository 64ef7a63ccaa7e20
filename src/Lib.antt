-- ===== src/Lib.antt =====
-- ssh_proxy tunnels TCP and UDP over an SSH, TLS, QUIC or plain connection to a peer. A local proxy
-- (SOCKS5 or HTTP) takes a client's request; the route's decisions say which transport leads to the
-- peer and how many connections are kept; the bridge gives each stream an id and multiplexes all
-- streams over one connection; the frame protocol puts them on the wire. This library models these
-- parts and proves what each of them promises.
--
-- Wire: the frame protocol, crates/ssh-proxy-protocol/src/protocol.rs. Wire/Bytes has octets, big-endian
--   numbers and UTF-8; Wire/Cursor is `Cursor`; Wire/Frame is `Frame` with `encode_into` and `decode`;
--   Wire/Source and Wire/Reader are the reading half (`FrameReader`), Wire/Sink and Wire/Batch the
--   writing half (`write_all_vectored_payload`, `write_payload`, `write_frame_batch`). Data frames carry
--   octets, `chunk` is `Frame::Data`. What the operating system takes of a write, and the sizes in which
--   octets arrive, are arguments.
-- Bridge: the client end of a connection, crates/ssh-proxy/src/bridge.rs. Bridge/State is `BridgeInner`
--   with its metrics: a channel is a number that is drawn from a counter, and what was sent into it is
--   kept in the state. Bridge/Open has the methods of `BridgeHandle` (`open_tcp` in two parts, before
--   and behind its wait), Bridge/Metrics the snapshots, Bridge/Reader `reader_loop` and the lifecycle task, Bridge/Writer the writer
--   task of `connect_io`. Each handler runs whole; that they interleave is the relation `Reaches` of
--   Bridge/Runs, in which any handler may follow any other. Handlers that themselves interleave at an
--   await are not modelled.
-- Route: the decisions of crates/ssh-proxy-route/src. Route/Mode and Route/Decision are decision.rs,
--   Route/Preflight is preflight.rs, Route/Pool is policy.rs, Route/RemoteUse is remote_use.rs; a JSON
--   text or null is an optional text.
--   Route/Conflict is conflict.rs and Route/Status status.rs, with the JSON values of Daemon/Json.
-- Socks: crates/ssh-proxy-transport/src/proxy/socks5.rs, on octets.
-- Core: crates/ssh-proxy-protocol/src/protocol_core. Core/Control has the JSON control frames of codec.rs,
--   with serde_json as arguments; Core/Version is version.rs.
--   Core/Repair is crates/ssh-proxy-core/src/repair.rs.
-- Daemon: what a session is asked for, crates/ssh-proxy-daemon/src/session_spec.rs: Daemon/Ports is its
--   `RemotePortPolicy`, Daemon/Keys has its ids and URLs, Daemon/Spec is the specification and when a running
--   session serves it, by the JSON values of Daemon/Json. Daemon/Job is job.rs and Daemon/Session session.rs
--   of that crate.
--
-- Http: the HTTP proxy. Http/Text has the operations on texts, on octets, with its lemmas in Http/Text/Words,
--   Http/Text/Lines and Http/Text/Numbers; Http/Authority, Http/Headers, Http/Request and Http/Response are
--   crates/ssh-proxy-transport/src/proxy/http.rs, and Http/Relay is the relay of a response in
--   crates/ssh-proxy/src/socks/relay.rs, which is given the chunks that come before the stream closes or
--   idles too long.
-- Remote: the remote end of a connection. Remote/State is the loop over the frames and Remote/Tasks the tasks
--   of crates/ssh-proxy/src/remote.rs; that they interleave is a list of events in Remote/Events.
--   Remote/Egress is crates/ssh-proxy/src/remote/egress.rs with its endpoint parser: how a target is reached,
--   directly or through an upstream proxy. Remote/Egress/Upstream and Remote/Egress/Tunnel put it in front of
--   the proxies of Socks and Http, and Remote/Relay puts the remote end in front of a bridge.
--
-- Quic: the native QUIC sessions of crates/ssh-proxy/src/quic_native. Quic/Header is stream_header.rs, whose
--   cursor is shared with the frame protocol, Quic/Flow flow.rs, and Quic/Session control.rs and session.rs,
--   on the frames of Core/Control. Quic/Runtime is the pool of connections with the counters of its streams,
--   runtime.rs with its modules for streams and workers, by the scores of Quic/Pool; that its calls interleave
--   is the relation of Quic/Runtime/Flows.
--
-- Base has the helpers that they share: Base/Tests the Boolean tests on native numbers, Base/Lists,
-- Base/Outcome `Result` with the `?` operator, Base/Table a hash map as an association list and
-- the handles in it.
--
-- Bounds and fuel. A frame's payload is at most 16777216 octets (`MAX_FRAME`), a batch 32 frames. The
-- loop of `write_all_vectored_payload` gets as many rounds as there are octets: each round writes one or
-- fails. The loop of `read_data_frame` gets as many rounds as octets are missing: each reads one or
-- fails. `stuck` is the error of the model alone that a loop without rounds would give. The writer task
-- gets a round for each frame that is queued. The loop of `HttpRequest::read_from` gets a round for
-- each octet that is still to come and one more: each reads one, or ends it (Http/Request/Gathered). Counters of the bridge and stream ids wrap as `u64` and
-- `u32` do; channel numbers do not, since they stand for allocations.
--
-- Not modelled: the SSH, TLS and QUIC libraries, the command line, files, services and deployment,
-- which are I/O; logging; the capacity of channels, which shows as the outcome of a delivery.
pub mod Base
pub mod Wire
pub mod Bridge
pub mod Route
pub mod Socks
pub mod Core
pub mod Daemon
pub mod Http
pub mod Remote
pub mod Quic
