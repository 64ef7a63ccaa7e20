-- ===== src/Remote/Relay.antt =====
-- What a target sends reaches the client: `handle_open_tcp` of crates/ssh-proxy/src/remote.rs at one end,
-- the reader loop of crates/ssh-proxy/src/bridge.rs at the other.
use ssh_proxy.Base.{
  ℕ, zero, suc, ◌+◌, ◌≤◌, ◌≡◌, ◌==◌, refl, sym, ap, ◌∙◌, Bool, true, false, List, [], ◌∷◌, ◌++◌,
  map, some, ok, All, length, length-drop, take-append-drop, append_assoc, append-nil, min, drop,
  if◌then◌else◌, arith,
}
use ssh_proxy.Base.Table.{lookup}
use ssh_proxy.Wire.Bytes.{Bytes, ascii}
use ssh_proxy.Wire.Frame.{Frame, open_tcp, open_tcp_result, chunk, close, udp_packet, log, IsTyped}
use ssh_proxy.Wire.Reader.{read_frames}
use ssh_proxy.Wire.Sink.{Peer}
use ssh_proxy.Wire.Sink.Sends.{IsUnwilling}
use ssh_proxy.Wire.Batch.Total.{Fits}
use ssh_proxy.Bridge.State.{BridgeInner, BridgeMetrics}
use ssh_proxy.Bridge.Reader.{reader_loop}
use ssh_proxy.Bridge.Writer.{writer_task}
use ssh_proxy.Bridge.Runs.{Reaches}
use ssh_proxy.Bridge.Streams.{received, incoming}
use ssh_proxy.Bridge.Connection.{prompt, queued, writer_task-reader_loop}
use ssh_proxy.Http.Text.{concat}
use ssh_proxy.Remote.State.{Transport, run_transport}
use ssh_proxy.Remote.Tasks.{
  relays, relay_all, copy_reads, all_reads, open_connected, handle_open_tcp,
}

-- The frames of one stream.
abbrev frame_of : ℕ → Frame → Bool
frame_of id (open_tcp i host port egress_proxy) = i == id
frame_of id (open_tcp_result i accepted message) = i == id
frame_of id (chunk i payload) = i == id
frame_of id (close i reason) = i == id
frame_of id (udp_packet i host port payload) = i == id
frame_of id (log message) = false

unfoldable pub of_stream : ℕ → List Frame → List Frame
of_stream id [] = []
of_stream id (f ∷ fs) = let rest = of_stream id fs in if frame_of id f then f ∷ rest else rest

-- What a receiver sees of the frames is what it sees of those of its stream.
incoming-of_stream :
    (id : ℕ) (fs : List Frame) → incoming id (prompt fs) ≡ incoming id (prompt (of_stream id fs))
unfolding incoming of_stream
incoming-of_stream id [] = refl
incoming-of_stream id (open_tcp i host port egress_proxy ∷ fs) =
    ground (arith, incoming-of_stream id fs)
incoming-of_stream id (open_tcp_result i accepted message ∷ fs) =
    ground (arith, incoming-of_stream id fs)
incoming-of_stream id (chunk i payload ∷ fs) = ground (arith, incoming-of_stream id fs)
incoming-of_stream id (close i reason ∷ fs) = ground (arith, incoming-of_stream id fs)
incoming-of_stream id (udp_packet i host port payload ∷ fs) =
    ground (arith, incoming-of_stream id fs)
incoming-of_stream id (log message ∷ fs) = incoming-of_stream id fs

-- What a task that relays these reads sends, if nothing stops it.
abbrev pub task_frames : ℕ → List Bytes → List Frame
task_frames id reads = (handle_open_tcp true id (relays reads) run_transport).sent

relay_all-sent :
    (id : ℕ) (reads : List Bytes) (s : Transport)
    → (relay_all true id reads s).sent ≡ s.sent ++ map (chunk id) reads
unfolding relay_all
relay_all-sent id [] s = sym (append-nil s.sent)
relay_all-sent id (r ∷ reads) s =
    relay_all-sent id reads (record s { sent = s.sent ++ chunk id r ∷ [] })
    ∙ append_assoc s.sent (chunk id r ∷ []) (map (chunk id) reads)

incoming_chunks :
    (id : ℕ) (reads : List Bytes) (reason : Bytes)
    → incoming id (prompt (map (chunk id) reads ++ close id reason ∷ [])) ≡ reads
unfolding incoming
incoming_chunks id [] reason = ground arith
incoming_chunks id (r ∷ reads) reason = ground (arith, incoming_chunks id reads reason)

incoming-task_frames :
    (id : ℕ) (reads : List Bytes) → incoming id (prompt (task_frames id reads)) ≡ reads
unfolding handle_open_tcp incoming
incoming-task_frames id reads =
    rw (relay_all-sent id reads (open_connected true id run_transport))
      (incoming_chunks id reads (ascii "tcp closed"))

concat-copy_reads :
    (fuel : ℕ) (sizes : ℕ → ℕ) (k : ℕ) (ahead : Bytes)
    → length ahead ≤ fuel
    → concat (copy_reads fuel sizes k ahead) ≡ ahead
unfolding concat copy_reads
concat-copy_reads zero sizes k [] h = refl
concat-copy_reads zero sizes k (b ∷ ahead) h = absurd (omega arith)
concat-copy_reads (suc fuel) sizes k [] h = refl
concat-copy_reads (suc fuel) sizes k (b ∷ ahead) h =
    let n = min (suc (sizes k)) (length (b ∷ ahead)) in
    rw
      (concat-copy_reads fuel sizes (k + 1) (drop n (b ∷ ahead))
        (omega (arith, length-drop n (b ∷ ahead))))
      (take-append-drop n (b ∷ ahead))

concat-append : (xs ys : List Bytes) → concat (xs ++ ys) ≡ concat xs ++ concat ys
unfolding concat
concat-append [] ys = refl
concat-append (x ∷ xs) ys =
    ap (λ t. x ++ t) (concat-append xs ys) ∙ sym (append_assoc x (concat xs) (concat ys))

-- What the target sends reaches the client, whatever else the remote end sends between: if the
-- frames of a stream are those of a task that passes on all that it reads of the target until this
-- closes, and all frames that the remote end sends have numbers in range, texts in UTF-8 and
-- encodings within the limit, and no write is refused or takes nothing and the flushes succeed, and
-- the bridge reads them with the stream open and all receivers taking what they are given, then the
-- receiver of this stream gets, behind what it had, exactly the octets that the target sent.
pub target_to_client :
    (peer : Peer) (sizes : ℕ → ℕ → ℕ) (reads : ℕ → ℕ) (fs : List Frame) (metrics : BridgeMetrics)
    (calls id ch : ℕ) (target : Bytes) (s : BridgeInner)
    → ¬ IsUnwilling peer
    → peer.flushes ≡ true
    → All IsTyped fs
    → All Fits fs
    → Reaches s
    → lookup id s.tcp_streams ≡ some ch
    → of_stream id fs ≡ task_frames id (all_reads reads target)
    → let wire = (writer_task peer (length fs) (queued fs metrics calls)).sink.out in
      (read_frames (suc (length fs)) sizes (record { ahead = wire; broken = false }) ≡ ok fs)
      × (concat (received ch (reader_loop (prompt fs) s).tcp_queue)
          ≡ concat (received ch s.tcp_queue) ++ target)
target_to_client peer sizes reads fs metrics calls id ch target s willing flushes typed fits r e
      own =
    let (read, got) =
      writer_task-reader_loop peer sizes fs metrics calls id ch s willing flushes typed fits r e in
    let seen : incoming id (prompt fs) ≡ all_reads reads target =
      incoming-of_stream id fs
      ∙ ap (λ t. incoming id (prompt t)) own
      ∙ incoming-task_frames id (all_reads reads target) in
    (
      read,
      ap concat (got ∙ ap (λ t. received ch s.tcp_queue ++ t) seen)
          ∙ concat-append (received ch s.tcp_queue) (all_reads reads target)
          ∙ ap (λ t. concat (received ch s.tcp_queue) ++ t)
              (concat-copy_reads (length target) reads 0 target (omega arith)),
    )
