-- ===== src/Remote/RelayTests.antt =====
-- The remote end at work: crates/ssh-proxy/src/remote.rs.
use ssh_proxy.Base.{
  ◌≡◌, refl, true, false, inl, inr, List, [], ◌∷◌, ◌++◌, some, none, ok, err, All, arith,
}
use ssh_proxy.Base.Table.{lookup, insert}
use ssh_proxy.Wire.Bytes.{ascii, is_utf8}
use ssh_proxy.Wire.Frame.{
  Frame, open_tcp, open_tcp_result, chunk, close, log, encode_into, write_string, IsTyped,
}
use ssh_proxy.Wire.Batch.Total.{Fits}
use ssh_proxy.Wire.Reader.{read_frames}
use ssh_proxy.Wire.Sink.{Peer, accepts}
use ssh_proxy.Wire.Sink.Sends.{IsUnwilling}
use ssh_proxy.Bridge.State.{BridgeInner, connect_io, default_metrics}
use ssh_proxy.Bridge.Open.{open_begin}
use ssh_proxy.Bridge.Reader.{taken, reader_loop}
use ssh_proxy.Bridge.Writer.{writer_task}
use ssh_proxy.Bridge.Runs.{Reaches, connects, begins}
use ssh_proxy.Bridge.Streams.{received}
use ssh_proxy.Bridge.Connection.{prompt, queued}
use ssh_proxy.Http.Text.{concat}
use ssh_proxy.Remote.Tasks.{copy_reads, handle_open_tcp, invalid_token, verify_token}
use ssh_proxy.Remote.Relay.{of_stream, target_to_client}
use ssh_proxy.Remote.Events
use ssh_proxy.Remote.Events.{Event, arrives, copy_ends, target_sends}

abbrev opened_events : List Event
opened_events = arrives taken true (open_tcp 1 (ascii "h") 80 none) ∷ Events.connects true 1 ∷ []

abbrev later_events : List Event
later_events =
    arrives taken true (chunk 1 (ascii "a"))
    ∷ arrives taken true (chunk 2 (ascii "x"))
    ∷ target_sends true 1 (ascii "b")
    ∷ arrives taken true (chunk 1 (ascii "c"))
    ∷ copy_ends true 1
    ∷ arrives taken true (chunk 1 (ascii "d"))
    ∷ []

token_read :
    verify_token
      (some (ascii "ab"))
      (record { ahead = 0 ∷ 2 ∷ ascii "ab" ++ ascii "rest"; broken = false })
    ≡ ok (record { ahead = ascii "rest"; broken = false })
unfolding verify_token
token_read = refl

token_wrong :
    verify_token (some (ascii "ab")) (record { ahead = 0 ∷ 1 ∷ ascii "ab"; broken = false })
    ≡ err invalid_token
unfolding verify_token
token_wrong = refl

abbrev asked : BridgeInner
asked = (open_begin true (ascii "h") 80 none connect_io).0

asked-Reaches : Reaches asked
asked-Reaches = begins true (ascii "h") 80 none connects

-- A peer that takes three octets at most.
abbrev narrow : Peer
narrow = record { answer = λ _. accepts 3; flushes = true }

narrow-not-IsUnwilling : ¬ IsUnwilling narrow
narrow-not-IsUnwilling (k, inl e) = cc
narrow-not-IsUnwilling (k, inr e) = ground arith

abbrev sent_frames : List Frame
sent_frames =
    open_tcp_result 1 true []
    ∷ log (ascii "l")
    ∷ chunk 1 (ascii "he")
    ∷ chunk 2 (ascii "x")
    ∷ chunk 1 (ascii "y")
    ∷ close 1 (ascii "tcp closed")
    ∷ []

sent_frames-IsTyped : All IsTyped sent_frames
unfolding is_utf8
sent_frames-IsTyped = (
  (omega arith, (tt, refl)),
  (
    (ground arith, refl),
    (
      (omega arith, ground arith),
      (
        (omega arith, ground arith),
        ((omega arith, ground arith), ((omega arith, (ground arith, refl)), tt)),
      ),
    ),
  ),
)

sent_frames-Fits : All Fits sent_frames
unfolding encode_into write_string
sent_frames-Fits = (
  (2, 1, 1 ∷ 0 ∷ 0 ∷ [], refl, omega arith),
  (
    (6, 0, 0 ∷ 1 ∷ ascii "l", refl, omega arith),
    (
      (3, 1, ascii "he", refl, omega arith),
      (
        (3, 2, ascii "x", refl, omega arith),
        (
          (3, 1, ascii "y", refl, omega arith),
          ((4, 1, 0 ∷ 10 ∷ ascii "tcp closed", refl, omega arith), tt),
        ),
      ),
    ),
  ),
)

target_to_client_example :
    let wire = (writer_task narrow 6 (queued sent_frames default_metrics 0)).sink.out in
    (read_frames 7 (λ n k. 0) (record { ahead = wire; broken = false }) ≡ ok sent_frames)
    × (concat (received 1 (reader_loop (prompt sent_frames) asked).tcp_queue)
        ≡ concat (received 1 asked.tcp_queue) ++ ascii "hey")
unfolding of_stream lookup open_begin insert connect_io handle_open_tcp copy_reads
target_to_client_example =
    target_to_client narrow (λ n k. 0) (λ k. 1) sent_frames default_metrics 0 1 1 (ascii "hey")
      asked narrow-not-IsUnwilling refl sent_frames-IsTyped sent_frames-Fits asked-Reaches refl refl
