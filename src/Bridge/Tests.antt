-- ===== src/Bridge/Tests.antt =====
-- A bridge with two streams, and the theorems of the bridge at this state.
use ssh_proxy.Base.{
  ok, ◌≡◌, refl, Bool, true, false, List, [], ◌∷◌, none, some, inl, inr, All, arith,
}
use ssh_proxy.Base.Table.{lookup, remove, insert}
use ssh_proxy.Wire.Bytes.{Bytes}
use ssh_proxy.Wire.Frame.{Frame, encode_into, open_tcp_result, chunk, close}
use ssh_proxy.Bridge.State.{BridgeInner, refused, connect_io, default_metrics, send}
use ssh_proxy.Bridge.Open.{remote_message, Opening, replied, open_begin, open_finish}
use ssh_proxy.Bridge.Reader.{Delivery, taken, handle_frame, reader_loop, shut_down}
use ssh_proxy.Bridge.Invariant.{answers, IsLinked}
use ssh_proxy.Bridge.Runs.{Reaches, connects, begins, Reaches-IsLinked}
use ssh_proxy.Wire.Sink.{Peer, accepts}
use ssh_proxy.Wire.Sink.Sends.{IsUnwilling}
use ssh_proxy.Bridge.Writer.{WriterTask, writer_task}
use ssh_proxy.Bridge.Writer.Drained.{IsDrained, writer_task-IsDrained}
use ssh_proxy.Wire.Frame.{IsTyped}
use ssh_proxy.Wire.Reader.{read_frames}
use ssh_proxy.Bridge.Connection.{prompt, queued, writer_task-reader_loop}
use ssh_proxy.Bridge.Streams.{received, incoming}
use ssh_proxy.Bridge.Streams.Order.{reader_loop-received}
use ssh_proxy.Bridge.Ends.{
  IsUndone, IsClosed, closed_reply, open_finish-IsUndone, shut_down-answers, handle_frame-IsClosed,
}

abbrev host_text : Bytes
host_text = 0x68 ∷ []

abbrev data_text : Bytes
data_text = 0x61 ∷ 0x62 ∷ []

-- Two opens wait: stream ids 1 and 2, oneshots 0 and 2, channels 1 and 3.
abbrev asked : BridgeInner
asked = (open_begin true host_text 80 none (open_begin true host_text 443 none connect_io).0).0

asked-Reaches : Reaches asked
asked-Reaches = begins true host_text 80 none (begins true host_text 443 none connects)

abbrev first_opening : Opening
first_opening = record { id = 1; pending = 0; stream = 1 }

abbrev rounds : List (Delivery × Bool × Frame)
rounds =
    (taken, true, open_tcp_result 1 true [])
    ∷ (taken, true, chunk 1 data_text)
    ∷ (taken, true, chunk 2 host_text)
    ∷ (taken, true, chunk 1 host_text)
    ∷ (taken, true, close 1 host_text)
    ∷ (taken, true, chunk 1 data_text)
    ∷ []

reader_loop-received_example :
    received 1 (reader_loop rounds asked).tcp_queue ≡ data_text ∷ host_text ∷ []
unfolding received incoming open_begin connect_io send lookup insert remove
reader_loop-received_example = reader_loop-received 1 1 rounds asked asked-Reaches refl

Reaches-IsLinked_example : IsLinked asked
Reaches-IsLinked_example = Reaches-IsLinked {s = asked} asked-Reaches

shut_down-answers_example :
    (lookup 0 (shut_down asked).replies ≡ some closed_reply)
    × (answers 0 (shut_down asked).replies ≡ 1)
    × ((shut_down asked).pending_tcp ≡ [])
    × ((shut_down asked).tcp_streams ≡ [])
    × ((shut_down asked).udp_streams ≡ [])
unfolding open_begin connect_io send lookup insert remove
shut_down-answers_example = shut_down-answers 1 0 asked asked-Reaches refl

open_finish-IsUndone_example :
    IsUndone 1 asked (open_finish (replied (refused data_text)) first_opening asked).0
unfolding open_finish
open_finish-IsUndone_example =
    open_finish-IsUndone (replied (refused data_text)) first_opening asked
      (remote_message data_text) refl (λ e. cc)

handle_frame-IsClosed_example :
    IsClosed 1 host_text asked (handle_frame taken true (close 1 host_text) asked)
handle_frame-IsClosed_example = handle_frame-IsClosed taken true 1 host_text asked

-- A peer that takes three octets at most.
abbrev narrow : Peer
narrow = record { answer = λ _. accepts 3; flushes = true }

narrow-not-IsUnwilling : ¬ IsUnwilling narrow
narrow-not-IsUnwilling (k, inl e) = cc
narrow-not-IsUnwilling (k, inr e) = ground arith

abbrev queue : WriterTask
queue = record {
  channel = chunk 1 data_text ∷ chunk 2 host_text ∷ [];
  metrics = default_metrics;
  sink = record { out = []; calls = 0 };
}

writer_task-IsDrained_example : IsDrained queue (writer_task narrow 2 queue)
unfolding encode_into
writer_task-IsDrained_example =
    writer_task-IsDrained narrow narrow-not-IsUnwilling refl 2 queue (omega arith)
      ((3, 1, data_text, refl, omega arith), ((3, 2, host_text, refl, omega arith), tt))

abbrev sent_frames : List Frame
sent_frames = chunk 1 data_text ∷ chunk 2 host_text ∷ chunk 1 host_text ∷ []

sent_frames-IsTyped : All IsTyped sent_frames
sent_frames-IsTyped = (
  (omega arith, (omega arith, (omega arith, tt))),
  ((omega arith, (omega arith, tt)), ((omega arith, (omega arith, tt)), tt)),
)

writer_task-reader_loop_example :
    let wire = (writer_task narrow 3 (queued sent_frames default_metrics 0)).sink.out in
    (read_frames 4 (λ n k. 0) (record { ahead = wire; broken = false }) ≡ ok sent_frames)
    × (received 1 (reader_loop (prompt sent_frames) asked).tcp_queue ≡ data_text ∷ host_text ∷ [])
unfolding encode_into received incoming open_begin connect_io send lookup insert remove
writer_task-reader_loop_example =
    writer_task-reader_loop narrow (λ n k. 0) sent_frames default_metrics 0 1 1 asked
      narrow-not-IsUnwilling refl sent_frames-IsTyped
      (
        (3, 1, data_text, refl, omega arith),
        ((3, 2, host_text, refl, omega arith), ((3, 1, host_text, refl, omega arith), tt)),
      )
      asked-Reaches refl
