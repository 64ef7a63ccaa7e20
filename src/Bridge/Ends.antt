-- ===== src/Bridge/Ends.antt =====
-- How an open, a stream and a connection end (crates/ssh-proxy/src/bridge.rs).
use ssh_proxy.Base.{
  List, none, ℕ, ◌+◌, ◌≡◌, ◌==◌, ◌≢◌, refl, Bool, false, Bool-cases, [], ◌∷◌, Option, some,
  Option-cases, inl, inr, arith, err,
}
use ssh_proxy.Base.Table.{
  Table, lookup, uses-remove_found, IsCut, remove-IsCut, remove-insert-IsCut, IsCut-of_none,
}
use ssh_proxy.Wire.Bytes.{Bytes, ascii}
use ssh_proxy.Wire.Frame.{close}
use ssh_proxy.Bridge.State.{
  BridgeInner, Reply, opened, refused, record_read_frame, drop_tcp, drop_udp, drop_open,
}
use ssh_proxy.Bridge.Open.{
  BridgeError, bridge_unavailable, bridge_closed, Opening, Await, replied, sender_dropped,
  timed_out, open_begin, open_finish,
}
use ssh_proxy.Bridge.Reader.{Delivery, answer, dispatch, handle_frame, refuse_all, shut_down}
use ssh_proxy.Bridge.Invariant.{answers}
use ssh_proxy.Bridge.Calls.{answers-refuse_all}
use ssh_proxy.Bridge.Runs.{Reaches, Reaches-IsLinked}

-- No table of `open_tcp` knows the id, and every other id has the entries it had.
abbrev pub IsUndone : ℕ → BridgeInner → BridgeInner → Type 0
IsUndone id s s' = IsCut id s.pending_tcp s'.pending_tcp × IsCut id s.tcp_streams s'.tcp_streams

drop_open-IsUndone : (id : ℕ) (s : BridgeInner) → IsUndone id s (drop_open id s)
drop_open-IsUndone id s = (remove-IsCut id s.pending_tcp, remove-IsCut id s.tcp_streams)

-- An open that is refused or that times out leaves no entry for its stream id, and the entries of
-- all other ids as they were.
pub open_finish-IsUndone :
    (a : Await) (o : Opening) (s : BridgeInner) (e : BridgeError)
    → (open_finish a o s).1 ≡ err e
    → e ≢ bridge_closed
    → IsUndone o.id s (open_finish a o s).0
unfolding open_finish
open_finish-IsUndone (replied opened) o s e h ne = cc
open_finish-IsUndone (replied (refused message)) o s e h ne = drop_open-IsUndone o.id s
open_finish-IsUndone sender_dropped o s e h ne = absurd (ne (cc))
open_finish-IsUndone timed_out o s e h ne = drop_open-IsUndone o.id s

-- An open whose frame the writer does not take fails, and leaves no entry for the stream id that it
-- had taken; the other ids keep theirs.
open_begin-IsUndone :
    (host : Bytes) (port : ℕ) (egress_proxy : Option Bytes) (s : BridgeInner)
    → ((open_begin false host port egress_proxy s).1 ≡ err bridge_unavailable)
      × IsUndone s.next_id s (open_begin false host port egress_proxy s).0
unfolding open_begin
open_begin-IsUndone host port egress_proxy s = (
  refl,
  (
    remove-insert-IsCut s.next_id s.channels s.pending_tcp,
    remove-insert-IsCut s.next_id (s.channels + 1) s.tcp_streams,
  ),
)

abbrev pub closed_reply : Reply
closed_reply = refused (ascii "remote bridge closed")

lookup-refuse_all_kept :
    (h : ℕ) (m : Table ℕ) (replies : Table Reply)
    → lookup h replies ≡ some closed_reply
    → lookup h (refuse_all m replies) ≡ some closed_reply
unfolding lookup refuse_all
lookup-refuse_all_kept h [] replies e = e
lookup-refuse_all_kept h ((id, tx) ∷ m) replies e =
    lookup-refuse_all_kept h m ((tx, closed_reply) ∷ replies) (ground (arith, e))

lookup-refuse_all :
    (id h : ℕ) (m : Table ℕ) (replies : Table Reply)
    → lookup id m ≡ some h
    → lookup h (refuse_all m replies) ≡ some closed_reply
unfolding lookup refuse_all
lookup-refuse_all id h [] replies e = cc
lookup-refuse_all id h ((j, tx) ∷ m) replies e = elim (Bool-cases (j == id)) [
  | inl eq ↦ lookup-refuse_all_kept h m ((tx, closed_reply) ∷ replies) (ground arith)
  | inr ne ↦ lookup-refuse_all id h m ((tx, closed_reply) ∷ replies) (ground arith)
]

-- When the connection ends, each open that waits is answered with "remote bridge closed", and is
-- answered this once; all three tables are empty.
pub shut_down-answers :
    (id h : ℕ) (s : BridgeInner)
    → Reaches s
    → lookup id s.pending_tcp ≡ some h
    → (lookup h (shut_down s).replies ≡ some closed_reply)
      × (answers h (shut_down s).replies ≡ 1)
      × ((shut_down s).pending_tcp ≡ [])
      × ((shut_down s).tcp_streams ≡ [])
      × ((shut_down s).udp_streams ≡ [])
unfolding shut_down
shut_down-answers id h s r e = (
  lookup-refuse_all id h s.pending_tcp s.replies e,
  omega (
    arith,
    answers-refuse_all h s.pending_tcp s.replies,
    (Reaches-IsLinked r).0.once h,
    uses-remove_found id h s.pending_tcp e,
  ),
  refl,
  refl,
  refl,
)

-- The answer to an open that waits.
abbrev refused_of : Option ℕ → Bytes → List (ℕ × Reply) → List (ℕ × Reply)
refused_of (some tx) reason replies = (tx, refused reason) ∷ replies
refused_of none reason replies = replies

-- A stream is closed: what a close frame makes of the tables and of an open that waits.
abbrev pub IsClosed : ℕ → Bytes → BridgeInner → BridgeInner → Type 0
IsClosed id reason s s' =
    IsUndone id s s'
    × IsCut id s.udp_streams s'.udp_streams
    × (s'.replies ≡ refused_of (lookup id s.pending_tcp) reason s.replies)
    × (s'.tcp_queue ≡ s.tcp_queue)
    × (s'.udp_queue ≡ s.udp_queue)

answer-IsClosed :
    (id : ℕ) (reason : Bytes) (s : BridgeInner)
    → IsClosed id reason s (answer id (refused reason) (drop_udp id (drop_tcp id s)))
unfolding answer lookup
answer-IsClosed id reason s = elim (Option-cases (lookup id s.pending_tcp)) [
  | inl e ↦
      rw (e, answer)
        (
          (IsCut-of_none id s.pending_tcp e, remove-IsCut id s.tcp_streams),
          remove-IsCut id s.udp_streams,
          refl,
          refl,
          refl,
        )
  | inr (tx, e) ↦
      rw (e, answer) (drop_open-IsUndone id s, remove-IsCut id s.udp_streams, refl, refl, refl)
]

-- A close frame takes its id out of all three tables and nothing else, and delivers nothing; an open
-- that waits for this id is refused with the reason that the peer gave.
pub handle_frame-IsClosed :
    (d : Delivery) (up : Bool) (id : ℕ) (reason : Bytes) (s : BridgeInner)
    → IsClosed id reason s (handle_frame d up (close id reason) s)
unfolding handle_frame dispatch
handle_frame-IsClosed d up id reason s =
    answer-IsClosed id reason (record s { metrics = record_read_frame (close id reason) s.metrics })
