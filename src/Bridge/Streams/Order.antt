-- ===== src/Bridge/Streams/Order.antt =====
-- Streams do not mix: `reader_loop` of crates/ssh-proxy/src/bridge.rs.
use ssh_proxy.Base.{
  ℕ, ◌≤◌, ◌≡◌, ◌++◌, ◌==◌, refl, sym, ap, ◌∙◌, Bool, true, false, Bool-cases, List, [], ◌∷◌, some,
  Option-cases, inl, inr, arith, append-nil, append_assoc,
}
use ssh_proxy.Base.Table.{
  lookup, remove, uses, uses-remove_le, uses-remove_found, lookup-remove, lookup_of_apart,
}
use ssh_proxy.Wire.Bytes.{Bytes}
use ssh_proxy.Wire.Frame.{Frame, open_tcp, open_tcp_result, chunk, close, udp_packet, log}
use ssh_proxy.Bridge.State.{BridgeInner}
use ssh_proxy.Bridge.Reader.{Delivery, taken, receiver_gone, too_late, handle_frame, reader_loop}
use ssh_proxy.Bridge.Streams.Gone.{StaysGone, IsGone-rounds}
use ssh_proxy.Bridge.Runs.{Reaches, Reaches-IsLinked}
use ssh_proxy.Bridge.Streams.{
  arrives, received, incoming, received-append, Holds, open_tcp_result-Holds, udp_packet-Holds,
  close-Holds, unknown-Holds, taken-Holds, receiver_gone-Holds, too_late-Holds, log-Holds,
  open_tcp-Holds,
}

module _ (ch : ℕ) where
  -- The stream has an entry that leads to the channel, and no other entry does.
  abbrev IsLive : ℕ → BridgeInner → Type 0
  IsLive id s = (uses ch s.tcp_streams ≤ 1) × (lookup id s.tcp_streams ≡ some ch)

  IsLive-kept :
      (id : ℕ) (s s' : BridgeInner)
      → Holds s.tcp_streams s.tcp_queue s'
      → IsLive id s
      → IsLive id s' × (received ch s'.tcp_queue ≡ received ch s.tcp_queue)
  IsLive-kept id s s' (m, q) l = (rw m l, rw q refl)

  IsLive-removed :
      (id i : ℕ) (s s' : BridgeInner)
      → (i == id) ≡ false
      → Holds (remove i s.tcp_streams) s.tcp_queue s'
      → IsLive id s
      → IsLive id s' × (received ch s'.tcp_queue ≡ received ch s.tcp_queue)
  IsLive-removed id i s s' ne (m, q) (a, e) = (
    (
      rw m (omega (arith, uses-remove_le i ch s.tcp_streams)),
      rw (m, lookup-remove i id s.tcp_streams, ne) e,
    ),
    rw q refl,
  )

  self_removed :
      (id i : ℕ) (s s' : BridgeInner)
      → (i == id) ≡ true
      → Holds (remove i s.tcp_streams) s.tcp_queue s'
      → IsLive id s
      → StaysGone ch s s'
  self_removed id i s s' eq (m, q) (a, e) =
      (rw m (ground (arith, uses-remove_found id ch s.tcp_streams)), rw q refl)

  -- What a round leaves to be seen by the receiver.
  abbrev Sees : ℕ → List (Delivery × Bool × Frame) → BridgeInner → Type 0
  Sees id rounds s =
      received ch (reader_loop rounds s).tcp_queue ≡ received ch s.tcp_queue ++ incoming id rounds

  Sees-stopped :
      (rest : List (Delivery × Bool × Frame)) (s s' : BridgeInner)
      → StaysGone ch s s'
      → received ch (reader_loop rest s').tcp_queue ≡ received ch s.tcp_queue ++ []
  Sees-stopped rest s s' (g, e) = IsGone-rounds ch rest s' g ∙ e ∙ sym (append-nil _)

  Sees-continued :
      (id : ℕ) (rest : List (Delivery × Bool × Frame)) (s s' : BridgeInner)
      → received ch s'.tcp_queue ≡ received ch s.tcp_queue
      → Sees id rest s'
      → received ch (reader_loop rest s').tcp_queue ≡ received ch s.tcp_queue ++ incoming id rest
  Sees-continued id rest s s' e h = h ∙ ap (λ t. t ++ incoming id rest) e

  -- A chunk of another stream.
  IsLive-other :
      (id i tx : ℕ) (d : Delivery) (up : Bool) (payload : Bytes) (s : BridgeInner)
      → (i == id) ≡ false
      → lookup i s.tcp_streams ≡ some tx
      → IsLive id s
      → IsLive id (handle_frame d up (chunk i payload) s)
        × (received ch (handle_frame d up (chunk i payload) s).tcp_queue ≡ received ch s.tcp_queue)
  unfolding received
  IsLive-other id i tx taken up payload s ne e (a, l) =
      let (m, q) = taken-Holds up i tx payload s e in
      (
        (rw m a, rw m l),
        rw (q, received-append ch tx payload s.tcp_queue)
            (ground (
              arith,
              lookup_of_apart i id ch s.tcp_streams a,
              append-nil (received ch s.tcp_queue),
            )),
      )
  IsLive-other id i tx receiver_gone up payload s ne e l =
      IsLive-removed id i s (handle_frame receiver_gone up (chunk i payload) s) ne
        (receiver_gone-Holds up i tx payload s e) l
  IsLive-other id i tx too_late up payload s ne e l =
      IsLive-removed id i s (handle_frame too_late up (chunk i payload) s) ne
        (too_late-Holds up i tx payload s e) l

  Sees-own :
      (id i : ℕ) (d : Delivery) (up : Bool) (payload : Bytes)
      (rest : List (Delivery × Bool × Frame)) (s : BridgeInner)
      → (i == id) ≡ true
      → lookup i s.tcp_streams ≡ some ch
      → IsLive id s
      → ((s' : BridgeInner) → IsLive id s' → Sees id rest s')
      → received ch (reader_loop rest (handle_frame d up (chunk i payload) s)).tcp_queue
        ≡ received ch s.tcp_queue ++ arrives d payload (incoming id rest)
  unfolding received
  Sees-own id i taken up payload rest s eq e (a, l) h =
      let (m, q) = taken-Holds up i ch payload s e in
      h (handle_frame taken up (chunk i payload) s) (rw m a, rw m l)
      ∙ rw (q, received-append ch ch payload s.tcp_queue)
          (ground (arith, append_assoc (received ch s.tcp_queue) (payload ∷ []) (incoming id rest)))
  Sees-own id i receiver_gone up payload rest s eq e l h =
      Sees-stopped rest s (handle_frame receiver_gone up (chunk i payload) s) (
        self_removed id i s (handle_frame receiver_gone up (chunk i payload) s) eq
          (receiver_gone-Holds up i ch payload s e) l)
  Sees-own id i too_late up payload rest s eq e l h =
      Sees-stopped rest s (handle_frame too_late up (chunk i payload) s) (
        self_removed id i s (handle_frame too_late up (chunk i payload) s) eq
          (too_late-Holds up i ch payload s e) l)

  Sees-rounds :
      (id : ℕ) (rounds : List (Delivery × Bool × Frame)) (s : BridgeInner)
      → IsLive id s
      → Sees id rounds s
  unfolding reader_loop incoming
  Sees-rounds id [] s l = sym (append-nil _)
  Sees-rounds id ((d, up, chunk i payload) ∷ rest) s l = elim (Bool-cases (i == id)) [
    | inl eq ↦
        rw eq (Sees-own id i d up payload rest s eq (ground (arith, l.1)) l (Sees-rounds id rest))
    | inr ne ↦ rw ne (elim (Option-cases (lookup i s.tcp_streams)) [
      | inl e ↦
          let (l', q) =
            IsLive-kept id s (handle_frame d up (chunk i payload) s)
              (unknown-Holds d up i payload s e) l in
          Sees-continued id rest s (handle_frame d up (chunk i payload) s) q
            (Sees-rounds id rest (handle_frame d up (chunk i payload) s) l')
      | inr (tx, e) ↦
          let (l', q) = IsLive-other id i tx d up payload s ne e l in
          Sees-continued id rest s (handle_frame d up (chunk i payload) s) q
            (Sees-rounds id rest (handle_frame d up (chunk i payload) s) l')
    ])
  ]
  Sees-rounds id ((d, up, close i reason) ∷ rest) s l = elim (Bool-cases (i == id)) [
    | inl eq ↦ rw eq (
        Sees-stopped rest s (handle_frame d up (close i reason) s) (
          self_removed id i s (handle_frame d up (close i reason) s) eq
            (close-Holds d up i reason s) l))
    | inr ne ↦
        let (l', q) =
          IsLive-removed id i s (handle_frame d up (close i reason) s) ne
            (close-Holds d up i reason s) l in
        rw ne (
          Sees-continued id rest s (handle_frame d up (close i reason) s) q
            (Sees-rounds id rest (handle_frame d up (close i reason) s) l'))
  ]
  Sees-rounds id ((d, up, udp_packet i host port payload) ∷ rest) s l =
      let (l', q) =
        IsLive-kept id s (handle_frame d up (udp_packet i host port payload) s)
          (udp_packet-Holds d up i host port payload s) l in
      Sees-continued id rest s (handle_frame d up (udp_packet i host port payload) s) q
        (Sees-rounds id rest (handle_frame d up (udp_packet i host port payload) s) l')
  Sees-rounds id ((d, up, open_tcp_result i accepted message) ∷ rest) s l =
      let (l', q) =
        IsLive-kept id s (handle_frame d up (open_tcp_result i accepted message) s)
          (open_tcp_result-Holds d up accepted i message s) l in
      Sees-continued id rest s (handle_frame d up (open_tcp_result i accepted message) s) q
        (Sees-rounds id rest (handle_frame d up (open_tcp_result i accepted message) s) l')
  Sees-rounds id ((d, up, log message) ∷ rest) s l =
      let (l', q) =
        IsLive-kept id s (handle_frame d up (log message) s) (log-Holds d up message s) l in
      Sees-continued id rest s (handle_frame d up (log message) s) q
        (Sees-rounds id rest (handle_frame d up (log message) s) l')
  Sees-rounds id ((d, up, open_tcp i host port egress_proxy) ∷ rest) s l =
      let (l', q) =
        IsLive-kept id s (handle_frame d up (open_tcp i host port egress_proxy) s)
          (open_tcp-Holds d up i host port egress_proxy s) l in
      Sees-continued id rest s (handle_frame d up (open_tcp i host port egress_proxy) s) q
        (Sees-rounds id rest (handle_frame d up (open_tcp i host port egress_proxy) s) l')

-- Whatever a bridge did before, the receiver of an open stream is given, behind what it had, exactly
-- the payloads of the data frames with the id of that stream, in the order in which they were read:
-- all up to the frame that closes the stream, or to the first payload that the receiver fails to take.
pub reader_loop-received :
    (id ch : ℕ) (rounds : List (Delivery × Bool × Frame)) (s : BridgeInner)
    → Reaches s
    → lookup id s.tcp_streams ≡ some ch
    → received ch (reader_loop rounds s).tcp_queue ≡ received ch s.tcp_queue ++ incoming id rounds
reader_loop-received id ch rounds s r e =
    Sees-rounds ch id rounds s ((Reaches-IsLinked r).1.apart ch, e)
