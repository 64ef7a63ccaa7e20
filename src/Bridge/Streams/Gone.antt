-- ===== src/Bridge/Streams/Gone.antt =====
-- A channel that no entry leads to is given nothing more: `reader_loop` of crates/ssh-proxy/src/bridge.rs.
use ssh_proxy.Base.{
  ℕ, ◌≡◌, ◌++◌, refl, ◌∙◌, Bool, List, [], ◌∷◌, some, Option-cases, inl, inr, arith, append-nil,
}
use ssh_proxy.Base.Table.{lookup, remove, uses, uses-remove_le, uses-remove_found}
use ssh_proxy.Wire.Bytes.{Bytes}
use ssh_proxy.Wire.Frame.{Frame, open_tcp, open_tcp_result, chunk, close, udp_packet, log}
use ssh_proxy.Bridge.State.{BridgeInner}
use ssh_proxy.Bridge.Reader.{Delivery, taken, receiver_gone, too_late, handle_frame, reader_loop}
use ssh_proxy.Bridge.Streams.{
  received, received-append, Holds, open_tcp_result-Holds, udp_packet-Holds, close-Holds,
  unknown-Holds, taken-Holds, receiver_gone-Holds, too_late-Holds, log-Holds, open_tcp-Holds,
}

module _ (ch : ℕ) where
  -- No entry leads to the channel.
  abbrev pub IsGone : BridgeInner → Type 0
  IsGone s = uses ch s.tcp_streams ≡ 0

  -- A round that gives the channel nothing and leaves it without an entry.
  abbrev pub StaysGone : BridgeInner → BridgeInner → Type 0
  StaysGone s s' = IsGone s' × (received ch s'.tcp_queue ≡ received ch s.tcp_queue)

  IsGone-kept :
      (s s' : BridgeInner) → Holds s.tcp_streams s.tcp_queue s' → IsGone s → StaysGone s s'
  IsGone-kept s s' (m, q) g = (rw m g, rw q refl)

  IsGone-removed :
      (i : ℕ) (s s' : BridgeInner)
      → Holds (remove i s.tcp_streams) s.tcp_queue s'
      → IsGone s
      → StaysGone s s'
  IsGone-removed i s s' (m, q) g =
      (rw m (omega (arith, uses-remove_le i ch s.tcp_streams)), rw q refl)

  IsGone-taken :
      (i tx : ℕ) (payload : Bytes) (s s' : BridgeInner)
      → lookup i s.tcp_streams ≡ some tx
      → Holds s.tcp_streams (s.tcp_queue ++ (tx, payload) ∷ []) s'
      → IsGone s
      → StaysGone s s'
  unfolding received
  IsGone-taken i tx payload s s' e (m, q) g = (
    rw m g,
    rw (q, received-append ch tx payload s.tcp_queue)
        (ground
          (arith, uses-remove_found i ch s.tcp_streams, append-nil (received ch s.tcp_queue))),
  )

  IsGone-chunk :
      (d : Delivery) (up : Bool) (i tx : ℕ) (payload : Bytes) (s : BridgeInner)
      → lookup i s.tcp_streams ≡ some tx
      → IsGone s
      → StaysGone s (handle_frame d up (chunk i payload) s)
  IsGone-chunk taken up i tx payload s e g =
      IsGone-taken i tx payload s (handle_frame taken up (chunk i payload) s) e
        (taken-Holds up i tx payload s e) g
  IsGone-chunk receiver_gone up i tx payload s e g =
      IsGone-removed i s (handle_frame receiver_gone up (chunk i payload) s)
        (receiver_gone-Holds up i tx payload s e) g
  IsGone-chunk too_late up i tx payload s e g =
      IsGone-removed i s (handle_frame too_late up (chunk i payload) s)
        (too_late-Holds up i tx payload s e) g

  IsGone-round :
      (d : Delivery) (up : Bool) (f : Frame) (s : BridgeInner)
      → IsGone s
      → StaysGone s (handle_frame d up f s)
  IsGone-round d up (chunk i payload) s g = elim (Option-cases (lookup i s.tcp_streams)) [
    | inl e ↦
        IsGone-kept s (handle_frame d up (chunk i payload) s) (unknown-Holds d up i payload s e) g
    | inr (tx, e) ↦ IsGone-chunk d up i tx payload s e g
  ]
  IsGone-round d up (close i reason) s g =
      IsGone-removed i s (handle_frame d up (close i reason) s) (close-Holds d up i reason s) g
  IsGone-round d up (udp_packet i host port payload) s g =
      IsGone-kept s (handle_frame d up (udp_packet i host port payload) s)
        (udp_packet-Holds d up i host port payload s) g
  IsGone-round d up (open_tcp_result i accepted message) s g =
      IsGone-kept s (handle_frame d up (open_tcp_result i accepted message) s)
        (open_tcp_result-Holds d up accepted i message s) g
  IsGone-round d up (log message) s g =
      IsGone-kept s (handle_frame d up (log message) s) (log-Holds d up message s) g
  IsGone-round d up (open_tcp i host port egress_proxy) s g =
      IsGone-kept s (handle_frame d up (open_tcp i host port egress_proxy) s)
        (open_tcp-Holds d up i host port egress_proxy s) g

  pub IsGone-rounds :
      (rounds : List (Delivery × Bool × Frame)) (s : BridgeInner)
      → IsGone s
      → received ch (reader_loop rounds s).tcp_queue ≡ received ch s.tcp_queue
  unfolding reader_loop
  IsGone-rounds [] s g = refl
  IsGone-rounds ((d, up, f) ∷ rest) s g =
      let (g', e) = IsGone-round d up f s g in IsGone-rounds rest (handle_frame d up f s) g' ∙ e
