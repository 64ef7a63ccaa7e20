-- ===== src/Remote/Streams/Order.antt =====
-- Streams do not mix at the remote end: crates/ssh-proxy/src/remote.rs.
use ssh_proxy.Base.{
  ℕ, ◌≤◌, ◌<◌, ◌≡◌, ◌⊎◌, ◌++◌, ◌==◌, refl, sym, ap, ◌∙◌, true, false, Bool-cases, List, [], ◌∷◌,
  Option, none, some, Option-cases, inl, inr, arith, append-nil, append_assoc,
}
use ssh_proxy.Base.Table.{
  Table, lookup, insert, remove, uses, uses-remove_le, uses-remove_found, uses-insert_le,
  lookup-remove, lookup-insert, lookup_of_apart,
}
use ssh_proxy.Wire.Bytes.{Bytes}
use ssh_proxy.Bridge.Reader.{Delivery, taken, receiver_gone, too_late}
use ssh_proxy.Bridge.Streams.{received, received-append}
use ssh_proxy.Remote.State.{Transport}
use ssh_proxy.Remote.Events.{Event, step, run}
use ssh_proxy.Remote.Streams.{
  Effect, keeps, cuts, puts, gives, effect, seen, client_sends, Part, delivered, moved, step-Moves,
}

module _ (ch : ℕ) where
  abbrev IsGone : Part → Type 0
  IsGone p = uses ch p.0 ≡ 0

  -- The stream has an entry that leads to the channel, and no other entry does.
  abbrev IsLive : ℕ → Part → Type 0
  IsLive id p = (uses ch p.0 ≤ 1) × (lookup id p.0 ≡ some ch)

  IsGone-delivered :
      (d : Delivery) (i : ℕ) (payload : Bytes) (o : Option ℕ) (m : Table ℕ) (q : List (ℕ × Bytes))
      → lookup i m ≡ o
      → uses ch m ≡ 0
      → IsGone (delivered d i payload o (m, q))
        × (received ch (delivered d i payload o (m, q)).1 ≡ received ch q)
  unfolding received
  IsGone-delivered d i payload none m q e h = (h, refl)
  IsGone-delivered taken i payload (some tx) m q e h = (
    h,
    received-append ch tx payload q
        ∙ ground (arith, uses-remove_found i ch m, append-nil (received ch q), e),
  )
  IsGone-delivered receiver_gone i payload (some tx) m q e h =
      (omega (arith, uses-remove_le i ch m), refl)
  IsGone-delivered too_late i payload (some tx) m q e h =
      (omega (arith, uses-remove_le i ch m), refl)

  -- A channel that is not in the table is given nothing, whatever happens.
  IsGone-moved :
      (e : Effect) (n : ℕ) (m : Table ℕ) (q : List (ℕ × Bytes))
      → ch < n
      → uses ch m ≡ 0
      → IsGone (moved e n (m, q)) × (received ch (moved e n (m, q)).1 ≡ received ch q)
  IsGone-moved keeps n m q lt h = (h, refl)
  IsGone-moved (cuts i) n m q lt h = (omega (arith, uses-remove_le i ch m), refl)
  IsGone-moved (puts i) n m q lt h = (ground (arith, uses-insert_le i n ch m), refl)
  IsGone-moved (gives d i payload) n m q lt h = IsGone-delivered d i payload (lookup i m) m q refl h

  gone_run :
      (proxy : Option Bytes) (events : List Event) (s : Transport)
      → ch < s.channels
      → uses ch s.tcp_streams ≡ 0
      → received ch (run proxy events s).tcp_queue ≡ received ch s.tcp_queue
  unfolding run
  gone_run proxy [] s lt h = refl
  gone_run proxy (e ∷ events) s lt h =
      let (m, q, n) = step-Moves proxy e s in
      let (g, r) = IsGone-moved (effect e) s.channels s.tcp_streams s.tcp_queue lt h in
      gone_run proxy events (step proxy e s) (omega arith) (rw m g) ∙ rw q r

  -- What one event leaves: the stream lives on, or it is gone and this is all there was.
  abbrev Sees : ℕ → Effect → Part → Part → Type 0
  Sees id e p p' =
      (later : List Bytes) → received ch p'.1 ++ later ≡ received ch p.1 ++ seen id e later

  abbrev Stops : ℕ → Effect → Part → Part → Type 0
  Stops id e p p' =
      (later : List Bytes) → (received ch p'.1 ≡ received ch p.1) × (seen id e later ≡ [])

  abbrev Goes : ℕ → Effect → Part → Part → Type 0
  Goes id e p p' = (IsLive id p' × Sees id e p p') ⊎ (IsGone p' × Stops id e p p')

  self_removed :
      (id i : ℕ) (m : Table ℕ)
      → (i == id) ≡ true
      → uses ch m ≤ 1
      → lookup id m ≡ some ch
      → uses ch (remove i m) ≡ 0
  self_removed id i m e a l = ground (arith, uses-remove_found id ch m)

  cut-Goes :
      (id i : ℕ) (m : Table ℕ) (q : List (ℕ × Bytes))
      → IsLive id (m, q)
      → Goes id (cuts i) (m, q) (remove i m, q)
  cut-Goes id i m q (a, l) = elim (Bool-cases (i == id)) [
    | inl e ↦ inr (self_removed id i m e a l, λ later. (refl, rw e refl))
    | inr e ↦
        inl (
          (omega (arith, uses-remove_le i ch m), rw (lookup-remove i id m, e) l),
          λ later. rw e refl,
        )
  ]

  put-Goes :
      (id i n : ℕ) (m : Table ℕ) (q : List (ℕ × Bytes))
      → ch < n
      → IsLive id (m, q)
      → Goes id (puts i) (m, q) (insert i n m, q)
  unfolding insert uses
  put-Goes id i n m q lt (a, l) = elim (Bool-cases (i == id)) [
    | inl e ↦ inr (ground (arith, self_removed id i m e a l), λ later. (refl, rw e refl))
    | inr e ↦ inl (
      (ground (arith, uses-remove_le i ch m), rw (lookup-insert i id n m, e) l),
      λ later. rw e refl,
    )
  ]

  -- A payload for another stream.
  other-Goes :
      (id i tx : ℕ) (d : Delivery) (payload : Bytes) (m : Table ℕ) (q : List (ℕ × Bytes))
      → (i == id) ≡ false
      → lookup i m ≡ some tx
      → IsLive id (m, q)
      → Goes id (gives d i payload) (m, q) (delivered d i payload (some tx) (m, q))
  unfolding received
  other-Goes id i tx taken payload m q ne f (a, l) =
      let other : (tx == ch) ≡ false = ground (arith, lookup_of_apart i id ch m a, f, l) in
      inl (
        (a, l),
        λ later. rw (ne, received-append ch tx payload q, other, append-nil (received ch q)) refl,
      )
  other-Goes id i tx receiver_gone payload m q ne f (a, l) =
      inl (
        (omega (arith, uses-remove_le i ch m), rw (lookup-remove i id m, ne) l),
        λ later. rw ne refl,
      )
  other-Goes id i tx too_late payload m q ne f (a, l) =
      inl (
        (omega (arith, uses-remove_le i ch m), rw (lookup-remove i id m, ne) l),
        λ later. rw ne refl,
      )

  own-Goes :
      (id i : ℕ) (d : Delivery) (payload : Bytes) (m : Table ℕ) (q : List (ℕ × Bytes))
      → (i == id) ≡ true
      → IsLive id (m, q)
      → Goes id (gives d i payload) (m, q) (delivered d i payload (some ch) (m, q))
  unfolding received
  own-Goes id i taken payload m q e (a, l) =
      let self : (ch == ch) ≡ true = ground arith in
      inl (
        (a, l),
        λ later.
            rw (e, received-append ch ch payload q, self)
              (append_assoc (received ch q) (payload ∷ []) later),
      )
  own-Goes id i receiver_gone payload m q e (a, l) =
      inr (self_removed id i m e a l, λ later. (refl, rw e refl))
  own-Goes id i too_late payload m q e (a, l) =
      inr (self_removed id i m e a l, λ later. (refl, rw e refl))

  give-Goes :
      (id i : ℕ) (d : Delivery) (payload : Bytes) (m : Table ℕ) (q : List (ℕ × Bytes))
      → IsLive id (m, q)
      → Goes id (gives d i payload) (m, q) (delivered d i payload (lookup i m) (m, q))
  give-Goes id i d payload m q (a, l) = elim (Bool-cases (i == id)) [
    | inl e ↦
        let same : i ≡ id = ground (arith, e) in
        rw (same, l) (rw same at (own-Goes id i d payload m q e (a, l)))
    | inr e ↦ elim (Option-cases (lookup i m)) [
      | inl f ↦ rw f (inl ((a, l), λ later. rw e refl))
      | inr (tx, f) ↦ rw f (other-Goes id i tx d payload m q e f (a, l))
    ]
  ]

  moved-Goes :
      (id : ℕ) (e : Effect) (n : ℕ) (m : Table ℕ) (q : List (ℕ × Bytes))
      → ch < n
      → IsLive id (m, q)
      → Goes id e (m, q) (moved e n (m, q))
  moved-Goes id keeps n m q lt l = inl (l, λ later. refl)
  moved-Goes id (cuts i) n m q lt l = cut-Goes id i m q l
  moved-Goes id (puts i) n m q lt l = put-Goes id i n m q lt l
  moved-Goes id (gives d i payload) n m q lt l = give-Goes id i d payload m q l

  pub live_run :
      (proxy : Option Bytes) (id : ℕ) (events : List Event) (s : Transport)
      → ch < s.channels
      → IsLive id (s.tcp_streams, s.tcp_queue)
      → received ch (run proxy events s).tcp_queue
        ≡ received ch s.tcp_queue ++ client_sends id events
  unfolding run client_sends
  live_run proxy id [] s lt l = sym (append-nil (received ch s.tcp_queue))
  live_run proxy id (e ∷ events) s lt l =
      let (m, q, n) = step-Moves proxy e s in
      let later = client_sends id events in
      elim (moved-Goes id (effect e) s.channels s.tcp_streams s.tcp_queue lt l) [
        | inl (l', h) ↦
            live_run proxy id events (step proxy e s) (omega arith) (rw m l') ∙ rw q (h later)
        | inr (g, h) ↦
            gone_run proxy events (step proxy e s) (omega arith) (rw m g)
            ∙ rw q (h later).0
            ∙ sym (append-nil (received ch s.tcp_queue))
            ∙ ap (λ t. received ch s.tcp_queue ++ t) (sym (h later).1)
      ]
