-- ===== src/Route/RemoteUse/Reachable.antt =====
-- Where a direct plan leads: crates/ssh-proxy-route/src/remote_use.rs.
use Prim.Native.String.{String}
use ssh_proxy.Base.{
  ◌≡◌, ◌≢◌, ◌⊎◌, refl, sym, ap, inl, inr, Bool, false, Bool-cases, Option, none, some, Result, ok,
  err,
}
use ssh_proxy.Route.RemoteUse.{
  RemoteUseConnectMode, RemoteUsePlan, RemoteUseDecision, RemoteUseInput, local_peer_of,
  resolve_remote_use_local_peer, decide_by, decide_remote_use,
}

module _ {Addr : Type 0} (display : Addr → String) (is_loopback : Addr → Bool) where
  -- The address was given, or is that of the daemon and reachable.
  abbrev pub IsPeer : Option Addr → Option Addr → Addr → Type 0
  IsPeer local_peer listen addr =
      (local_peer ≡ some addr)
      ⊎ ((local_peer ≡ none) × (listen ≡ some addr) × (is_loopback addr ≡ false))

  local_peer_of-IsPeer :
      (local_peer listen : Option Addr) (addr : Addr)
      → local_peer_of display is_loopback local_peer listen ≡ ok addr
      → IsPeer local_peer listen addr
  local_peer_of-IsPeer (some a) listen addr e = inl cc
  local_peer_of-IsPeer none none addr e = cc
  local_peer_of-IsPeer none (some a) addr e = elim (Bool-cases (is_loopback a)) [
    | inl loop ↦ cc (rw loop at e)
    | inr far ↦
        let same : a ≡ addr = cc (rw far at e) in inr (refl, ap some same, rw (sym same) far)
  ]

  abbrev pub Reachable : RemoteUseInput Addr → Addr → Type 0
  Reachable i addr =
      (i.connect_mode ≢ RemoteUseConnectMode.reverse_link)
      × IsPeer i.local_peer i.daemon_transport_listen addr

  decide_by-direct :
      (m : RemoteUseConnectMode) (r : Result String Addr) (d : RemoteUseDecision Addr) (addr : Addr)
      → decide_by display is_loopback m r ≡ ok d
      → d.plan ≡ RemoteUsePlan.direct addr
      → (m ≢ RemoteUseConnectMode.reverse_link) × (r ≡ ok addr)
  decide_by-direct RemoteUseConnectMode.auto (ok a) d addr e p = (λ q. cc, cc)
  decide_by-direct RemoteUseConnectMode.auto (err x) d addr e p = cc
  decide_by-direct RemoteUseConnectMode.direct (ok a) d addr e p = (λ q. cc, cc)
  decide_by-direct RemoteUseConnectMode.direct (err x) d addr e p = cc
  decide_by-direct RemoteUseConnectMode.reverse_link r d addr e p = cc

  -- A direct plan leads to the local peer that was given, or else to the listen address of the daemon,
  -- which then is no loopback address; it is not made where a reverse link was asked for.
  pub decide_remote_use-Reachable :
      (i : RemoteUseInput Addr) (d : RemoteUseDecision Addr) (addr : Addr)
      → decide_remote_use display is_loopback i ≡ ok d
      → d.plan ≡ RemoteUsePlan.direct addr
      → Reachable i addr
  unfolding decide_remote_use resolve_remote_use_local_peer
  decide_remote_use-Reachable i d addr e p =
      let (mode, found) =
        decide_by-direct i.connect_mode
          (local_peer_of display is_loopback i.local_peer i.daemon_transport_listen) d addr e p in
      (mode, local_peer_of-IsPeer i.local_peer i.daemon_transport_listen addr found)

  -- What the automatic mode makes of the result of the direct mode.
  abbrev pub or_reverse : Result String (RemoteUseDecision Addr) → RemoteUseDecision Addr
  or_reverse (ok d) = d
  or_reverse (err e) = record { plan = RemoteUsePlan.reverse_link; fallback_reason = some e }

  auto_of_direct :
      (r : Result String Addr)
      → decide_by display is_loopback RemoteUseConnectMode.auto r
        ≡ ok (or_reverse (decide_by display is_loopback RemoteUseConnectMode.direct r))
  auto_of_direct (ok a) = refl
  auto_of_direct (err e) = refl

  -- The automatic mode never fails: it takes the direct plan exactly where the direct mode succeeds,
  -- with the same address, and otherwise a reverse link with the error of the direct mode as its
  -- reason.
  decide_remote_use_auto :
      (i : RemoteUseInput Addr)
      → decide_remote_use display is_loopback
          (record i { connect_mode = RemoteUseConnectMode.auto })
        ≡ ok (
            or_reverse (
              decide_remote_use display is_loopback
                (record i { connect_mode = RemoteUseConnectMode.direct })))
  unfolding decide_remote_use resolve_remote_use_local_peer
  decide_remote_use_auto i =
      auto_of_direct (local_peer_of display is_loopback i.local_peer i.daemon_transport_listen)
