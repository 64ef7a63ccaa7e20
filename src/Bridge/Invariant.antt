-- ===== src/Bridge/Invariant.antt =====
-- What keeps the tables of the bridge sound: each channel is held by at most one entry, and each
-- oneshot is answered at most once (crates/ssh-proxy/src/bridge.rs).
use ssh_proxy.Base.{
  ℕ, ◌+◌, ◌≤◌, ◌<◌, ◌≡◌, ◌==◌, refl, Bool, true, false, List, [], ◌∷◌, arith, if◌then◌else◌,
}
use ssh_proxy.Base.Table.{Table, uses, uses-remove_le, IsDrawn, IsDrawn-nil, IsDrawn-remove}
use ssh_proxy.Wire.Bytes.{u32_mod}
use ssh_proxy.Wire.Frame.{Frame}
use ssh_proxy.Bridge.State.{BridgeInner, Reply, connect_io, send, drop_tcp, drop_udp, drop_open}

-- How often a oneshot was answered.
unfoldable pub answers : ℕ → List (ℕ × Reply) → ℕ
answers h [] = 0
answers h ((tx, reply) ∷ replies) = (if tx == h then 1 else 0) + answers h replies

-- A oneshot waits in the table, or was answered once, or was dropped.
pub record IsOnce (n : ℕ) (pending : Table ℕ) (replies : List (ℕ × Reply)) : Type 0 where
  pub once : (h : ℕ) → uses h pending + answers h replies ≤ 1
  pub fresh : (h : ℕ) → n ≤ h → uses h pending + answers h replies ≡ 0

abbrev pub IsLinked : BridgeInner → Type 0
IsLinked s =
    IsOnce s.channels s.pending_tcp s.replies
    × IsDrawn s.channels s.tcp_streams
    × IsDrawn s.channels s.udp_streams
    × s.next_id < u32_mod

pub connect_io-IsLinked : IsLinked connect_io
unfolding connect_io uses answers
connect_io-IsLinked = (
  record { once = λ h. omega arith; fresh = λ h le. refl },
  IsDrawn-nil 0,
  IsDrawn-nil 0,
  omega arith,
)

pub drop_tcp-IsLinked : (id : ℕ) (s : BridgeInner) → IsLinked s → IsLinked (drop_tcp id s)
drop_tcp-IsLinked id s (o, t, u, r) = (o, IsDrawn-remove id s.channels s.tcp_streams t, u, r)

pub drop_udp-IsLinked : (id : ℕ) (s : BridgeInner) → IsLinked s → IsLinked (drop_udp id s)
drop_udp-IsLinked id s (o, t, u, r) = (o, t, IsDrawn-remove id s.channels s.udp_streams u, r)

pub drop_open-IsLinked : (id : ℕ) (s : BridgeInner) → IsLinked s → IsLinked (drop_open id s)
drop_open-IsLinked id s (o, t, u, r) = (
  record {
    once = λ h. omega (arith, uses-remove_le id h s.pending_tcp, o.once h);
    fresh = λ h le. omega (arith, uses-remove_le id h s.pending_tcp, o.fresh h le);
  },
  IsDrawn-remove id s.channels s.tcp_streams t,
  u,
  r,
)

pub send-IsLinked : (up : Bool) (f : Frame) (s : BridgeInner) → IsLinked s → IsLinked (send up f s)
unfolding send
send-IsLinked true f s l = l
send-IsLinked false f s l = l
