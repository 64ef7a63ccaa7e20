-- ===== src/Route/Decision/Trust.antt =====
-- When a route goes out unencrypted: `transport_selection_policy` of
-- crates/ssh-proxy-route/src/decision.rs.
use Prim.Native.String.{String}
use ssh_proxy.Base.{
  ◌≡◌, refl, ap, ◌∙◌, ◌⊎◌, >>=-eq-ok, true, Bool-cases, Option, none, some, Result, ok, inl, inr,
}
use ssh_proxy.Route.Mode.{
  TransportMode, auto, ssh_native, quic_native, quic, tls_tcp, plain_tcp, exec, tcp, is_auto,
  parse_transport_mode,
}
use ssh_proxy.Route.Decision.{
  TransportSelection, TransportSelectionPolicyInput, from_ssh, from_peer, from_plain_tcp,
  from_default_mode, from_defaults, from_quic, from_tls, from_profile_mode, from_profile,
  transport_selection_policy,
}

-- Plain TCP comes out only where the condition holds.
abbrev PlainOnlyIf : Result String TransportSelection → Type 0 → Type 0
PlainOnlyIf r P = (s : TransportSelection) → r ≡ ok s → s.transport ≡ plain_tcp → P

module _ {Addr : Type 0} where
  from_peer-PlainOnlyIf : (i : TransportSelectionPolicyInput Addr) → PlainOnlyIf (from_peer i) ⊥
  unfolding from_peer from_ssh
  from_peer-PlainOnlyIf i s e q = elim (Bool-cases i.persistent_peer_ready) [
    | inl ready ↦ cc (rw ready at e)
    | inr far ↦ cc (rw far at e)
  ]

  from_plain_tcp-PlainOnlyIf :
      (i : TransportSelectionPolicyInput Addr)
      → PlainOnlyIf (from_plain_tcp i) (i.allow_plain_tcp ≡ true)
  unfolding from_plain_tcp
  from_plain_tcp-PlainOnlyIf i s e q = elim (Bool-cases i.allow_plain_tcp) [
    | inl allowed ↦ allowed
    | inr refused ↦ absurd (from_peer-PlainOnlyIf i s (rw refused at e) q)
  ]

  from_default_mode-PlainOnlyIf :
      (i : TransportSelectionPolicyInput Addr) (t : TransportMode)
      → PlainOnlyIf (from_default_mode i t) (i.allow_plain_tcp ≡ true)
  unfolding from_default_mode
  from_default_mode-PlainOnlyIf i auto s e q = from_plain_tcp-PlainOnlyIf i s e q
  from_default_mode-PlainOnlyIf i plain_tcp s e q = elim (Bool-cases i.allow_plain_tcp) [
    | inl allowed ↦ allowed
    | inr refused ↦ absurd (from_peer-PlainOnlyIf i s (rw refused at e) q)
  ]
  from_default_mode-PlainOnlyIf i ssh_native s e q = cc
  from_default_mode-PlainOnlyIf i quic_native s e q = cc
  from_default_mode-PlainOnlyIf i quic s e q = cc
  from_default_mode-PlainOnlyIf i tls_tcp s e q = cc
  from_default_mode-PlainOnlyIf i exec s e q = cc
  from_default_mode-PlainOnlyIf i tcp s e q = cc

  from_defaults-PlainOnlyIf :
      (i : TransportSelectionPolicyInput Addr) (o : Option String)
      → PlainOnlyIf (from_defaults i o) (i.allow_plain_tcp ≡ true)
  unfolding from_defaults
  from_defaults-PlainOnlyIf i none s e q = from_plain_tcp-PlainOnlyIf i s e q
  from_defaults-PlainOnlyIf i (some value) s e q =
      let (t, parsed, rest) = >>=-eq-ok (parse_transport_mode value) (from_default_mode i) e in
      from_default_mode-PlainOnlyIf i t s rest q

  -- No encrypted endpoint is configured, and plain TCP is allowed.
  abbrev pub NoOther : TransportSelectionPolicyInput Addr → Type 0
  NoOther i = (i.remote_tls ≡ none) × (i.remote_quic ≡ none) × (i.allow_plain_tcp ≡ true)

  -- The user asked for plain TCP, on the command line or in the profile.
  abbrev pub Asked : TransportSelectionPolicyInput Addr → Type 0
  Asked i =
      (i.requested_transport ≡ plain_tcp)
      ⊎ ((value : String) × (i.profile_remote_transport ≡ some value)
          × (parse_transport_mode value ≡ ok plain_tcp))

module _ {Addr : Type 0} (display : Addr → String) where
  from_quic-PlainOnlyIf :
      (i : TransportSelectionPolicyInput Addr) (a : Option Addr)
      → PlainOnlyIf (from_quic display i a) ((a ≡ none) × (i.allow_plain_tcp ≡ true))
  unfolding from_quic
  from_quic-PlainOnlyIf i none s e q =
      (refl, from_defaults-PlainOnlyIf i i.defaults_remote_transport s e q)
  from_quic-PlainOnlyIf i (some addr) s e q = cc

  from_tls-PlainOnlyIf :
      (i : TransportSelectionPolicyInput Addr) (a : Option Addr)
      → PlainOnlyIf
          (from_tls display i a)
          ((a ≡ none) × (i.remote_quic ≡ none) × (i.allow_plain_tcp ≡ true))
  unfolding from_tls
  from_tls-PlainOnlyIf i none s e q =
      let (no_quic, allowed) = from_quic-PlainOnlyIf i i.remote_quic s e q in
      (refl, no_quic, allowed)
  from_tls-PlainOnlyIf i (some addr) s e q = cc

  from_profile_mode-PlainOnlyIf :
      (i : TransportSelectionPolicyInput Addr) (t : TransportMode)
      → PlainOnlyIf (from_profile_mode display i t) ((t ≡ plain_tcp) ⊎ NoOther i)
  unfolding from_profile_mode
  from_profile_mode-PlainOnlyIf i auto s e q = inr (from_tls-PlainOnlyIf i i.remote_tls s e q)
  from_profile_mode-PlainOnlyIf i plain_tcp s e q = inl refl
  from_profile_mode-PlainOnlyIf i ssh_native s e q = cc
  from_profile_mode-PlainOnlyIf i quic_native s e q = cc
  from_profile_mode-PlainOnlyIf i quic s e q = cc
  from_profile_mode-PlainOnlyIf i tls_tcp s e q = cc
  from_profile_mode-PlainOnlyIf i exec s e q = cc
  from_profile_mode-PlainOnlyIf i tcp s e q = cc

  from_profile-PlainOnlyIf :
      (i : TransportSelectionPolicyInput Addr) (o : Option String)
      → PlainOnlyIf (from_profile display i o) (
          ((value : String) × (o ≡ some value) × (parse_transport_mode value ≡ ok plain_tcp))
          ⊎ NoOther i)
  unfolding from_profile
  from_profile-PlainOnlyIf i none s e q = inr (from_tls-PlainOnlyIf i i.remote_tls s e q)
  from_profile-PlainOnlyIf i (some value) s e q =
      let (t, parsed, rest) =
        >>=-eq-ok (parse_transport_mode value) (from_profile_mode display i) e in
      elim (from_profile_mode-PlainOnlyIf i t s rest q) [
        | inl plain ↦ inl (value, refl, parsed ∙ ap ok plain)
        | inr other ↦ inr other
      ]

  -- Plain TCP is selected only if the user asked for it, on the command line or in the profile, or if
  -- it is allowed and neither a TLS nor a QUIC endpoint is configured.
  pub transport_selection_policy-PlainOnlyIf :
      (i : TransportSelectionPolicyInput Addr) (s : TransportSelection)
      → transport_selection_policy display i ≡ ok s
      → s.transport ≡ plain_tcp
      → Asked i ⊎ NoOther i
  unfolding transport_selection_policy
  transport_selection_policy-PlainOnlyIf i s e q =
      elim (Bool-cases (is_auto i.requested_transport)) [
        | inl free ↦
            elim (from_profile-PlainOnlyIf i i.profile_remote_transport s (rw free at e) q) [
              | inl asked ↦ inl (inr asked)
              | inr other ↦ inr other
            ]
        | inr explicit ↦
            let kept : i.requested_transport ≡ plain_tcp = cc (rw explicit at e) in inl (inl kept)
      ]
