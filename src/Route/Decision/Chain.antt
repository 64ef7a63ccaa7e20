-- ===== src/Route/Decision/Chain.antt =====
-- The precedence of the transports: `transport_selection_policy` of
-- crates/ssh-proxy-route/src/decision.rs against a list of candidates.
use Prim.Native.String.{String}
use ssh_proxy.Base.{
  ◌≡◌, refl, sym, >>=-eq-ok, Bool, Bool-cases, List, [], ◌∷◌, Option, none, some, is_some, Result,
  ok, inl, inr, if◌then◌else◌, ◌>>=◌,
}
use ssh_proxy.Route.Mode.{
  TransportMode, auto, ssh_native, quic_native, quic, tls_tcp, plain_tcp, exec, tcp,
  parse_transport_mode,
}
use ssh_proxy.Route.Decision.{
  TransportSelection, TransportSelectionPolicyInput, from_ssh, from_peer, from_plain_tcp,
  from_default_mode, from_defaults, from_quic, from_tls, from_profile_mode, from_profile,
  transport_selection_policy,
}

-- A configured text, read.
unfoldable pub configured : Option String → Result String (Option TransportMode)
configured none = ok none
configured (some value) = parse_transport_mode value >>= λ t. ok (some t)

-- `auto` asks for nothing.
abbrev pub wish : Option TransportMode → Option TransportMode
wish none = none
wish (some auto) = none
wish (some t) = some t

-- A default of plain TCP counts where plain TCP is allowed.
abbrev pub trusted : Bool → Option TransportMode → Option TransportMode
trusted allow (some plain_tcp) = if allow then some plain_tcp else none
trusted allow o = o

abbrev pub only_if : Bool → TransportMode → Option TransportMode
only_if b t = if b then some t else none

abbrev pub first_of : List (Option TransportMode) → TransportMode → TransportMode
first_of [] t = t
first_of (none ∷ os) t = first_of os t
first_of (some t' ∷ os) t = t'

-- The transport's part of the result.
abbrev pub Chooses : Result String TransportSelection → TransportMode → Type 0
Chooses r t = (s : TransportSelection) × (r ≡ ok s) × (s.transport ≡ t)

module _ {Addr : Type 0} where
  abbrev pub after_plain : TransportSelectionPolicyInput Addr → List (Option TransportMode)
  after_plain i = only_if i.allow_plain_tcp plain_tcp ∷ only_if i.persistent_peer_ready tcp ∷ []

  -- The candidates, best first: command line, profile, TLS endpoint, QUIC endpoint, defaults, plain
  -- TCP, a peer behind SSH.
  abbrev pub candidate_transports :
      TransportSelectionPolicyInput Addr
      → Option TransportMode
      → Option TransportMode
      → List (Option TransportMode)
  candidate_transports i profile defaults =
      wish (some i.requested_transport)
      ∷ wish profile
      ∷ only_if (is_some i.remote_tls) tls_tcp
      ∷ only_if (is_some i.remote_quic) quic
      ∷ trusted i.allow_plain_tcp (wish defaults)
      ∷ after_plain i

  from_plain_tcp-Chooses :
      (i : TransportSelectionPolicyInput Addr)
      → Chooses (from_plain_tcp i) (first_of (after_plain i) ssh_native)
  unfolding from_plain_tcp from_peer from_ssh
  from_plain_tcp-Chooses i = elim (Bool-cases i.allow_plain_tcp) [
    | inl allowed ↦ rw allowed (_, refl, refl)
    | inr refused ↦ elim (Bool-cases i.persistent_peer_ready) [
      | inl ready ↦ rw (refused, ready) (_, refl, refl)
      | inr far ↦ rw (refused, far) (_, refl, refl)
    ]
  ]

  from_default_mode-Chooses :
      (i : TransportSelectionPolicyInput Addr) (t : TransportMode)
      → Chooses
          (from_default_mode i t)
          (first_of (trusted i.allow_plain_tcp (wish (some t)) ∷ after_plain i) ssh_native)
  unfolding from_default_mode
  from_default_mode-Chooses i auto = from_plain_tcp-Chooses i
  from_default_mode-Chooses i plain_tcp = elim (Bool-cases i.allow_plain_tcp) [
    | inl allowed ↦ rw allowed (_, refl, refl)
    | inr refused ↦ rw refused (rw refused at (from_plain_tcp-Chooses i))
  ]
  from_default_mode-Chooses i ssh_native = (_, refl, refl)
  from_default_mode-Chooses i quic_native = (_, refl, refl)
  from_default_mode-Chooses i quic = (_, refl, refl)
  from_default_mode-Chooses i tls_tcp = (_, refl, refl)
  from_default_mode-Chooses i exec = (_, refl, refl)
  from_default_mode-Chooses i tcp = (_, refl, refl)

  from_defaults-Chooses :
      (i : TransportSelectionPolicyInput Addr) (o : Option String) (d : Option TransportMode)
      → configured o ≡ ok d
      → Chooses
          (from_defaults i o)
          (first_of (trusted i.allow_plain_tcp (wish d) ∷ after_plain i) ssh_native)
  unfolding from_defaults configured
  from_defaults-Chooses i none none e = from_plain_tcp-Chooses i
  from_defaults-Chooses i none (some t) e = cc
  from_defaults-Chooses i (some value) d e =
      let (t, parsed, same) = >>=-eq-ok (parse_transport_mode value) _ e in
      let equal : some t ≡ d = cc in rw (parsed, sym equal) (from_default_mode-Chooses i t)

module _ {Addr : Type 0} (display : Addr → String) where
  abbrev direct_candidates :
      TransportSelectionPolicyInput Addr
      → Option Addr
      → Option Addr
      → Option TransportMode
      → List (Option TransportMode)
  direct_candidates i tls quic_addr d =
      only_if (is_some tls) tls_tcp
      ∷ only_if (is_some quic_addr) quic
      ∷ trusted i.allow_plain_tcp (wish d)
      ∷ after_plain i

  from_quic-Chooses :
      (i : TransportSelectionPolicyInput Addr) (a : Option Addr) (d : Option TransportMode)
      → configured i.defaults_remote_transport ≡ ok d
      → Chooses (from_quic display i a) (first_of (direct_candidates i none a d) ssh_native)
  unfolding from_quic
  from_quic-Chooses i none d e = from_defaults-Chooses i i.defaults_remote_transport d e
  from_quic-Chooses i (some addr) d e = (_, refl, refl)

  from_tls-Chooses :
      (i : TransportSelectionPolicyInput Addr) (a : Option Addr) (d : Option TransportMode)
      → configured i.defaults_remote_transport ≡ ok d
      → Chooses (from_tls display i a) (first_of (direct_candidates i a i.remote_quic d) ssh_native)
  unfolding from_tls
  from_tls-Chooses i none d e = from_quic-Chooses i i.remote_quic d e
  from_tls-Chooses i (some addr) d e = (_, refl, refl)

  from_profile_mode-Chooses :
      (i : TransportSelectionPolicyInput Addr) (t : TransportMode) (d : Option TransportMode)
      → configured i.defaults_remote_transport ≡ ok d
      → Chooses
          (from_profile_mode display i t)
          (first_of (wish (some t) ∷ direct_candidates i i.remote_tls i.remote_quic d) ssh_native)
  unfolding from_profile_mode
  from_profile_mode-Chooses i auto d e = from_tls-Chooses i i.remote_tls d e
  from_profile_mode-Chooses i ssh_native d e = (_, refl, refl)
  from_profile_mode-Chooses i quic_native d e = (_, refl, refl)
  from_profile_mode-Chooses i quic d e = (_, refl, refl)
  from_profile_mode-Chooses i tls_tcp d e = (_, refl, refl)
  from_profile_mode-Chooses i plain_tcp d e = (_, refl, refl)
  from_profile_mode-Chooses i exec d e = (_, refl, refl)
  from_profile_mode-Chooses i tcp d e = (_, refl, refl)

  from_profile-Chooses :
      (i : TransportSelectionPolicyInput Addr) (o : Option String) (p d : Option TransportMode)
      → configured o ≡ ok p
      → configured i.defaults_remote_transport ≡ ok d
      → Chooses
          (from_profile display i o)
          (first_of (wish p ∷ direct_candidates i i.remote_tls i.remote_quic d) ssh_native)
  unfolding from_profile configured
  from_profile-Chooses i none none d e e' = from_tls-Chooses i i.remote_tls d e'
  from_profile-Chooses i none (some t) d e e' = cc
  from_profile-Chooses i (some value) p d e e' =
      let (t, parsed, same) = >>=-eq-ok (parse_transport_mode value) _ e in
      let equal : some t ≡ p = cc in rw (parsed, sym equal) (from_profile_mode-Chooses i t d e')

  -- Where the configured texts can be read, the policy succeeds, and the transport that it selects is
  -- the first of the candidates: the one asked for on the command line, the profile's, TLS and QUIC by
  -- their endpoints, the default (plain TCP only where it is allowed), plain TCP where it is allowed,
  -- and a recorded peer behind SSH; and ssh-native if there is no candidate.
  pub transport_selection_policy-Chooses :
      (i : TransportSelectionPolicyInput Addr) (p d : Option TransportMode)
      → configured i.profile_remote_transport ≡ ok p
      → configured i.defaults_remote_transport ≡ ok d
      → Chooses
          (transport_selection_policy display i)
          (first_of (candidate_transports i p d) ssh_native)
  unfolding transport_selection_policy
  transport_selection_policy-Chooses i p d e e' = go i.requested_transport refl
    where
      go :
          (t : TransportMode)
          → i.requested_transport ≡ t
          → Chooses
              (transport_selection_policy display i)
              (first_of (candidate_transports i p d) ssh_native)
      go auto q = rw q (from_profile-Chooses i i.profile_remote_transport p d e e')
      go ssh_native q = rw q (_, refl, refl)
      go quic_native q = rw q (_, refl, refl)
      go quic q = rw q (_, refl, refl)
      go tls_tcp q = rw q (_, refl, refl)
      go plain_tcp q = rw q (_, refl, refl)
      go exec q = rw q (_, refl, refl)
      go tcp q = rw q (_, refl, refl)
