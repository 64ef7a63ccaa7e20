-- ===== src/Route/Conflict/Free.antt =====
-- When a route can be started: crates/ssh-proxy-route/src/conflict.rs.
use ssh_proxy.Base.{
  ◌≡◌, ◌≢◌, ◌⊎◌, ◌↔◌, refl, sym, ap, Bool, true, false, ◌&&◌, ◌||◌, Bool-cases, inl, inr, List, [],
  ◌∷◌, Option, none, some, All, arith,
}
use ssh_proxy.Wire.Bytes.{Bytes, ascii}
use ssh_proxy.Http.Text.{equal}
use ssh_proxy.Daemon.Json.{both, equal_sound}
use ssh_proxy.Route.Conflict.{
  RouteConflictRoute, RouteConflictInput, available, equal?, same_peer, route_matches,
  route_reserves_listener, find, has_id, by_id, decided, decide_route_conflict,
}

-- A route and a candidate that would listen at the same place: a forward route occupies its listener
-- alone, any other one with its peer.
abbrev pub Shares : RouteConflictInput → RouteConflictRoute → Type 0
Shares c r =
    (r.direction ≡ c.direction)
    × (r.listen ≡ some c.listen)
    × ((c.direction ≡ ascii "forward")
        ⊎ ((peer : Bytes) × (c.peer ≡ some peer) × (r.peer ≡ some peer)))

-- A route that leaves a candidate its id and its listener.
pub record IsFree (c : RouteConflictInput) (r : RouteConflictRoute) : Type 0 where
  pub id_of : c.id ≢ some r.id
  pub listener_of : ¬ Shares c r

equal_refl : (s : Bytes) → equal s s ≡ true
unfolding equal
equal_refl [] = refl
equal_refl (b ∷ s) = ground (arith, equal_refl s)

equal_of_eq : (s t : Bytes) → s ≡ t → equal s t ≡ true
equal_of_eq s t e = rw e (equal_refl t)

equal?_sound : (o : Option Bytes) (t : Bytes) → equal? o t ≡ true → o ≡ some t
equal?_sound none t e = absurd (cc e)
equal?_sound (some s) t e = ap some (equal_sound s t e)

same_peer_sound :
    (o theirs : Option Bytes)
    → same_peer o theirs ≡ true
    → (peer : Bytes) × (o ≡ some peer) × (theirs ≡ some peer)
same_peer_sound none theirs e = absurd (cc e)
same_peer_sound (some p) theirs e = (p, refl, equal?_sound theirs p e)

either : (a b : Bool) → (a || b) ≡ true → (a ≡ true) ⊎ (b ≡ true)
either true b e = inl refl
either false b e = inr e

Shares-of_reserved :
    (r : RouteConflictRoute) (c : RouteConflictInput)
    → route_reserves_listener r c ≡ true
    → Shares c r
unfolding route_reserves_listener
Shares-of_reserved r c e =
    let (p, q) =
      both (equal r.direction c.direction && equal? r.listen c.listen)
        (equal c.direction (ascii "forward") || same_peer c.peer r.peer) e in
    let (direction, listen) = both (equal r.direction c.direction) (equal? r.listen c.listen) p in
    (
      equal_sound r.direction c.direction direction,
      equal?_sound r.listen c.listen listen,
      elim (either (equal c.direction (ascii "forward")) (same_peer c.peer r.peer) q) [
        | inl forward ↦ inl (equal_sound c.direction (ascii "forward") forward)
        | inr peer ↦ inr (same_peer_sound c.peer r.peer peer)
      ],
    )

last_part :
    (r : RouteConflictRoute) (c : RouteConflictInput)
    → ((c.direction ≡ ascii "forward")
        ⊎ ((peer : Bytes) × (c.peer ≡ some peer) × (r.peer ≡ some peer)))
    → (equal c.direction (ascii "forward") || same_peer c.peer r.peer) ≡ true
last_part r c (inl forward) = rw (equal_of_eq c.direction (ascii "forward") forward) refl
last_part r c (inr (peer, mine, theirs)) =
    let same : same_peer c.peer r.peer ≡ true = rw (mine, theirs) (equal_refl peer) in
    elim (Bool-cases (equal c.direction (ascii "forward"))) [
      | inl e ↦ rw e refl
      | inr e ↦ rw (e, same) refl
    ]

reserved-of_Shares :
    (r : RouteConflictRoute) (c : RouteConflictInput)
    → Shares c r
    → route_reserves_listener r c ≡ true
unfolding route_reserves_listener
reserved-of_Shares r c (direction, listen, last) =
    let heard : equal? r.listen c.listen ≡ true = rw listen (equal_refl c.listen) in
    rw (equal_of_eq r.direction c.direction direction, heard, last_part r c last) refl

-- What is not found.
find-none :
    (p : RouteConflictRoute → Bool) (rs : List RouteConflictRoute)
    → (find p rs ≡ none) ↔ All (λ r. p r ≡ false) rs
find-none p [] = (λ e. tt, λ h. refl)
find-none p (r ∷ rs) =
    let (there, back) = find-none p rs in
    (
      λ e. elim (Bool-cases (p r)) [
        | inl hit ↦ absurd (cc (rw hit at e))
        | inr miss ↦ (miss, there (rw miss at e))
      ],
      λ h. rw (h.0) (back h.1),
    )

decided_iff :
    (c : RouteConflictInput) (mine reserving : Option RouteConflictRoute)
    → (decided c mine reserving ≡ available) ↔ ((mine ≡ none) × (reserving ≡ none))
decided_iff c none none = (λ e. (refl, refl), λ h. refl)
decided_iff c none (some r) = (λ e. absurd (cc e), λ h. absurd (cc (h.1)))
decided_iff c (some r) reserving = (
  λ e. elim (Bool-cases (route_matches r c)) [
    | inl same ↦ absurd (cc (rw same at e))
    | inr other ↦ absurd (cc (rw other at e))
  ],
  λ h. absurd (cc (h.0)),
)

module _ {P Q : RouteConflictRoute → Type 0} where
  All-imply :
      ((r : RouteConflictRoute) → P r → Q r) → (rs : List RouteConflictRoute) → All P rs → All Q rs
  All-imply f [] h = tt
  All-imply f (r ∷ rs) h = (f r h.0, All-imply f rs h.1)

by_id-none :
    (rs : List RouteConflictRoute) (o : Option Bytes)
    → (by_id rs o ≡ none) ↔ All (λ r. o ≢ some r.id) rs
by_id-none rs none = (λ e. all_apart rs, λ h. refl)
  where
    all_apart : (xs : List RouteConflictRoute) → All (λ r. none ≢ some r.id) xs
    all_apart [] = tt
    all_apart (x ∷ xs) = (λ e. absurd (cc e), all_apart xs)
by_id-none rs (some id) =
    let (there, back) = find-none (has_id id) rs in
    (
      λ e.
          All-imply (λ r miss same. absurd (cc (equal_of_eq r.id id (cc same), miss))) rs (there e),
      λ h. back (
          All-imply
            (λ r apart. elim (Bool-cases (equal r.id id)) [
              | inl same ↦ absurd (apart (ap some (sym (equal_sound r.id id same))))
              | inr other ↦ other
            ])
            rs h),
    )

-- A candidate can be started exactly if no route has its id and none occupies its listener: a forward
-- route occupies its own alone, any other one with its peer.
pub decide_route_conflict_iff :
    (rs : List RouteConflictRoute) (c : RouteConflictInput)
    → (decide_route_conflict rs c ≡ available) ↔ All (IsFree c) rs
unfolding decide_route_conflict
decide_route_conflict_iff rs c =
    let (there, back) =
      decided_iff c (by_id rs c.id) (find (λ r. route_reserves_listener r c) rs) in
    let (ids, ids') = by_id-none rs c.id in
    let (heard, heard') = find-none (λ r. route_reserves_listener r c) rs in
    (
      λ e. let (p, q) = there e in both_free rs (ids p) (heard q),
      λ h. back (
        ids' (All-imply (λ r f. f.id_of) rs h),
        heard' (All-imply (λ r f. not_reserved r f.listener_of) rs h),
      ),
    )
  where
    both_free :
        (xs : List RouteConflictRoute)
        → All (λ r. c.id ≢ some r.id) xs
        → All (λ r. route_reserves_listener r c ≡ false) xs
        → All (IsFree c) xs
    both_free [] h k = tt
    both_free (x ∷ xs) h k = (
      record {
        id_of = h.0;
        listener_of = λ shares. absurd (cc (reserved-of_Shares x c shares, k.0));
      },
      both_free xs h.1 k.1,
    )

    not_reserved : (r : RouteConflictRoute) → ¬ Shares c r → route_reserves_listener r c ≡ false
    not_reserved r free = elim (Bool-cases (route_reserves_listener r c)) [
      | inl taken ↦ absurd (free (Shares-of_reserved r c taken))
      | inr left ↦ left
    ]
