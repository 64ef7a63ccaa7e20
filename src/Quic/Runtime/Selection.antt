-- ===== src/Quic/Runtime/Selection.antt =====
-- Which connection a new stream is opened on: `select_worker` of
-- crates/ssh-proxy/src/quic_native/runtime.rs.
use mathlib.Core.Path.{subst}
use native.Mathlib.Nat.{mod-lt, mod-eq_of_lt, mod-add-mod, add-mod_right}
use ssh_proxy.Base.{
  ℕ, zero, suc, ◌+◌, ◌-◌, ◌%◌, ◌<◌, ◌≤◌, ◌≡◌, refl, sym, ap, ◌∙◌, List, [], ◌∷◌, Option, none, some,
  leb, length, get_elem?, inl, inr, Bool-cases, Option-cases, arith,
}
use ssh_proxy.Wire.Bytes.{u64_mod}
use ssh_proxy.Quic.Runtime.{
  ConnectionWorker, State, score, better, candidate_of, candidate, scan, number_of, select_among,
  select_worker,
}

-- Some offset leads to every worker.
offset_of : (next j len : ℕ) → j < len → (o : ℕ) × (o < len) × ((next + o) % len ≡ j)
offset_of next j len h =
    let q = next % len in
    let low : q < len = mod-lt next (omega (arith, h)) in
    elim (Bool-cases (leb q j)) [
      | inl before ↦
          let sum : q + (j - q) ≡ j = ground (arith, before) in
          (
            j - q,
            omega (arith, h),
            sym (mod-add-mod next len (j - q)) ∙ ap (λ n. n % len) sum ∙ mod-eq_of_lt h,
          )
      | inr behind ↦
          let sum : q + (j + len - q) ≡ j + len = ground (arith, behind, low) in
          (
            j + len - q,
            ground (arith, behind, h),
            sym (mod-add-mod next len (j + len - q))
                ∙ ap (λ n. n % len) sum
                ∙ add-mod_right j len
                ∙ mod-eq_of_lt h,
          )
    ]

-- A best candidate that is at most as loaded as a worker.
abbrev Below : Option (ℕ × ℕ) → ℕ → Type 0
Below none n = ¬ (Unit {0})
Below (some (b, i)) n = b ≤ n

-- A best candidate is a worker with its score.
abbrev IsOf : List ConnectionWorker → Option (ℕ × ℕ) → Type 0
IsOf ws none = Unit {0}
IsOf ws (some (b, i)) = (w : ConnectionWorker) × (get_elem? ws i ≡ some w) × (b ≡ score w)

module _ (ws : List ConnectionWorker) where
  candidate-IsOf : (i : ℕ) (best : Option (ℕ × ℕ)) → IsOf ws best → IsOf ws (candidate ws i best)
  candidate-IsOf i best h = elim (Option-cases (get_elem? ws i)) [
    | inl missing ↦ subst (λ o. IsOf ws (candidate_of o i best)) (sym missing) h
    | inr (w, found) ↦
        subst (λ o. IsOf ws (candidate_of o i best)) (sym found) (chosen w found best h)
  ]
    where
      chosen :
          (w : ConnectionWorker)
          → get_elem? ws i ≡ some w
          → (b : Option (ℕ × ℕ)) → IsOf ws b
          → IsOf ws (better b (score w) i)
      chosen w found none h = (w, found, refl)
      chosen w found (some (b, k)) h = elim (Bool-cases (leb b (score w))) [
        | inl keeps ↦ rw keeps h
        | inr takes ↦ rw takes (w, found, refl)
      ]

  better-Below : (b : Option (ℕ × ℕ)) (n i m : ℕ) → Below b m → Below (better b n i) m
  better-Below none n i m h = absurd (h tt)
  better-Below (some (b, k)) n i m h = elim (Bool-cases (leb b n)) [
    | inl keeps ↦ rw keeps h
    | inr takes ↦ rw takes (ground (arith, takes, h))
  ]

  better-Below_self : (b : Option (ℕ × ℕ)) (n i : ℕ) → Below (better b n i) n
  better-Below_self none n i = omega arith
  better-Below_self (some (b, k)) n i = elim (Bool-cases (leb b n)) [
    | inl keeps ↦ rw keeps (ground (arith, keeps))
    | inr takes ↦ rw takes (omega arith)
  ]

  candidate-Below : (i m : ℕ) (best : Option (ℕ × ℕ)) → Below best m → Below (candidate ws i best) m
  candidate-Below i m best h = elim (Option-cases (get_elem? ws i)) [
    | inl missing ↦ subst (λ o. Below (candidate_of o i best) m) (sym missing) h
    | inr (w, found) ↦
        subst (λ o. Below (candidate_of o i best) m) (sym found) (better-Below best (score w) i m h)
  ]

  candidate-Below_self :
      (i : ℕ) (w : ConnectionWorker) (best : Option (ℕ × ℕ))
      → get_elem? ws i ≡ some w
      → Below (candidate ws i best) (score w)
  candidate-Below_self i w best found =
      subst (λ o. Below (candidate_of o i best) (score w)) (sym found)
        (better-Below_self best (score w) i)

  abbrev at : ℕ → ℕ → ℕ
  at next offset = (next + offset) % u64_mod % length ws

  scan-IsOf :
      (next k offset : ℕ) (best : Option (ℕ × ℕ))
      → IsOf ws best
      → IsOf ws (scan ws next k offset best)
  unfolding scan
  scan-IsOf next zero offset best h = h
  scan-IsOf next (suc k) offset best h =
      scan-IsOf next k (offset + 1) (candidate ws (at next offset) best)
        (candidate-IsOf (at next offset) best h)

  scan-Below :
      (next k offset m : ℕ) (best : Option (ℕ × ℕ))
      → Below best m
      → Below (scan ws next k offset best) m
  unfolding scan
  scan-Below next zero offset m best h = h
  scan-Below next (suc k) offset m best h =
      scan-Below next k (offset + 1) m (candidate ws (at next offset) best)
        (candidate-Below (at next offset) m best h)

  scan-Below_each :
      (next k offset o : ℕ) (best : Option (ℕ × ℕ)) (w : ConnectionWorker)
      → o < k
      → get_elem? ws (at next (offset + o)) ≡ some w
      → Below (scan ws next k offset best) (score w)
  unfolding scan
  scan-Below_each next zero offset o best w h found = absurd (omega (arith, h))
  scan-Below_each next (suc k) offset zero best w h found =
      scan-Below next k (offset + 1) (score w) (candidate ws (at next offset) best) (
        candidate-Below_self (at next offset) w best
          (subst (λ n. get_elem? ws (at next n) ≡ some w) (omega arith) found))
  scan-Below_each next (suc k) offset (suc o) best w h found =
      scan-Below_each next k (offset + 1) o (candidate ws (at next offset) best) w
        (omega (arith, h)) (subst (λ n. get_elem? ws (at next n) ≡ some w) (omega arith) found)

-- The connection that a new stream is opened on: it is one of the pool, and none has a lower score.
pub record IsLeast (ws : List ConnectionWorker) (i : ℕ) : Type 0 where
  pub chosen : ConnectionWorker
  pub is_there : get_elem? ws i ≡ some chosen
  pub least : (j : ℕ) (w : ConnectionWorker) → get_elem? ws j ≡ some w → score chosen ≤ score w

get_elem?-lt :
    (ws : List ConnectionWorker) (j : ℕ) (w : ConnectionWorker)
    → get_elem? ws j ≡ some w
    → j < length ws
get_elem?-lt [] j w e = absurd (cc e)
get_elem?-lt (v ∷ ws) zero w e = omega arith
get_elem?-lt (v ∷ ws) (suc j) w e = omega (arith, get_elem?-lt ws j w e)

scan-Below_all :
    (ws : List ConnectionWorker) (next : ℕ)
    → next + length ws ≤ u64_mod
    → (j : ℕ) (w : ConnectionWorker) → get_elem? ws j ≡ some w
    → Below (scan ws next (length ws) 0 none) (score w)
scan-Below_all ws next room j w found =
    let (o, less, leads) = offset_of next j (length ws) (get_elem?-lt ws j w found) in
    let same : at ws next (0 + o) ≡ j =
      ap (λ n. n % length ws) (mod-eq_of_lt (omega (arith, room, less)))
      ∙ ap (λ n. (next + n) % length ws) (omega arith)
      ∙ leads in
    scan-Below_each ws next (length ws) 0 o none w less (ap (get_elem? ws) same ∙ found)

number_of-IsLeast :
    (ws : List ConnectionWorker) (best : Option (ℕ × ℕ)) (v : ConnectionWorker)
    → get_elem? ws 0 ≡ some v
    → IsOf ws best
    → ((j : ℕ) (w : ConnectionWorker) → get_elem? ws j ≡ some w → Below best (score w))
    → (i : ℕ) × (number_of best ≡ some i) × IsLeast ws i
number_of-IsLeast ws none v front h below = absurd (below 0 v front tt)
number_of-IsLeast ws (some (b, i)) v front (w, found, eq) below = (
  i,
  refl,
  record { chosen = w; is_there = found; least = λ j u e. omega (arith, eq, below j u e) },
)

only_one :
    (v : ConnectionWorker) (j : ℕ) (w : ConnectionWorker)
    → get_elem? (v ∷ []) j ≡ some w
    → score v ≤ score w
only_one v zero w e = let same : v ≡ w = cc e in subst (λ u. score v ≤ score u) same (omega arith)
only_one v (suc j) w e = absurd (cc e)

select_among-IsLeast :
    (v : ConnectionWorker) (vs : List ConnectionWorker) (s : State)
    → s.next_worker + length (v ∷ vs) ≤ u64_mod
    → (i : ℕ) × ((select_among (v ∷ vs) s).1 ≡ some i) × IsLeast (v ∷ vs) i
select_among-IsLeast v [] s room =
    (0, refl, record { chosen = v; is_there = refl; least = only_one v })
select_among-IsLeast v (v' ∷ vs) s room =
    let ws : List ConnectionWorker = v ∷ v' ∷ vs in
    number_of-IsLeast ws (scan ws s.next_worker (length ws) 0 none) v refl
      (scan-IsOf ws s.next_worker (length ws) 0 none tt) (scan-Below_all ws s.next_worker room)

-- Of a pool that is not empty, a connection is selected that no other one of it undercuts in its score,
-- unless the counter of the selections comes around at 2 ^ 64 within this one.
pub select_worker-IsLeast :
    (s : State) (v : ConnectionWorker) (vs : List ConnectionWorker)
    → s.workers ≡ v ∷ vs
    → s.next_worker + length s.workers ≤ u64_mod
    → (i : ℕ) × ((select_worker s).1 ≡ some i) × IsLeast s.workers i
unfolding select_worker
select_worker-IsLeast s v vs e room =
    subst
      (λ ws.
        s.next_worker + length ws ≤ u64_mod
        → (i : ℕ) × ((select_among ws s).1 ≡ some i) × IsLeast ws i)
      (sym e) (select_among-IsLeast v vs s) room
