-- ===== src/Quic/Runtime/Counts.antt =====
-- The counters of one worker: crates/ssh-proxy/src/quic_native/runtime/worker_metrics.rs.
use mathlib.Core.Path.{subst}
use ssh_proxy.Base.{
  ℕ, zero, suc, ◌+◌, ◌%◌, ◌<◌, ◌≡◌, ◌≢◌, refl, sym, ap, ◌∙◌, Bool, true, false, List, [], ◌∷◌, some,
  ◌==◌, get_elem?, inl, inr, Bool-cases, arith,
}
use ssh_proxy.Wire.Bytes.{u64_mod}
use ssh_proxy.Quic.Runtime.{
  ConnectionWorker, update, record_flow_opened, record_open_success, record_flow_closed,
}

-- A worker with so many streams that are open.
pub record Counts (n : ℕ) (w : ConnectionWorker) : Type 0 where
  pub active : w.active_quic_flows ≡ n
  pub opened_of :
      w.opened_quic_flows
      ≡ (w.active_quic_flows + w.quic_flow_graceful_closes + w.quic_flow_resets) % u64_mod

abbrev pub AllCount : List ConnectionWorker → (ℕ → ℕ) → Type 0
AllCount ws c = (i : ℕ) (w : ConnectionWorker) → get_elem? ws i ≡ some w → Counts (c i) w

get_elem?-update :
    (f : ConnectionWorker → ConnectionWorker) (k : ℕ) (ws : List ConnectionWorker)
    (v : ConnectionWorker)
    → get_elem? (update k f ws) k ≡ some v
    → (w : ConnectionWorker) × (get_elem? ws k ≡ some w) × (v ≡ f w)
unfolding update
get_elem?-update f k [] v e = absurd (cc e)
get_elem?-update f zero (w ∷ ws) v e = (w, refl, cc e)
get_elem?-update f (suc k) (w ∷ ws) v e = get_elem?-update f k ws v e

get_elem?-update_other :
    (f : ConnectionWorker → ConnectionWorker) (k i : ℕ) (ws : List ConnectionWorker)
    → i ≢ k
    → get_elem? (update k f ws) i ≡ get_elem? ws i
unfolding update
get_elem?-update_other f k i [] h = refl
get_elem?-update_other f zero zero (w ∷ ws) h = absurd (h refl)
get_elem?-update_other f zero (suc i) (w ∷ ws) h = refl
get_elem?-update_other f (suc k) zero (w ∷ ws) h = refl
get_elem?-update_other f (suc k) (suc i) (w ∷ ws) h =
    get_elem?-update_other f k i ws (λ e. h (ap suc e))

-- What one worker goes through, when the others keep their counts.
pub update-AllCount :
    (f : ConnectionWorker → ConnectionWorker) (k : ℕ) (ws : List ConnectionWorker) (c c' : ℕ → ℕ)
    → AllCount ws c
    → ((w : ConnectionWorker) → Counts (c k) w → Counts (c' k) (f w))
    → ((i : ℕ) → i ≢ k → c' i ≡ c i)
    → AllCount (update k f ws) c'
update-AllCount f k ws c c' h step keep i v e = elim (Bool-cases (i == k)) [
  | inl same ↦
      let eq : i ≡ k = ground (arith, same) in
      let (w, e', made) =
        get_elem?-update f k ws v (subst (λ j. get_elem? (update k f ws) j ≡ some v) eq e) in
      subst (λ j. Counts (c' j) v) (sym eq) (subst (Counts (c' k)) (sym made) (step w (h k w e')))
  | inr differ ↦
      let ne : i ≢ k = λ eq. ground (arith, differ, eq) in
      subst (λ n. Counts n v) (sym (keep i ne))
        (h i v (sym (get_elem?-update_other f k i ws ne) ∙ e))
]

-- One stream more on a worker, and one less.
pub record_flow_opened-Counts :
    (n latency : ℕ) (w : ConnectionWorker)
    → n + 1 < u64_mod
    → Counts n w
    → Counts (1 + n) (record_flow_opened (record_open_success latency w))
record_flow_opened-Counts n latency w h c = record {
  active = omega (arith, c.active);
  opened_of = omega (arith, c.active, c.opened_of);
}

pub record_flow_closed-Counts :
    (reset : Bool) (n : ℕ) (w : ConnectionWorker)
    → Counts (1 + n) w
    → Counts n (record_flow_closed reset w)
record_flow_closed-Counts true n w c = record {
  active = omega (arith, c.active);
  opened_of = omega (arith, c.active, c.opened_of);
}
record_flow_closed-Counts false n w c = record {
  active = omega (arith, c.active);
  opened_of = omega (arith, c.active, c.opened_of);
}
