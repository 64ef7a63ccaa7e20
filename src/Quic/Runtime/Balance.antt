-- ===== src/Quic/Runtime/Balance.antt =====
-- The counters of the streams add up: crates/ssh-proxy/src/quic_native/runtime.rs.
use mathlib.Core.Path.{subst}
use ssh_proxy.Base.{
  ℕ, ◌+◌, ◌<◌, ◌≡◌, refl, sym, ◌∙◌, Bool, true, false, List, [], ◌∷◌, ◌++◌, some, length, get_elem?,
  inl, inr, Bool-cases, arith,
}
use ssh_proxy.Wire.Bytes.{Bytes, u64_mod}
use ssh_proxy.Quic.Runtime.Flows.{
  Flow, opening, in_use, tick, open_on, count, count_le, tick_self, tick_other, count-middle,
  length-middle, Reaches, connects, selects, opens, is_refused, writes_header, fails_header,
  stalls_header, closes, drops,
}
use ssh_proxy.Quic.Runtime.Counts.{
  Counts, AllCount, update-AllCount, record_flow_opened-Counts, record_flow_closed-Counts,
}
use ssh_proxy.Quic.Runtime.{
  ConnectionWorker, State, update, on_worker, header_timed_out, count_close, checked_dec,
  select_among, select_worker, record_flow_opened, record_open_success, record_open_failure,
  record_flow_closed, record_backpressure_timeout, opened, written, write_failed, Stream,
  open_begin, open_finish, close_stream, drop_stream,
}

select_among-keeps :
    (ws : List ConnectionWorker) (s : State)
    → ((select_among ws s).0.workers ≡ s.workers)
      × ((select_among ws s).0.active_quic_flows ≡ s.active_quic_flows)
select_among-keeps [] s = (refl, refl)
select_among-keeps (w ∷ []) s = (refl, refl)
select_among-keeps (w ∷ w' ∷ ws) s = (refl, refl)

-- The counter of the route and those of its workers.
pub record IsBalanced (s : State) (xs : List Flow) : Type 0 where
  pub small : length xs < u64_mod
  pub flows : s.active_quic_flows ≡ length xs
  pub workers_of :
      (i : ℕ) (w : ConnectionWorker) → get_elem? s.workers i ≡ some w → Counts (count i xs) w

-- A flow that was open on a worker is closed there, and counts no more.
closed-AllCount :
    (reset : Bool) (k : ℕ) (ws : List ConnectionWorker) (x : Flow) (xs ys zs : List Flow)
    → ((i : ℕ) → open_on i x ≡ tick i k)
    → ((i : ℕ) → count i zs ≡ count i (xs ++ ys))
    → AllCount ws (λ j. count j (xs ++ x ∷ ys))
    → AllCount (update k (record_flow_closed reset) ws) (λ j. count j zs)
closed-AllCount reset k ws x xs ys zs on_k same h =
    update-AllCount (record_flow_closed reset) k ws (λ j. count j (xs ++ x ∷ ys)) (λ j. count j zs)
      h
      (λ w c. record_flow_closed-Counts reset (count k zs) w (
        subst (λ n. Counts n w) (omega (arith, count-middle k xs x ys, on_k k, same k, tick_self k))
          c))
      (λ i ne. omega (arith, count-middle i xs x ys, on_k i, same i, tick_other i k ne))

-- A change that leaves the counts of a worker alone.
idle-AllCount :
    (f : ConnectionWorker → ConnectionWorker) (k : ℕ) (ws : List ConnectionWorker) (c : ℕ → ℕ)
    → ((n : ℕ) (w : ConnectionWorker) → Counts n w → Counts n (f w))
    → AllCount ws c
    → AllCount (update k f ws) c
idle-AllCount f k ws c keep h = update-AllCount f k ws c c h (keep (c k)) (λ i ne. refl)

open_begin-IsBalanced :
    (i latency : ℕ) (s : State) (xs : List Flow)
    → length xs + 1 < u64_mod
    → IsBalanced s xs
    → IsBalanced (open_begin i (opened latency) s) (opening i ∷ xs)
unfolding open_begin
open_begin-IsBalanced i latency s xs room b = record {
  small = omega (arith, room);
  flows = omega (arith, room, b.flows);
  workers_of =
      update-AllCount (λ w. record_flow_opened (record_open_success latency w)) i s.workers
        (λ j. count j xs) (λ j. count j (opening i ∷ xs)) b.workers_of
        (λ w c.
          subst (λ n. Counts n (record_flow_opened (record_open_success latency w)))
            (omega (arith, tick_self i))
            (record_flow_opened-Counts (count i xs) latency w (omega (arith, count_le i xs, room))
              c))
        (λ j ne. omega (arith, tick_other j i ne));
}

open_finish-IsBalanced :
    (i : ℕ) (error : Bytes) (s : State) (xs ys : List Flow)
    → IsBalanced s (xs ++ opening i ∷ ys)
    → IsBalanced (open_finish i (write_failed error) s) (xs ++ ys)
unfolding open_finish
open_finish-IsBalanced i error s xs ys b = record {
  small = omega (arith, b.small, length-middle xs (opening i) ys);
  flows = omega (arith, b.small, b.flows, length-middle xs (opening i) ys);
  workers_of =
      closed-AllCount true i s.workers (opening i) xs ys (xs ++ ys) (λ j. refl) (λ j. refl)
        b.workers_of;
}

written-IsBalanced :
    (i : ℕ) (s : State) (xs ys : List Flow)
    → IsBalanced s (xs ++ opening i ∷ ys)
    → IsBalanced
        (open_finish i written s)
        (xs ++ in_use (record { worker = i; closed = false }) ∷ ys)
unfolding open_finish
written-IsBalanced i s xs ys b =
    let t : Flow = in_use (record { worker = i; closed = false }) in
    let before = length-middle xs (opening i) ys in
    let after = length-middle xs t ys in
    record {
      small = omega (arith, b.small, before, after);
      flows = omega (arith, b.flows, before, after);
      workers_of = λ j w found.
          subst (λ n. Counts n w)
            (omega (arith, count-middle j xs (opening i) ys, count-middle j xs t ys))
            (b.workers_of j w found);
    }

header_timed_out-IsBalanced :
    (i : ℕ) (s : State) (xs : List Flow) → IsBalanced s xs → IsBalanced (header_timed_out i s) xs
unfolding update
header_timed_out-IsBalanced i s xs b = record {
  small = b.small;
  flows = b.flows;
  workers_of =
      idle-AllCount record_backpressure_timeout i s.workers (λ j. count j xs)
        (λ n w c. record { active = c.active; opened_of = c.opened_of }) b.workers_of;
}

open_on_open : (i : ℕ) (t : Stream) → t.closed ≡ false → open_on i (in_use t) ≡ tick i t.worker
open_on_open i t e = rw e refl

count-marked :
    (t : Stream) (xs ys : List Flow) (i : ℕ)
    → count i (xs ++ in_use (record t { closed = true }) ∷ ys) ≡ count i (xs ++ ys)
count-marked t xs ys i = omega (arith, count-middle i xs (in_use (record t { closed = true })) ys)

count_close-IsBalanced :
    (reset : Bool) (s : State) (xs : List Flow)
    → IsBalanced s xs
    → IsBalanced (count_close reset s) xs
count_close-IsBalanced true s xs b = record {
  small = b.small;
  flows = b.flows;
  workers_of = b.workers_of;
}
count_close-IsBalanced false s xs b = record {
  small = b.small;
  flows = b.flows;
  workers_of = b.workers_of;
}

close_stream-IsBalanced :
    (reset : Bool) (t : Stream) (s : State) (xs ys : List Flow)
    → IsBalanced s (xs ++ in_use t ∷ ys)
    → IsBalanced ((close_stream reset t s).1) (xs ++ in_use ((close_stream reset t s).0) ∷ ys)
unfolding close_stream
close_stream-IsBalanced reset t s xs ys b = elim (Bool-cases t.closed) [
  | inl e ↦
      let as_closed : Bool → Flow = λ c. in_use (record { worker = t.worker; closed = c }) in
      rw e (subst (λ c. IsBalanced s (xs ++ as_closed c ∷ ys)) e b)
  | inr e ↦
      let t' : Flow = in_use (record t { closed = true }) in
      let before = length-middle xs (in_use t) ys in
      let after = length-middle xs t' ys in
      rw e (
        count_close-IsBalanced reset (on_worker t.worker (record_flow_closed reset) s)
          (xs ++ t' ∷ ys)
          (record {
            small = omega (arith, b.small, before, after);
            flows = omega (arith, b.flows, before, after);
            workers_of =
                closed-AllCount reset t.worker s.workers (in_use t) xs ys (xs ++ t' ∷ ys)
                  (λ i. open_on_open i t e) (count-marked t xs ys) b.workers_of;
          }))
]

-- A stream that is closed already is only taken off the route's counter.
gone-IsBalanced :
    (t : Stream) (s : State) (xs ys : List Flow)
    → t.closed ≡ true
    → IsBalanced s (xs ++ in_use t ∷ ys)
    → IsBalanced (record s { active_quic_flows = checked_dec s.active_quic_flows }) (xs ++ ys)
gone-IsBalanced t s xs ys e b = record {
  small = omega (arith, b.small, length-middle xs (in_use t) ys);
  flows = omega (arith, b.flows, length-middle xs (in_use t) ys);
  workers_of = λ i w found.
      subst (λ n. Counts n w) (count-middle i xs (in_use t) ys ∙ none_open i)
        (b.workers_of i w found);
}
  where
    none_open : (i : ℕ) → open_on i (in_use t) + count i (xs ++ ys) ≡ count i (xs ++ ys)
    none_open i = rw e (omega arith)

drop_stream-IsBalanced :
    (t : Stream) (s : State) (xs ys : List Flow)
    → IsBalanced s (xs ++ in_use t ∷ ys)
    → IsBalanced (drop_stream t s) (xs ++ ys)
unfolding drop_stream close_stream
drop_stream-IsBalanced t s xs ys b =
    let r = close_stream true t s in
    gone-IsBalanced (r.0) (r.1) xs ys (closed_after t s) (close_stream-IsBalanced true t s xs ys b)
  where
    closed_after : (t : Stream) (s : State) → (close_stream true t s).0.closed ≡ true
    closed_after t s = elim (Bool-cases t.closed) [ inl e ↦ rw e refl | inr e ↦ rw e refl ]

-- However the calls at a route follow each other, with fewer than 2 ^ 64 streams at a time: the counter of
-- the route is the number of the streams that are not gone, those whose header is being written among
-- them; the counter of each worker is the number of its streams that are not closed; and of all streams
-- that a worker opened, up to a multiple of 2 ^ 64, each is active, closed in good order or reset.
pub Reaches-IsBalanced : {s : State} {xs : List Flow} → Reaches s xs → IsBalanced s xs
unfolding select_worker open_begin open_finish
Reaches-IsBalanced (connects ws e new) = record {
  small = omega arith;
  flows = refl;
  workers_of = λ i w found.
      subst (Counts 0) (sym (new i w found)) (record { active = refl; opened_of = refl });
}
Reaches-IsBalanced (selects {s} {xs} r) =
    let b = Reaches-IsBalanced r in
    let (ws, n) = select_among-keeps s.workers s in
    record {
      small = b.small;
      flows = n ∙ b.flows;
      workers_of = subst (λ v. AllCount v (λ i. count i xs)) (sym ws) b.workers_of;
    }
Reaches-IsBalanced (opens i latency {s} {xs} room r) =
    open_begin-IsBalanced i latency s xs room (Reaches-IsBalanced r)
Reaches-IsBalanced (is_refused i error {s} {xs} r) =
    let b = Reaches-IsBalanced r in
    record {
      small = b.small;
      flows = b.flows;
      workers_of =
          idle-AllCount record_open_failure i s.workers (λ j. count j xs)
            (λ n w c. record { active = c.active; opened_of = c.opened_of }) b.workers_of;
    }
Reaches-IsBalanced (writes_header i {s} xs ys r) =
    written-IsBalanced i s xs ys (Reaches-IsBalanced r)
Reaches-IsBalanced (fails_header i error {s} xs ys r) =
    open_finish-IsBalanced i error s xs ys (Reaches-IsBalanced r)
Reaches-IsBalanced (stalls_header i {s} xs ys r) =
    open_finish-IsBalanced i _ (header_timed_out i s) xs ys
      (header_timed_out-IsBalanced i s (xs ++ opening i ∷ ys) (Reaches-IsBalanced r))
Reaches-IsBalanced (closes reset t {s} xs ys r) =
    close_stream-IsBalanced reset t s xs ys (Reaches-IsBalanced r)
Reaches-IsBalanced (drops t {s} xs ys r) = drop_stream-IsBalanced t s xs ys (Reaches-IsBalanced r)
