-- ===== src/Quic/Runtime/Flows.antt =====
-- The streams of a route, and the calls that change them: crates/ssh-proxy/src/quic_native/runtime.rs.
use ssh_proxy.Base.{
  ℕ, ◌+◌, ◌<◌, ◌≤◌, ◌≡◌, ◌≢◌, refl, Bool, false, List, [], ◌∷◌, ◌++◌, Option, some, ◌==◌,
  if◌then◌else◌, length, get_elem?, length-append, inl, inr, Bool-cases, arith,
}
use ssh_proxy.Wire.Bytes.{Bytes, u64_mod}
use ssh_proxy.Quic.Runtime.{
  ConnectionWorker, new_worker, State, connected, select_worker, opened, refused, written,
  timed_out, write_failed, Stream, open_begin, open_finish, close_stream, drop_stream,
}

-- A stream that is not gone: its header is being written, or it is with its user.
pub data Flow : Type 0 where
  opening : ℕ → Flow
  in_use : Stream → Flow

abbrev pub tick : ℕ → ℕ → ℕ
tick i j = if i == j then 1 else 0

-- How far a flow counts for the worker with a number: a closed stream does not.
abbrev pub open_on : ℕ → Flow → ℕ
open_on i (opening j) = tick i j
open_on i (in_use t) = if t.closed then 0 else tick i t.worker

abbrev pub count : ℕ → List Flow → ℕ
count i [] = 0
count i (x ∷ xs) = open_on i x + count i xs

pub count-append : (i : ℕ) (xs ys : List Flow) → count i (xs ++ ys) ≡ count i xs + count i ys
count-append i [] ys = omega arith
count-append i (x ∷ xs) ys = omega (arith, count-append i xs ys)

-- The calls at a route and what becomes of its streams, in any order, with fewer than 2 ^ 64 streams at a
-- time.
pub data Reaches : State → List Flow → Type 0 where
  connects :
      (ws : List ConnectionWorker) (e : Option Bytes)
      → ((i : ℕ) (w : ConnectionWorker) → get_elem? ws i ≡ some w → w ≡ new_worker)
      → Reaches (connected ws e) []
  selects : {s : State} {xs : List Flow} → Reaches s xs → Reaches ((select_worker s).0) xs
  opens :
      (i latency : ℕ) {s : State} {xs : List Flow}
      → length xs + 1 < u64_mod
      → Reaches s xs
      → Reaches (open_begin i (opened latency) s) (opening i ∷ xs)
  is_refused :
      (i : ℕ) (error : Bytes) {s : State} {xs : List Flow}
      → Reaches s xs
      → Reaches (open_begin i (refused error) s) xs
  writes_header :
      (i : ℕ) {s : State} (xs ys : List Flow)
      → Reaches s (xs ++ opening i ∷ ys)
      → Reaches
          (open_finish i written s)
          (xs ++ in_use (record { worker = i; closed = false }) ∷ ys)
  fails_header :
      (i : ℕ) (error : Bytes) {s : State} (xs ys : List Flow)
      → Reaches s (xs ++ opening i ∷ ys)
      → Reaches (open_finish i (write_failed error) s) (xs ++ ys)
  stalls_header :
      (i : ℕ) {s : State} (xs ys : List Flow)
      → Reaches s (xs ++ opening i ∷ ys)
      → Reaches (open_finish i timed_out s) (xs ++ ys)
  closes :
      (reset : Bool) (t : Stream) {s : State} (xs ys : List Flow)
      → Reaches s (xs ++ in_use t ∷ ys)
      → Reaches ((close_stream reset t s).1) (xs ++ in_use ((close_stream reset t s).0) ∷ ys)
  drops :
      (t : Stream) {s : State} (xs ys : List Flow)
      → Reaches s (xs ++ in_use t ∷ ys)
      → Reaches (drop_stream t s) (xs ++ ys)

pub count_le : (i : ℕ) (xs : List Flow) → count i xs ≤ length xs
count_le i [] = omega arith
count_le i (opening j ∷ xs) = ground (arith, count_le i xs)
count_le i (in_use t ∷ xs) = ground (arith, count_le i xs)

pub tick_self : (k : ℕ) → tick k k ≡ 1
tick_self k = ground arith

pub tick_other : (i k : ℕ) → i ≢ k → tick i k ≡ 0
tick_other i k h = elim (Bool-cases (i == k)) [
  | inl same ↦ absurd (h (ground (arith, same)))
  | inr differ ↦ rw differ refl
]

pub count-middle :
    (i : ℕ) (xs : List Flow) (x : Flow) (ys : List Flow)
    → count i (xs ++ x ∷ ys) ≡ open_on i x + count i (xs ++ ys)
count-middle i xs x ys = omega (arith, count-append i xs (x ∷ ys), count-append i xs ys)

pub length-middle :
    (xs : List Flow) (x : Flow) (ys : List Flow) → length (xs ++ x ∷ ys) ≡ 1 + length (xs ++ ys)
length-middle xs x ys = omega (arith, length-append xs (x ∷ ys), length-append xs ys)
