-- ===== src/Operator/Shutdown.antt =====
-- The goroutines of `Run` of AVS/internal/operator/operator.go, between the start of its parts and the
-- deferred stops: those of the monitor and of the rebalancer with the routines that they start, and the one
-- that submits updates; and those that the rebalancer starts to watch transfers, which no wait group counts.
-- `Run` waits for the context that it is given; the goroutines look at the context of the operator, which
-- `Run` cancels then, and `Stop` at any time. Noticing the end of a context and what is done at once then
-- are one move. With an interval that is not positive, the ticker of the updates panics as soon as their
-- goroutine runs, which ends the process: they make no move then (`Panics`).
pub mod Soundness
pub mod Ending
use sync_hook.Prelude.{ℕ, suc, ◌+◌, ◌-◌, ◌<◌, ◌≡◌, List, [], ◌∷◌, Bool, true, false, ℤ, pos, leb_ℤ}
use sync_hook.Goroutines.{
  Phase, Routine, looping, ticking, ended, Group, no_group, Turns, GroupMove, alive,
}
use sync_hook.Goroutines

-- Where `Run` stands: before the start of each goroutine, waiting for its context, waiting for the wait
-- group, or past it.
pub data RunPhase : Type 0 where
  before_monitor before_rebalancer before_updates awaiting stopping finished : RunPhase

-- `outer` and `inner` are whether the context of `Run` and that of the operator are cancelled; `counter`
-- is that of the operator's wait group, and `transfers` the number of goroutines that watch a transfer.
pub record Process : Type 0 where
  pub phase : RunPhase
  pub outer : Bool
  pub inner : Bool
  pub monitor : Group
  pub rebalancer : Group
  pub updates : List Routine
  pub transfers : ℕ
  pub counter : ℕ

abbrev pub new_process : Process
new_process = record {
  phase = before_monitor;
  outer = false;
  inner = false;
  monitor = no_group;
  rebalancer = no_group;
  updates = [];
  transfers = 0;
  counter = 0;
}

-- The goroutine of a service calls `Done` when `Start` has returned.
abbrev pub left : Phase → ℕ → ℕ
left Phase.returned n = n - 1
left Phase.unstarted n = n
left (Phase.launching k) n = n
left Phase.waiting n = n
left Phase.draining n = n

abbrev pub launch : ℕ → Group
launch n = record { phase = Phase.launching n; routines = []; counter = 0 }

-- A move of the process that watches so many chains and submits updates at the interval, other than the
-- beginning of a tick. A tick of the rebalancer starts to watch a transfer, unless the transfer is not
-- initiated; the watching ends with the transfer or with its context.
pub data Move (chains : ℕ) (interval : ℤ) (p : Process) : Process → Type 0 where
  cancelled : p.outer ≡ false → Move chains interval p (record p { outer = true })
  stop_called : p.inner ≡ false → Move chains interval p (record p { inner = true })
  began_monitor :
      p.phase ≡ before_monitor
      → Move chains interval p
          (record p { phase = before_rebalancer; monitor = launch chains; counter = suc p.counter })
  began_rebalancer :
      p.phase ≡ before_rebalancer
      → Move chains interval p
          (record p { phase = before_updates; rebalancer = launch 1; counter = suc p.counter })
  began_updates :
      p.phase ≡ before_updates
      → Move chains interval p
          (record p { phase = awaiting; updates = looping ∷ []; counter = suc p.counter })
  noticed :
      p.outer ≡ true
      → p.phase ≡ awaiting
      → Move chains interval p (record p { phase = stopping; inner = true })
  waited :
      p.phase ≡ stopping → p.counter ≡ 0 → Move chains interval p (record p { phase = finished })
  monitor_moved :
      {g : Group}
      → GroupMove p.inner p.monitor g
      → Move chains interval p (record p { monitor = g; counter = left g.phase p.counter })
  rebalancer_moved :
      {g : Group}
      → GroupMove p.inner p.rebalancer g
      → Move chains interval p (record p { rebalancer = g; counter = left g.phase p.counter })
  transfer_began :
      {rs : List Routine}
      → Turns ticking looping p.rebalancer.routines rs
      → Move chains interval p (record p {
        rebalancer = record p.rebalancer { routines = rs };
        transfers = suc p.transfers;
      })
  transfer_ended :
      {n : ℕ} → p.transfers ≡ suc n → Move chains interval p (record p { transfers = n })
  updates_returned :
      {rs : List Routine}
      → leb_ℤ interval (pos 0) ≡ false
      → Turns ticking looping p.updates rs
      → Move chains interval p (record p { updates = rs })
  updates_ended :
      {rs : List Routine}
      → leb_ℤ interval (pos 0) ≡ false
      → p.inner ≡ true
      → Turns looping ended p.updates rs
      → Move chains interval p (record p { updates = rs; counter = p.counter - 1 })

-- A routine begins a tick. It may do so when its context has ended too, if both are ready.
pub data Tick (interval : ℤ) (p : Process) : Process → Type 0 where
  monitor_ticked :
      {rs : List Routine}
      → Turns looping ticking p.monitor.routines rs
      → Tick interval p (record p { monitor = record p.monitor { routines = rs } })
  rebalancer_ticked :
      {rs : List Routine}
      → Turns looping ticking p.rebalancer.routines rs
      → Tick interval p (record p { rebalancer = record p.rebalancer { routines = rs } })
  updates_ticked :
      {rs : List Routine}
      → leb_ℤ interval (pos 0) ≡ false
      → Turns looping ticking p.updates rs
      → Tick interval p (record p { updates = rs })

-- So many moves, and so many beginnings of ticks, one after the other.
pub data Moves (chains : ℕ) (interval : ℤ) (p : Process) : ℕ → ℕ → Process → Type 0 where
  here : Moves chains interval p 0 0 p
  next :
      {n k : ℕ} {q r : Process}
      → Moves chains interval p n k q
      → Move chains interval q r
      → Moves chains interval p (suc n) k r
  tick :
      {n k : ℕ} {q r : Process}
      → Moves chains interval p n k q
      → Tick interval q r
      → Moves chains interval p n (suc k) r

-- What happens from the call of `Run` on.
abbrev pub Reachable : ℕ → ℤ → Process → Type 0
Reachable chains interval p = (n : ℕ) × (k : ℕ) × Moves chains interval new_process n k p

-- The goroutine of the updates is there, and its ticker panics.
abbrev pub Panics : ℤ → Process → Type 0
Panics interval p = (leb_ℤ interval (pos 0) ≡ true) × (0 < alive p.updates)
