-- ===== src/Operator/Shutdown/Soundness.antt =====
-- What holds of the goroutines of `Run` of AVS/internal/operator/operator.go in every state, and how many
-- moves they have left.
use sync_hook.Prelude.{ℕ, suc, ◌+◌, ◌*◌, ◌≤◌, ◌<◌, ◌≡◌, refl, Bool, true, false, ℤ, List, arith}
use sync_hook.Goroutines.{
  Group, Routine, GroupMove, Turns, ticking, looping, alive, work, group_moves, under_way,
  IsCounted, ended-alive, returned-alive, began-alive, GroupMove-IsCounted, GroupMove-group_moves,
}
use sync_hook.Operator.Shutdown.{
  RunPhase, before_monitor, before_rebalancer, before_updates, awaiting, stopping, finished,
  Process, new_process, left, launch, Move, cancelled, stop_called, began_monitor, began_rebalancer,
  began_updates, noticed, waited, monitor_moved, rebalancer_moved, transfer_began, transfer_ended,
  updates_returned, updates_ended, Tick, monitor_ticked, rebalancer_ticked, updates_ticked, Moves,
  here, next, tick,
}

-- How many goroutines of `Run` have not called `Done`.
abbrev pub live : Process → ℕ
live p = under_way p.monitor.phase + under_way p.rebalancer.phase + alive p.updates

-- What each phase tells: what is not begun has no moves, and once `Run` waits for the wait group both
-- contexts are cancelled.
abbrev pub Begun : RunPhase → Process → Type 0
Begun before_monitor p =
    (group_moves p.monitor ≡ 0) × (group_moves p.rebalancer ≡ 0) × (alive p.updates ≡ 0)
Begun before_rebalancer p = (group_moves p.rebalancer ≡ 0) × (alive p.updates ≡ 0)
Begun before_updates p = alive p.updates ≡ 0
Begun awaiting p = Unit
Begun stopping p = (p.outer ≡ true) × (p.inner ≡ true)
Begun finished p = (p.outer ≡ true) × (p.inner ≡ true) × (live p ≡ 0)

pub record IsSound (p : Process) : Type 0 where
  pub begun : Begun p.phase p
  pub counts : p.counter ≡ live p
  pub monitor_counted : IsCounted p.monitor
  pub rebalancer_counted : IsCounted p.rebalancer

-- How many moves a phase has left, with those of the goroutines that are still to be started.
abbrev pub run_moves : ℕ → RunPhase → ℕ
run_moves chains before_monitor = chains * 2 + 14
run_moves chains before_rebalancer = 10
run_moves chains before_updates = 4
run_moves chains awaiting = 2
run_moves chains stopping = 1
run_moves chains finished = 0

abbrev pub still : Bool → ℕ
still false = 1
still true = 0

abbrev pub moves_left : ℕ → Process → ℕ
moves_left chains p =
    run_moves chains p.phase
    + group_moves p.monitor
    + group_moves p.rebalancer
    + work p.updates
    + p.transfers
    + still p.outer
    + still p.inner

-- What a service that moves does to the count of those under way.
left-under_way :
    {done : Bool} {g h : Group} (n : ℕ)
    → GroupMove done g h
    → IsCounted g
    → 0 < n
    → left h.phase n + 1 ≡ n + under_way h.phase
left-under_way n (GroupMove.spawned e) c h = refl
left-under_way n (GroupMove.launched e) c h = refl
left-under_way n (GroupMove.routine_ended d e) c h = ground (arith, ended-alive e)
left-under_way n (GroupMove.tick_returned e) c h = ground (arith, returned-alive e)
left-under_way n (GroupMove.noticed d e) c h = refl
left-under_way n (GroupMove.drained e z) c h = omega arith

launch-IsCounted : (n : ℕ) → IsCounted (launch n)
launch-IsCounted n = ground arith

-- A tick that begins or returns changes no count.
ticked-IsCounted :
    {g : Group} {rs : List Routine}
    → Turns looping ticking g.routines rs
    → IsCounted g
    → IsCounted (record g { routines = rs })
ticked-IsCounted e c = ground (arith, began-alive e)

turned-IsCounted :
    {g : Group} {rs : List Routine}
    → Turns ticking looping g.routines rs
    → IsCounted g
    → IsCounted (record g { routines = rs })
turned-IsCounted e c = ground (arith, returned-alive e)

pub Move-IsSound :
    {chains : ℕ} {interval : ℤ} {p q : Process} → Move chains interval p q → IsSound p → IsSound q
Move-IsSound (cancelled e) s = ground (arith, s.begun)
Move-IsSound (stop_called e) s = ground (arith, s.begun)
Move-IsSound {chains} {p} (began_monitor e) s = ground (arith, s.begun, launch-IsCounted chains)
Move-IsSound (began_rebalancer e) s = ground (arith, s.begun, launch-IsCounted 1)
Move-IsSound (began_updates e) s = ground (arith, s.begun)
Move-IsSound (noticed o e) s = ground (arith, s.begun)
Move-IsSound (waited e z) s = ground (arith, s.begun)
Move-IsSound {p} (monitor_moved m) s = ground (
  arith,
  GroupMove-IsCounted m s.monitor_counted,
  GroupMove-group_moves m s.monitor_counted,
  left-under_way p.counter m s.monitor_counted,
)
Move-IsSound {p} (rebalancer_moved m) s = ground (
  arith,
  GroupMove-IsCounted m s.rebalancer_counted,
  GroupMove-group_moves m s.rebalancer_counted,
  left-under_way p.counter m s.rebalancer_counted,
)
Move-IsSound (transfer_began e) s =
    ground (arith, returned-alive e, s.begun, turned-IsCounted e s.rebalancer_counted)
Move-IsSound (transfer_ended e) s = ground (arith, s.begun)
Move-IsSound (updates_returned o e) s = ground (arith, returned-alive e, s.begun)
Move-IsSound (updates_ended o i e) s = ground (arith, ended-alive e, s.begun)

-- Every move uses one up.
pub Move-moves_left :
    {chains : ℕ} {interval : ℤ} {p q : Process}
    → Move chains interval p q
    → IsSound p
    → suc (moves_left chains q) ≤ moves_left chains p
Move-moves_left (cancelled e) s = ground arith
Move-moves_left (stop_called e) s = ground arith
Move-moves_left (began_monitor e) s = ground (arith, s.begun)
Move-moves_left (began_rebalancer e) s = ground (arith, s.begun)
Move-moves_left (began_updates e) s = ground (arith, s.begun)
Move-moves_left {p} (noticed o e) s = ground arith
Move-moves_left (waited e z) s = ground arith
Move-moves_left (monitor_moved m) s = ground (arith, GroupMove-group_moves m s.monitor_counted)
Move-moves_left (rebalancer_moved m) s =
    ground (arith, GroupMove-group_moves m s.rebalancer_counted)
Move-moves_left (transfer_began e) s = ground (arith, returned-alive e)
Move-moves_left (transfer_ended e) s = ground arith
Move-moves_left (updates_returned o e) s = ground (arith, returned-alive e)
Move-moves_left (updates_ended o i e) s = ground (arith, ended-alive e)

Tick-IsSound : {interval : ℤ} {p q : Process} → Tick interval p q → IsSound p → IsSound q
Tick-IsSound (monitor_ticked e) s =
    ground (arith, began-alive e, s.begun, ticked-IsCounted e s.monitor_counted)
Tick-IsSound (rebalancer_ticked e) s =
    ground (arith, began-alive e, s.begun, ticked-IsCounted e s.rebalancer_counted)
Tick-IsSound (updates_ticked o e) s = ground (arith, began-alive e, s.begun)

-- A tick that begins costs two more.
pub Tick-moves_left :
    {interval : ℤ} {p q : Process} (chains : ℕ)
    → Tick interval p q
    → moves_left chains q ≤ moves_left chains p + 2
Tick-moves_left chains (monitor_ticked e) = ground (arith, began-alive e)
Tick-moves_left chains (rebalancer_ticked e) = ground (arith, began-alive e)
Tick-moves_left chains (updates_ticked o e) = ground (arith, began-alive e)

pub Moves-IsSound :
    {chains : ℕ} {interval : ℤ} {p : Process} {n k : ℕ} {q : Process}
    → Moves chains interval p n k q
    → IsSound p
    → IsSound q
Moves-IsSound here s = s
Moves-IsSound (next ms m) s = Move-IsSound m (Moves-IsSound ms s)
Moves-IsSound (tick ms t) s = Tick-IsSound t (Moves-IsSound ms s)

pub new_process-IsSound : IsSound new_process
new_process-IsSound = ground arith
