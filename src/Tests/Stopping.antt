-- ===== src/Tests/Stopping.antt =====
-- The end of `Run` of AVS/internal/operator/operator.go, with one chain and a transfer that is watched.
use sync_hook.Prelude.{[], ◌∷◌, true, ℤ, pos}
use sync_hook.Goroutines.{Group, waiting, ended, under_way}
use sync_hook.Operator.Shutdown.{Process, stopping, finished, new_process}
use sync_hook.Operator.Shutdown
use sync_hook.Goroutines

-- Half a minute.
abbrev interval : ℤ
interval = pos 30_000_000_000

-- The signal comes first of all.
abbrev signalled : Process
signalled = record new_process { outer = true }

abbrev rebalancing : Group
rebalancing = record {
  phase = Goroutines.launching 0;
  routines = Goroutines.looping ∷ [];
  counter = 1;
}

abbrev started : Process
started = record signalled {
  phase = Shutdown.awaiting;
  monitor = Shutdown.launch 1;
  rebalancer = rebalancing;
  updates = Goroutines.looping ∷ [];
  counter = 3;
  transfers = 1;
}

abbrev group_over : Group
group_over = record { phase = Goroutines.returned; routines = ended ∷ []; counter = 0 }

abbrev over : Process
over = record started {
  phase = finished;
  inner = true;
  monitor = group_over;
  rebalancer = group_over;
  updates = ended ∷ [];
  counter = 0;
}
