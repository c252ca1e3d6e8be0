-- ===== src/Operator/Shutdown/Ending.antt =====
-- `Run` of AVS/internal/operator/operator.go after its context is cancelled: how it ends, and what it may
-- leave behind.
use sync_hook.Prelude.{ℕ, suc, ◌≡◌, ℤ, ◌⊎◌}
use sync_hook.Operator.Shutdown.{finished, Process, Move, Panics}

-- `Run` has returned, the ticker of the updates panics, or a move that begins no tick is possible.
abbrev pub Goes : ℕ → ℤ → Process → Type 0
Goes chains interval p =
    (p.phase ≡ finished) ⊎ (Panics interval p ⊎ ((q : Process) × Move chains interval p q))

-- A watcher of a transfer ends, and nothing else changes.
abbrev pub WatcherEnds : Process → Process → Type 0
WatcherEnds p q = (suc q.transfers ≡ p.transfers) × (q ≡ record p { transfers = q.transfers })
