-- ===== src/Service/Starting.antt =====
-- `Start` of AVS/aggregator/aggregator.go: which loops it begins, and the interval of the ticker that each
-- makes first. What the loops do is in Service/Loops.
use sync_hook.Prelude.{
  ℕ, ◌*◌, ◌≤◌, ◌≡◌, refl, List, [], ◌∷◌, ◌++◌, Bool, true, false, ◌||◌, ◌&&◌, if◌then◌else◌,
  nat_beq, ℤ, pos, leb_ℤ, Run, returns, panics, ◌>>=◌, arith,
}
use sync_hook.Words.{int64}
use sync_hook.Service.Loops.{Config}

pub data Loop : Type 0 where
  task_processing state_aggregation rebalancing health_check : Loop

-- `time.NewTicker`, which panics if the interval is not positive.
abbrev pub new_ticker : ℤ → Run ℤ
new_ticker d = if leb_ℤ d (pos 0) then panics else returns d

-- `time.Duration(n) * time.Second`
unfoldable pub in_seconds : ℕ → ℤ
unfolding int64
in_seconds n = int64 (pos (n * 1_000_000_000))

-- A loop that is begun makes its ticker before it waits. A panic of its goroutine ends the process.
abbrev pub begin : Bool → Loop → ℤ → Run (List (Loop × ℤ))
begin false l d = returns []
begin true l d = new_ticker d >>= λ t. returns ((l, t) ∷ [])

abbrev pub planned_if : Bool → Loop → ℕ → List (Loop × ℤ)
planned_if false l n = []
planned_if true l n = (l, pos (n * 1_000_000_000)) ∷ []

module _ {F : Type 0} where
  unfoldable pub start : Config F → Run (List (Loop × ℤ))
  start cfg = do
    tasks ← begin true task_processing (in_seconds cfg.task_timeout)
    states ← begin true state_aggregation (in_seconds cfg.state_update_interval)
    needs ← begin cfg.rebalancing_enabled rebalancing (pos 60_000_000_000)
    health ← begin cfg.enable_health_check health_check (in_seconds cfg.health_check_interval)
    returns (tasks ++ states ++ needs ++ health)

  -- The intervals, in nanoseconds, are numbers of 63 bits.
  pub record IsBrief (cfg : Config F) : Type 0 where
    pub task_brief : cfg.task_timeout ≤ 9_223_372_036
    pub state_brief : cfg.state_update_interval ≤ 9_223_372_036
    pub health_brief : cfg.health_check_interval ≤ 9_223_372_036

  -- A loop that is to be begun has no interval.
  abbrev pub lacks_interval : Config F → Bool
  lacks_interval cfg =
      nat_beq cfg.task_timeout 0
      || nat_beq cfg.state_update_interval 0
      || (cfg.enable_health_check && nat_beq cfg.health_check_interval 0)

  -- The loops that the configuration asks for, each with its interval.
  abbrev pub planned : Config F → List (Loop × ℤ)
  planned cfg =
      (task_processing, pos (cfg.task_timeout * 1_000_000_000))
      ∷ (state_aggregation, pos (cfg.state_update_interval * 1_000_000_000))
      ∷ (planned_if cfg.rebalancing_enabled rebalancing 60
          ++ planned_if cfg.enable_health_check health_check cfg.health_check_interval)

in_seconds_lem : (n : ℕ) → n ≤ 9_223_372_036 → in_seconds n ≡ pos (n * 1_000_000_000)
unfolding in_seconds int64
in_seconds_lem n h = ground arith

begin_lem :
    (b : Bool) (l : Loop) (n : ℕ)
    → begin b l (pos (n * 1_000_000_000))
      ≡ (if b && nat_beq n 0 then panics else returns (planned_if b l n))
begin_lem false l n = refl
begin_lem true l n = ground arith

module _ {F : Type 0} where
  pub start_lem :
      (cfg : Config F)
      → IsBrief cfg
      → start cfg ≡ (if lacks_interval cfg then panics else returns (planned cfg))
  unfolding start
  start_lem cfg h =
      rw
        (
          in_seconds_lem cfg.task_timeout h.task_brief,
          in_seconds_lem cfg.state_update_interval h.state_brief,
          in_seconds_lem cfg.health_check_interval h.health_brief,
        )
        (ground arith)
