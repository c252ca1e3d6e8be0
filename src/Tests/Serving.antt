-- ===== src/Tests/Serving.antt =====
-- AVS/cmd/aggregator/main.go, run on a file that asks for no loop but the two that always run, and leaves
-- out the interval of one.
use sync_hook.Prelude.{◌≡◌, refl, some, false, returns, panics, arith, ℤ, [], ◌∷◌, pos, ok}
use sync_hook.Tests.Samples.{decimals}
use sync_hook.Defaults.Loading.{opened}
use sync_hook.Service.Loops.{Config, new_sync_hook_aggregator}
use sync_hook.Service.Starting.{start, in_seconds, task_processing, state_aggregation}
use sync_hook.Commands.Aggregating.{default_config, load_config}
use sync_hook.Commands.Serving.{Serves, serve, serve-Serves}

abbrev two_loops : Config ℤ
two_loops = record (default_config decimals) {
  rebalancing_enabled = false;
  enable_health_check = false;
  health_check_interval = 0;
}

abbrev no_timeout : Config ℤ
no_timeout = record two_loops { task_timeout = 0 }

two_loops_run :
    serve decimals (opened (some two_loops))
    ≡ returns (
        ok (
          new_sync_hook_aggregator two_loops,
          (task_processing, pos 300_000_000_000) ∷ (state_aggregation, pos 30_000_000_000) ∷ [],
        ))
unfolding serve start load_config in_seconds
two_loops_run = refl

no_timeout_run : serve decimals (opened (some no_timeout)) ≡ panics
unfolding serve start load_config in_seconds
no_timeout_run = refl

serve-Serves_example :
    Serves decimals (opened (some no_timeout)) (serve decimals (opened (some no_timeout)))
serve-Serves_example =
    serve-Serves decimals (opened (some no_timeout))
      (record { task_brief = omega arith; state_brief = omega arith; health_brief = omega arith })
