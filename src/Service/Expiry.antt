-- ===== src/Service/Expiry.antt =====
-- What a tick of AVS/aggregator/aggregator.go does to tasks that are past their deadline, and to those with
-- fewer responses than their threshold.
use sync_hook.Prelude.{
  ℕ, ◌+◌, ◌*◌, ◌≤◌, ◌<◌, ◌≡◌, [], ◌∷◌, some, true, false, length, count_if, Map, values, map_values,
  lookup, lookup-map_values, nat_eq, arith,
}
use sync_hook.Floats.{Float64}
use sync_hook.Service.Tasks.{SyncHookTask, failed_status}
use sync_hook.Service.Loops.{SyncHookAggregator, task_tick}
use sync_hook.Service.Consensus.{
  is_expired, processed_task, valid-le-responses, tasks-task_tick, task_counts-task_tick,
}

module _ (fl : Float64) (seconds : ℕ → fl.Float) where
  -- A task that has completed is marked failed by the next tick after its deadline, though it keeps its
  -- consensus.
  completed_then_failed :
      (now : ℕ) (v : SyncHookAggregator fl.Float) (id : ℕ) (t : SyncHookTask)
      → lookup id v.tasks ≡ some t
      → t.consensus_reached ≡ true
      → t.deadline < now
      → (t' : SyncHookTask) × (lookup id (task_tick fl seconds now v).tasks ≡ some t')
        × (t'.consensus_reached ≡ true)
        × (t'.status ≡ failed_status)
  completed_then_failed now v id t found reached late = (
    processed_task now t,
    rw (tasks-task_tick fl seconds now v)
        (lookup-map_values (processed_task now) id v.tasks t found),
    ground arith,
    ground arith,
  )

  expired_mono :
      (now₁ now₂ : ℕ) (m : Map ℕ SyncHookTask)
      → now₁ ≤ now₂
      → count_if (is_expired now₁) (values m)
        ≤ count_if (is_expired now₂) (values (map_values (processed_task now₁) m))
  expired_mono now₁ now₂ [] h = omega arith
  expired_mono now₁ now₂ ((k, t) ∷ m) h = ground (arith, expired_mono now₁ now₂ m h)

  -- The failure counter counts a task again at every tick after its deadline: two ticks in turn add at
  -- least twice the number of tasks that had expired at the first.
  pub failed-task_tick-task_tick :
      (now₁ now₂ : ℕ) (v : SyncHookAggregator fl.Float)
      → now₁ ≤ now₂
      → v.task_counts.failed + 2 * count_if (is_expired now₁) (values v.tasks)
        ≤ (task_tick fl seconds now₂ (task_tick fl seconds now₁ v)).task_counts.failed
  failed-task_tick-task_tick now₁ now₂ v h =
      rw
        (
          task_counts-task_tick fl seconds now₂ (task_tick fl seconds now₁ v),
          task_counts-task_tick fl seconds now₁ v,
          tasks-task_tick fl seconds now₁ v,
        )
        (omega (arith, expired_mono now₁ now₂ v.tasks h))

  -- The threshold, named a percentage, is compared with a count: a task whose operators are fewer than
  -- that number does not reach consensus at a tick, even if every response is valid.
  pub percentage_as_count :
      (now : ℕ) (v : SyncHookAggregator fl.Float) (id : ℕ) (t : SyncHookTask)
      → lookup id v.tasks ≡ some t
      → t.consensus_reached ≡ false
      → length t.responses < t.quorum_threshold_percentage
      → (t' : SyncHookTask) × (lookup id (task_tick fl seconds now v).tasks ≡ some t')
        × (t'.consensus_reached ≡ false)
  percentage_as_count now v id t found open_task few = (
    processed_task now t,
    rw (tasks-task_tick fl seconds now v)
        (lookup-map_values (processed_task now) id v.tasks t found),
    ground (arith, valid-le-responses t),
  )
