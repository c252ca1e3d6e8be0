-- ===== src/Service/Consensus.antt =====
-- Consensus on the tasks of AVS/aggregator/aggregator.go: when tasks reach it, what the counters count,
-- and invariants over the steps of the loops.
use sync_hook.Prelude.{
  ℕ, suc, ◌+◌, ◌≤◌, ◌≡◌, refl, ◌∙◌, ap, [], ◌∷◌, some, Bool, true, false, not, ◌&&◌, ◌||◌,
  if◌then◌else◌, ltb, leb, length, count_if, count_if-le, All, Map, values, lookup,
  lookup-map_values, All-map_values, Run, panics, ◌>>=◌, String, map_values, arith, nat_eq, ◌⊎◌,
  returns,
}
use sync_hook.Floats.{Float64}
use sync_hook.Service.Tasks.{
  SyncHookTask, SyncHookTaskResponse, TaskCounts, valid_responses, failed_status, completed_status,
  process_task, process_tasks,
}
use sync_hook.Service.Pools.{GlobalPoolState, aggregate_states, check_rebalancing_needs}
use sync_hook.Service.Loops.{
  SyncHookAggregator, task_tick, state_tick, rebalancing_tick, Step, Steps, processed, aggregated,
  rebalanced, checked, here, next,
}

length-values : {K V : Type 0} (m : Map K V) → length (values m) ≡ length m
length-values [] = refl
length-values ((k, v) ∷ m) = ap suc (length-values m)

pub valid-le-responses : (t : SyncHookTask) → valid_responses t ≤ length t.responses
valid-le-responses t = omega (
  arith,
  count_if-le {0} (λ (r : SyncHookTaskResponse). r.valid) (values t.responses),
  length-values t.responses,
)

-- A task that has not expired and has valid responses enough.
abbrev pub is_agreed : ℕ → SyncHookTask → Bool
is_agreed now t = not (ltb t.deadline now) && leb t.quorum_threshold_percentage (valid_responses t)

-- The task after a tick, told without the nested guards of the code.
abbrev pub processed_task : ℕ → SyncHookTask → SyncHookTask
processed_task now t = record t {
  consensus_reached = t.consensus_reached || is_agreed now t;
  status =
      if ltb t.deadline now
      then failed_status
      else if is_agreed now t && not t.consensus_reached
      then completed_status
      else t.status;
}

-- What a tick adds to the counters for a task.
abbrev pub newly_completed : ℕ → SyncHookTask → Bool
newly_completed now t = is_agreed now t && not t.consensus_reached

abbrev pub is_expired : ℕ → SyncHookTask → Bool
is_expired now t = ltb t.deadline now

process_task_lem :
    (now : ℕ) (t : SyncHookTask) (n : TaskCounts)
    → process_task now t n ≡ (
      processed_task now t,
      record {
        completed = (if newly_completed now t then suc n.completed else n.completed);
        failed = (if is_expired now t then suc n.failed else n.failed);
      },
    )
unfolding process_task
process_task_lem now t n = ground (arith, valid-le-responses t)

-- A tick treats every task by itself. A task reaches consensus exactly if it had, or if its deadline has
-- not passed and its valid responses are at least the threshold; the counters grow by the tasks that newly
-- complete and by the tasks past their deadline.
pub process_tasks_lem :
    (now : ℕ) (m : Map ℕ SyncHookTask) (n : TaskCounts)
    → process_tasks now m n ≡ (
      map_values (processed_task now) m,
      record {
        completed = n.completed + count_if (newly_completed now) (values m);
        failed = n.failed + count_if (is_expired now) (values m);
      },
    )
unfolding process_tasks
process_tasks_lem now [] n = ground arith
process_tasks_lem now ((k, t) ∷ m) n =
    rw (process_task_lem now t n, process_tasks_lem now m) (ground arith)

-- A task that has reached consensus has as many valid responses as its threshold.
abbrev pub IsBacked : SyncHookTask → Type 0
IsBacked t = (t.consensus_reached ≡ false) ⊎ (t.quorum_threshold_percentage ≤ valid_responses t)

processed_task-IsBacked :
    (now : ℕ) (t : SyncHookTask) → IsBacked t → IsBacked (processed_task now t)
processed_task-IsBacked now t h = ground arith

-- What no step takes from a task: its consensus, and the responses it was reached with.
pub record Keeps (t t' : SyncHookTask) : Type 0 where
  pub agreement_kept : (t.consensus_reached ≡ false) ⊎ (t'.consensus_reached ≡ true)
  pub responses_kept : t'.responses ≡ t.responses
  pub threshold_kept : t'.quorum_threshold_percentage ≡ t.quorum_threshold_percentage
  pub deadline_kept : t'.deadline ≡ t.deadline

processed_task-Keeps : (now : ℕ) (t : SyncHookTask) → Keeps t (processed_task now t)
processed_task-Keeps now t = record {
  agreement_kept = ground arith;
  responses_kept = refl;
  threshold_kept = refl;
  deadline_kept = refl;
}

Keeps-trans : (t u w : SyncHookTask) → Keeps t u → Keeps u w → Keeps t w
Keeps-trans t u w p q = record {
  agreement_kept = ground arith;
  responses_kept = q.responses_kept ∙ p.responses_kept;
  threshold_kept = q.threshold_kept ∙ p.threshold_kept;
  deadline_kept = q.deadline_kept ∙ p.deadline_kept;
}

module _ (fl : Float64) (seconds : ℕ → fl.Float) where
  pub tasks-task_tick :
      (now : ℕ) (v : SyncHookAggregator fl.Float)
      → (task_tick fl seconds now v).tasks ≡ map_values (processed_task now) v.tasks
  unfolding task_tick
  tasks-task_tick now v = ap (λ r. r.0) (process_tasks_lem now v.tasks v.task_counts)

  pub task_counts-task_tick :
      (now : ℕ) (v : SyncHookAggregator fl.Float)
      → (task_tick fl seconds now v).task_counts ≡ record {
        completed = v.task_counts.completed + count_if (newly_completed now) (values v.tasks);
        failed = v.task_counts.failed + count_if (is_expired now) (values v.tasks);
      }
  unfolding task_tick
  task_counts-task_tick now v = ap (λ r. r.1) (process_tasks_lem now v.tasks v.task_counts)

  -- The other loops leave the tasks alone.
  pools_written :
      (v : SyncHookAggregator fl.Float) {v' : SyncHookAggregator fl.Float}
      (r : Run (Map String GlobalPoolState × ℕ))
      → (r >>= λ (ps, n). returns (record v { pool_states = ps; state_updates = n })) ≡ returns v'
      → v'.tasks ≡ v.tasks
  pools_written v (returns (ps, n)) h = ground arith
  pools_written v panics h = cc

  ops_written :
      (v : SyncHookAggregator fl.Float) {v' : SyncHookAggregator fl.Float} (r : Run ℕ)
      → (r >>= λ n. returns (record v { rebalancing_ops = n })) ≡ returns v'
      → v'.tasks ≡ v.tasks
  ops_written v (returns n) h = ground arith
  ops_written v panics h = cc

  tasks-state_tick :
      (now : ℕ) (stamp : String → ℕ) (v v' : SyncHookAggregator fl.Float)
      → state_tick fl seconds now stamp v ≡ returns v'
      → v'.tasks ≡ v.tasks
  unfolding state_tick
  tasks-state_tick now stamp v v' h =
      pools_written v
        (aggregate_states fl seconds v.config.max_state_age now stamp v.pool_states v.state_updates)
        h

  tasks-rebalancing_tick :
      (v v' : SyncHookAggregator fl.Float)
      → rebalancing_tick fl seconds v ≡ returns v'
      → v'.tasks ≡ v.tasks
  unfolding rebalancing_tick
  tasks-rebalancing_tick v v' h =
      ops_written v
        (check_rebalancing_needs fl v.config.rebalancing_threshold v.pool_states v.rebalancing_ops)
        h

  abbrev pub AllBacked : SyncHookAggregator fl.Float → Type 0
  AllBacked v = All IsBacked (values v.tasks)

  Step-AllBacked :
      {v w : SyncHookAggregator fl.Float} → Step fl seconds v w → AllBacked v → AllBacked w
  Step-AllBacked {v} (processed now) h =
      rw (tasks-task_tick now v)
        (All-map_values IsBacked (processed_task now) (processed_task-IsBacked now) v.tasks h)
  Step-AllBacked {v} {w} (aggregated now stamp e) h = rw (tasks-state_tick now stamp v w e) h
  Step-AllBacked {v} {w} (rebalanced on e) h = rw (tasks-rebalancing_tick v w e) h
  Step-AllBacked (checked on) h = h

  -- Whatever the loops do, in whatever order: a task that has reached consensus has at least as many
  -- valid responses as its threshold, if that was so at the start.
  pub Steps-AllBacked :
      {v w : SyncHookAggregator fl.Float} → Steps fl seconds v w → AllBacked v → AllBacked w
  Steps-AllBacked here h = h
  Steps-AllBacked (next r s) h = Step-AllBacked s (Steps-AllBacked r h)

  -- The task of an id, at a later time.
  abbrev pub KeptIn : ℕ → SyncHookTask → SyncHookAggregator fl.Float → Type 0
  KeptIn id t w = (t' : SyncHookTask) × (lookup id w.tasks ≡ some t') × Keeps t t'

  Step-KeptIn :
      {v w : SyncHookAggregator fl.Float} (id : ℕ) (t : SyncHookTask)
      → Step fl seconds v w
      → KeptIn id t v
      → KeptIn id t w
  Step-KeptIn {v} id t (processed now) (u, found, k) = (
    processed_task now u,
    rw (tasks-task_tick now v) (lookup-map_values (processed_task now) id v.tasks u found),
    Keeps-trans t u _ k (processed_task-Keeps now u),
  )
  Step-KeptIn {v} {w} id t (aggregated now stamp e) (u, found, k) =
      (u, rw (tasks-state_tick now stamp v w e) found, k)
  Step-KeptIn {v} {w} id t (rebalanced on e) (u, found, k) =
      (u, rw (tasks-rebalancing_tick v w e) found, k)
  Step-KeptIn id t (checked on) h = h

  -- Whatever the loops do, no task is lost, its responses, threshold and deadline stay, and consensus
  -- that it has reached is never taken back.
  pub Steps-KeptIn :
      {v w : SyncHookAggregator fl.Float} (id : ℕ) (t : SyncHookTask)
      → lookup id v.tasks ≡ some t
      → Steps fl seconds v w
      → KeptIn id t w
  Steps-KeptIn id t found here = (
    t,
    found,
    record {
      agreement_kept = ground arith;
      responses_kept = refl;
      threshold_kept = refl;
      deadline_kept = refl;
    },
  )
  Steps-KeptIn id t found (next r s) = Step-KeptIn id t s (Steps-KeptIn id t found r)
