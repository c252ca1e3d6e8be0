-- ===== src/Service/Tasks.antt =====
-- The tasks of AVS/aggregator/aggregator.go: `processTasks` and `processConsensus`.
use sync_hook.Prelude.{
  ℕ, ◌+◌, List, [], ◌∷◌, String, Bool, true, if◌then◌else◌, ltb, leb, length, count_if, Map, values,
}

pub record SyncHookTaskResponse : Type 0 where
  pub operator_address : ℕ
  pub response : List ℕ
  pub signature : List ℕ
  pub timestamp : ℕ
  pub valid : Bool

pub record SyncHookTask : Type 0 where
  pub task_id : ℕ
  pub task_type : ℕ
  pub chain_id : ℕ
  pub pool_id : ℕ
  pub payload : List ℕ
  pub deadline : ℕ
  pub status : ℕ
  pub created_at : ℕ
  pub quorum_numbers : List ℕ
  pub quorum_threshold_percentage : ℕ
  pub responses : Map String SyncHookTaskResponse
  pub consensus_reached : Bool
  pub result : List ℕ

abbrev pub completed_status : ℕ
completed_status = 3

abbrev pub failed_status : ℕ
failed_status = 4

-- The counters `tasksCompleted` and `tasksFailed`.
pub record TaskCounts : Type 0 where
  pub completed : ℕ
  pub failed : ℕ

abbrev pub valid_responses : SyncHookTask → ℕ
valid_responses t = count_if (λ r. r.valid) (values t.responses)

unfoldable pub process_consensus : SyncHookTask → TaskCounts → SyncHookTask × TaskCounts
process_consensus t n =
    if t.consensus_reached
    then (t, n)
    else if leb t.quorum_threshold_percentage (valid_responses t)
    then (
      record t { consensus_reached = true; status = completed_status },
      record n { completed = n.completed + 1 },
    )
    else (t, n)

-- The body of the loop over the tasks.
unfoldable pub process_task : ℕ → SyncHookTask → TaskCounts → SyncHookTask × TaskCounts
unfolding process_consensus
process_task now t n =
    if ltb t.deadline now
    then (record t { status = failed_status }, record n { failed = n.failed + 1 })
    else if leb t.quorum_threshold_percentage (length t.responses)
    then process_consensus t n
    else (t, n)

-- The loop, which meets each task once.
unfoldable pub process_tasks : ℕ → Map ℕ SyncHookTask → TaskCounts → Map ℕ SyncHookTask × TaskCounts
unfolding process_task
process_tasks now [] n = ([], n)
process_tasks now ((k, t) ∷ m) n =
    let (t', n') = process_task now t n in
    let (m', n'') = process_tasks now m n' in ((k, t') ∷ m', n'')
