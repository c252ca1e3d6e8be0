-- ===== src/ChainMonitor.antt =====
-- `Monitor` of AVS/internal/monitor/monitor.go: what a tick of the routine of a chain processes. How the
-- routines start and end is Goroutines.
use sync_hook.Prelude.{ℕ, ◌≡◌, Option, none, some, Map, lookup, nat_eq, ok, err, arith}
use sync_hook.Chain.{Ethereum, Chain, ChainStates, get_pool_states}
use sync_hook.Rebalancing.{Answers}
use sync_hook.Operator.{Operator, update_state}
use sync_hook.Operator.Updates.{lookup-update_state}

-- `processStateChanges` logs the states, and returns no error.
abbrev pub process_state_changes : ChainStates → Option ChainStates
process_state_changes states = some states

-- `checkChainState`, with what the node answers: the states that are processed, or `none` after an error.
unfoldable pub check_chain_state : Answers → Option ChainStates
check_chain_state a = elim (get_pool_states a.block a.chain a.now) [
  | err e ↦ none
  | ok states ↦ process_state_changes states
]

module _ (eth : Ethereum) where
  pub record Monitor : Type 0 where
    pub chains : Map ℕ (Chain eth)

  -- `New` of the monitor, which the operator gives its chains.
  unfoldable pub new_monitor : Map ℕ (Chain eth) → Monitor
  new_monitor chains = record { chains = chains }

  -- The states that a tick processes for the chain `id`, if it has a routine.
  abbrev pub processed : Answers → Option (Chain eth) → Option ChainStates
  processed a none = none
  processed a (some c) = check_chain_state a

  -- For every chain the monitor processes what the operator submits at the same answers of the node, and
  -- where one has no state of a chain, neither has the other.
  pub check_chain_state-update_state :
      (answers : ℕ → Answers) (o : Operator eth) (id : ℕ)
      → processed (answers id) (lookup id (new_monitor o.chains).chains)
        ≡ lookup id (update_state eth answers o)
  unfolding check_chain_state new_monitor
  check_chain_state-update_state answers o id = ground (arith, lookup-update_state eth answers o id)
