-- ===== src/Operator.antt =====
-- `Operator` of AVS/internal/operator/operator.go: what `New` makes, in which order `Run` starts and stops
-- the parts, and what a tick of the updates submits. A part's `Start` and `Stop` are those of
-- internal/database, internal/blockchain and internal/eigenlayer.
pub mod Lifecycle
pub mod Updates
pub mod Shutdown
use sync_hook.Prelude.{
  ℕ, String, List, [], ◌∷◌, ◌++◌, map, Option, none, some, Bool, true, false, if◌then◌else◌, ℤ, Map,
  lookup, insert, nat_eq, Result, ok, err, and_then, or_err,
}
use sync_hook.Chain.{Ethereum, ChainConfig, Chain, ChainError, ChainStates, new_chain}
use sync_hook.Across.{Config}
use sync_hook.Rebalancing.{Answers, Rebalancer, RebalancerError, new_rebalancer, chain_states}

-- What `Run` starts: the database, each chain, and the client of EigenLayer.
pub data Part : Type 0 where
  database eigen_layer : Part
  chain : ℕ → Part

-- `working` is from the start of the three goroutines until all of them have ended.
pub data Event : Type 0 where
  started stopped failed : Part → Event
  working : Event

-- The events so far, and the deferred calls of `Stop`, the last one first.
pub record Frame : Type 0 where
  pub events : List Event
  pub deferred : List Part

pub data OperatorError : Type 0 where
  no_database : OperatorError
  no_chain : ℕ → ChainError → OperatorError
  no_rebalancer : RebalancerError → OperatorError

-- What a part that fails leaves behind.
abbrev pub Started : Type 0
Started = Result (Frame × Part) Frame

-- `if err := p.Start(); err != nil { return ... }` and `defer p.Stop()`.
abbrev pub start : (Part → Bool) → Part → Frame → Started
start starts p f =
    if starts p
    then ok (record { events = f.events ++ (started p ∷ []); deferred = p ∷ f.deferred })
    else err (record { events = f.events ++ (failed p ∷ []); deferred = f.deferred }, p)

-- The loop over the chains.
unfoldable pub start_chains : (Part → Bool) → List ℕ → Frame → Started
start_chains starts [] f = ok f
start_chains starts (id ∷ ids) f = and_then (start starts (chain id) f) (start_chains starts ids)

-- The deferred calls, and which part failed to start.
abbrev pub leave : Started → List Event × Option Part
leave (ok f) = (f.events ++ (working ∷ map stopped f.deferred), none)
leave (err (f, p)) = (f.events ++ map stopped f.deferred, some p)

-- `Run` until it returns; a chain is named by its id.
unfoldable pub run : (Part → Bool) → List ℕ → List Event × Option Part
unfolding start_chains
run starts ids = leave (
    and_then (start starts database (record { events = []; deferred = [] }))
      λ f. and_then (start_chains starts ids f) λ g. start starts eigen_layer g)

-- `Start` of the three parts returns no error.
abbrev pub always_starts : Part → Bool
always_starts p = true

module _ (eth : Ethereum) where
  pub record Operator : Type 0 where
    pub chains : Map ℕ (Chain eth)
    pub rebalancer : Rebalancer eth

  -- The loop of `New` over the configured chains, with the connections that are made to their URLs.
  unfoldable pub add_chains :
      (String → Option eth.Connection)
      → Map ℕ (Chain eth)
      → List ChainConfig
      → Result OperatorError (Map ℕ (Chain eth))
  unfolding new_chain
  add_chains dial made [] = ok made
  add_chains dial made (cfg ∷ cfgs) =
      elim (new_chain eth cfg (dial cfg.rpc_url) (dial cfg.ws_url)) [
        | err e ↦ err (no_chain cfg.id e)
        | ok c ↦ add_chains dial (insert cfg.id c made) cfgs
      ]

  abbrev pub with_rebalancer :
      Map ℕ (Chain eth) → Result RebalancerError (Rebalancer eth) → Result OperatorError Operator
  with_rebalancer chains (err e) = err (no_rebalancer e)
  with_rebalancer chains (ok r) = ok (record { chains = chains; rebalancer = r })

  -- `New`, with whether the database is opened. The client of EigenLayer and the monitor are always made.
  unfoldable pub new_operator :
      Bool
      → (String → Option eth.Connection)
      → Config
      → List ChainConfig
      → Result OperatorError Operator
  unfolding add_chains new_rebalancer
  new_operator opened dial cfg cfgs =
      if opened
      then and_then (add_chains dial [] cfgs)
          (λ chains. with_rebalancer chains (new_rebalancer eth cfg chains))
      else err no_database

  -- `updateState`: what is submitted, by chain. A submission returns no error.
  unfoldable pub update_state : (ℕ → Answers) → Operator → Map ℕ ChainStates
  update_state answers o = chain_states eth answers [] o.chains
