-- ===== src/Rebalancing.antt =====
-- `Rebalancer` of AVS/internal/rebalancer/rebalancer.go, over the chains of internal/blockchain and the
-- bridge clients of internal/across.
pub mod Transfers
pub mod Watching
use sync_hook.Prelude.{
  ℕ, suc, String, List, [], ◌∷◌, Option, none, some, Bool, true, false, if◌then◌else◌, ℤ, pos, Map,
  lookup, insert, nat_eq, Result, ok, err, and_then, or_err,
}
use sync_hook.Decimal.{bytes, set_string}
use sync_hook.Chain.{
  Ethereum, Chain, ChainError, ChainStates, Transactor, get_transactor, get_pool_states,
}
use sync_hook.Across.{
  Config, Client, ClientError, CrossChainTransfer, TransferResult, new_client, initiate_transfer,
  calculate_relayer_fee, is_transfer_complete,
}

pub record RebalancingOpportunity : Type 0 where
  pub from_chain : ℕ
  pub to_chain : ℕ
  pub token : String
  pub amount : List ℕ
  pub expected_profit : List ℕ
  pub priority : ℕ

-- A client that could not be made, with the chain it is for.
pub data RebalancerError : Type 0 where
  no_client : ℕ → ClientError → RebalancerError

pub data ExecutionError : Type 0 where
  source_chain_not_found client_not_found invalid_amount : ExecutionError

abbrev pub sample_opportunity : RebalancingOpportunity
sample_opportunity = record {
  from_chain = 1;
  to_chain = 42_161;
  token = "0x1234567890abcdef";
  amount = bytes "100000000000000000000";
  expected_profit = bytes "5000000000000000000";
  priority = 1;
}

-- What a node answers to `GetPoolStates` of its chain, and when.
pub record Answers : Type 0 where
  pub block : Option ℕ
  pub chain : Option ℤ
  pub now : ℕ

module _ (eth : Ethereum) where
  pub record Rebalancer : Type 0 where
    pub chains : Map ℕ (Chain eth)
    pub across : Map ℕ (Client eth)

  -- A transfer that has been initiated, by whom and with what result.
  pub record Initiated : Type 0 where
    pub transfer : CrossChainTransfer eth
    pub transactor : Transactor eth
    pub result : TransferResult eth

  -- The loop of `New`, with the clients made so far.
  unfoldable pub add_clients :
      Config → Map ℕ (Client eth) → Map ℕ (Chain eth) → Result RebalancerError (Map ℕ (Client eth))
  unfolding new_client
  add_clients cfg made [] = ok made
  add_clients cfg made ((id, chain) ∷ chains) = elim (new_client eth cfg chain.client) [
    | err e ↦ err (no_client id e)
    | ok client ↦ add_clients cfg (insert id client made) chains
  ]

  unfoldable pub new_rebalancer : Config → Map ℕ (Chain eth) → Result RebalancerError Rebalancer
  unfolding add_clients
  new_rebalancer cfg chains =
      and_then (add_clients cfg [] chains)
        λ clients. ok (record { chains = chains; across = clients })

  -- The analysis does not look at the states that it is given.
  unfoldable pub analyze_rebalancing_opportunities : Map ℕ ChainStates → List RebalancingOpportunity
  analyze_rebalancing_opportunities states = sample_opportunity ∷ []

  -- `executeRebalancingOperation`, with the clock in nanoseconds and in seconds and the chain that the
  -- node names.
  unfoldable pub execute_rebalancing_operation :
      ℕ → ℕ → Option ℤ → Rebalancer → RebalancingOpportunity → Result ExecutionError Initiated
  unfolding set_string calculate_relayer_fee initiate_transfer get_transactor
  execute_rebalancing_operation nanos now chain_id r o =
      and_then (or_err source_chain_not_found (lookup o.from_chain r.chains)) λ source.
        and_then (or_err client_not_found (lookup o.from_chain r.across)) λ client.
          and_then (or_err invalid_amount (set_string o.amount)) λ amount.
            let transfer : CrossChainTransfer eth = record {
              from_chain = o.from_chain;
              to_chain = o.to_chain;
              token = eth.hex_to_address o.token;
              amount = amount;
              recipient = source.address;
              relayer_fee = calculate_relayer_fee eth client amount;
              message = "SyncHook rebalancing";
              max_gas_price = pos 20_000_000_000;
              max_gas_limit = pos 300_000;
            } in
            ok (record {
              transfer = transfer;
              transactor = get_transactor eth chain_id source;
              result = initiate_transfer eth nanos now transfer;
            })

  -- The loop of `executeRebalancing`: what it initiates, in order. The readings are by the number of the
  -- operation.
  unfoldable pub execute_rebalancing :
      (ℕ → ℕ × ℕ × Option ℤ) → ℕ → Rebalancer → List RebalancingOpportunity → List Initiated
  unfolding execute_rebalancing_operation
  execute_rebalancing readings i r [] = []
  execute_rebalancing readings i r (o ∷ os) =
      let (nanos, now, chain_id) = readings i in
      let rest = execute_rebalancing readings (suc i) r os in
      elim (execute_rebalancing_operation nanos now chain_id r o) [ err e ↦ rest | ok x ↦ x ∷ rest ]

  -- The states of the chains whose nodes answer, with the answers by chain.
  abbrev pub chain_states :
      (ℕ → Answers) → Map ℕ ChainStates → Map ℕ (Chain eth) → Map ℕ ChainStates
  chain_states answers states [] = states
  chain_states answers states ((id, chain) ∷ chains) =
      let a = answers id in
      elim (get_pool_states a.block a.chain a.now) [
        | err e ↦ chain_states answers states chains
        | ok s ↦ chain_states answers (insert id s states) chains
      ]

  -- A tick of `rebalancingRoutine`.
  unfoldable pub check_rebalancing_opportunities :
      (ℕ → Answers) → (ℕ → ℕ × ℕ × Option ℤ) → Rebalancer → List Initiated
  unfolding get_pool_states analyze_rebalancing_opportunities execute_rebalancing
  check_rebalancing_opportunities answers readings r =
      let opportunities = analyze_rebalancing_opportunities (chain_states answers [] r.chains) in
      execute_rebalancing readings 0 r opportunities

  -- `monitorTransfer`, with the clock at each tick until it is cancelled: whether the transfer is seen to
  -- be complete.
  unfoldable pub monitor_transfer : ℤ → List ℕ → Bool
  unfolding is_transfer_complete
  monitor_transfer id [] = false
  monitor_transfer id (now ∷ ticks) =
      let rest = monitor_transfer id ticks in if is_transfer_complete eth now id then true else rest
