-- ===== src/Operator/Updates.antt =====
-- What the parts of an operator that `New` of AVS/internal/operator/operator.go makes do together: the
-- updates that it submits, and the transfers of its rebalancer.
use sync_hook.Prelude.{
  ℕ, ◌≡◌, refl, subst, String, List, [], ◌∷◌, Option, none, some, Bool, true, false, ℤ, Map, lookup,
  insert, lookup-insert, IsMap, insert-IsMap, nat_eq, Result, ok, err, Result-cases, and_then-ok,
  ok-injective, err-ne-ok, arith, inl, inr,
}
use sync_hook.Decimal.{set_string}
use sync_hook.Chain.{
  Ethereum, ChainConfig, Chain, ChainError, ChainStates, new_chain, get_pool_states,
}
use sync_hook.Across.{Config}
use sync_hook.Rebalancing.{
  Answers, RebalancingOpportunity, new_rebalancer, chain_states, execute_rebalancing_operation,
}
use sync_hook.Rebalancing.Transfers.{Executes, execute_rebalancing_operation-Executes}
use sync_hook.Operator.{Operator, add_chains, new_operator, update_state}

module _ (eth : Ethereum) where
  -- The state of a chain that is known and whose node answers.
  abbrev pub answered : Option (Chain eth) → Result ChainError ChainStates → Option ChainStates
  answered none r = none
  answered (some c) (err e) = none
  answered (some c) (ok s) = some s

  abbrev or_else : Option ChainStates → Option ChainStates → Option ChainStates
  or_else none o = o
  or_else (some s) o = some s

  lookup-chain_states :
      (answers : ℕ → Answers) (id : ℕ) (states : Map ℕ ChainStates) (chains : Map ℕ (Chain eth))
      → lookup id (chain_states eth answers states chains)
        ≡ or_else
            (answered
              (lookup id chains)
              (get_pool_states (answers id).block (answers id).chain (answers id).now))
            (lookup id states)
  lookup-chain_states answers id states [] = refl
  lookup-chain_states answers id states ((j, c) ∷ chains) =
      elim (Result-cases (get_pool_states (answers j).block (answers j).chain (answers j).now)) [
        | inl (e, failed) ↦
            rw (chain_states, failed)
              (ground (arith, lookup-chain_states answers id states chains, nat_eq.beq_iff j id))
        | inr (s, read) ↦
            rw (chain_states, read)
              (ground (
                arith,
                lookup-chain_states answers id (insert j s states) chains,
                lookup-insert j id s states,
                nat_eq.beq_iff j id,
              ))
      ]

  -- A tick of the updates submits, for each chain of the operator whose node answers, the state that it
  -- answered; and it submits nothing for any other id.
  pub lookup-update_state :
      (answers : ℕ → Answers) (o : Operator eth) (id : ℕ)
      → lookup id (update_state eth answers o)
        ≡ answered
            (lookup id o.chains)
            (get_pool_states (answers id).block (answers id).chain (answers id).now)
  unfolding update_state
  lookup-update_state answers o id = ground (arith, lookup-chain_states answers id [] o.chains)

  add_chains-IsMap :
      (dial : String → Option eth.Connection) (made chains : Map ℕ (Chain eth))
      (cfgs : List ChainConfig)
      → IsMap made
      → add_chains eth dial made cfgs ≡ ok chains
      → IsMap chains
  unfolding add_chains
  add_chains-IsMap dial made chains [] d e = subst IsMap (ok-injective _ _ e) d
  add_chains-IsMap dial made chains (cfg ∷ cfgs) d e =
      elim (Result-cases (new_chain eth cfg (dial cfg.rpc_url) (dial cfg.ws_url))) [
        | inl (x, failed) ↦ absurd (err-ne-ok (rw (add_chains, failed) at e))
        | inr (c, p) ↦
            add_chains-IsMap dial (insert cfg.id c made) chains cfgs (insert-IsMap cfg.id c made d)
              (rw (add_chains, p) at e)
      ]

  -- An operator is made of chains with different ids, and its rebalancer of these.
  new_operator-made :
      (opened : Bool) (dial : String → Option eth.Connection) (cfg : Config)
      (cfgs : List ChainConfig) (o : Operator eth)
      → new_operator eth opened dial cfg cfgs ≡ ok o
      → IsMap o.chains × (new_rebalancer eth cfg o.chains ≡ ok o.rebalancer)
  unfolding new_operator
  new_operator-made false dial cfg cfgs o e = absurd (err-ne-ok e)
  new_operator-made true dial cfg cfgs o e =
      let (chains, made, rest) = and_then-ok (add_chains eth dial [] cfgs) _ e in
      elim (Result-cases (new_rebalancer eth cfg chains)) [
        | inl (x, failed) ↦ absurd (err-ne-ok (rw failed at rest))
        | inr (r, p) ↦
            let o-eq = ok-injective _ _ (rw p at rest) in
            subst
              (λ (x : Operator eth).
                IsMap x.chains × (new_rebalancer eth cfg x.chains ≡ ok x.rebalancer))
              o-eq (add_chains-IsMap dial [] chains cfgs tt made, p)
      ]

  -- With an operator that `New` has made, an operation of its rebalancer ends in one of three ways: the
  -- source chain is not one of the operator's, or else the amount is not a decimal number, or else a
  -- transfer is initiated. The transfer is of that amount, to the operator's address on the source chain,
  -- signed with its key and identified by the clock, and its fee is the configured percentage of the
  -- amount, in units of 10 ^ -18 and rounded down. The error that a bridge client is missing does not
  -- occur.
  pub new_operator-Executes :
      (opened : Bool) (dial : String → Option eth.Connection) (cfg : Config)
      (cfgs : List ChainConfig) (o : Operator eth)
      → new_operator eth opened dial cfg cfgs ≡ ok o
      → (nanos now : ℕ) (chain_id : Option ℤ) (x : RebalancingOpportunity)
      → Executes eth cfg now
          (lookup x.from_chain o.chains)
          (set_string x.amount)
          (execute_rebalancing_operation eth nanos now chain_id o.rebalancer x)
  new_operator-Executes opened dial cfg cfgs o e nanos now chain_id x =
      let (different, made) = new_operator-made opened dial cfg cfgs o e in
      execute_rebalancing_operation-Executes eth cfg nanos now chain_id o.chains o.rebalancer x
        different made
