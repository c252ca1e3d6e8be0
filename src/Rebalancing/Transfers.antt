-- ===== src/Rebalancing/Transfers.antt =====
-- What `executeRebalancingOperation` of AVS/internal/rebalancer/rebalancer.go does with the bridge clients
-- that `New` makes.
use sync_hook.Prelude.{
  ℕ, ◌≡◌, refl, sym, subst, ap, ◌∙◌, [], ◌∷◌, Option, none, some, ℤ, pos, ◌*ℤ◌, quot_ℤ, Map, lookup,
  insert, lookup-insert, IsMap, nat_eq, ◌==◌, Result, ok, err, Result-cases, and_then-ok,
  ok-injective, err-ne-ok, err-ne-ok, arith, Bool-cases, Option-cases, inl, inr,
}
use sync_hook.Decimal.{set_string}
use sync_hook.Chain.{Ethereum, Chain, get_transactor}
use sync_hook.Across.{
  Config, Client, one_ether, new_client, calculate_relayer_fee, initiate_transfer,
}
use sync_hook.Rebalancing.{
  RebalancingOpportunity, ExecutionError, source_chain_not_found, invalid_amount, Rebalancer,
  Initiated, add_clients, new_rebalancer, execute_rebalancing_operation,
}

module _ (eth : Ethereum) (cfg : Config) where
  add_clients-absent :
      (id : ℕ) (made clients : Map ℕ (Client eth)) (chains : Map ℕ (Chain eth))
      → lookup id chains ≡ none
      → add_clients eth cfg made chains ≡ ok clients
      → lookup id clients ≡ lookup id made
  unfolding add_clients
  add_clients-absent id made clients [] absent e = ap (lookup id) (sym (ok-injective _ _ e))
  add_clients-absent id made clients ((j, chain) ∷ chains) absent e =
      elim (Result-cases (new_client eth cfg chain.client)) [
        | inl (x, failed) ↦ absurd (err-ne-ok (rw (add_clients, failed) at e))
        | inr (client, p) ↦
            let rest =
              add_clients-absent id (insert j client made) clients chains (ground arith)
                (rw (add_clients, p) at e) in
            ground (arith, lookup-insert j id client made, rest)
      ]

  add_clients-present :
      (id : ℕ) (made clients : Map ℕ (Client eth)) (chains : Map ℕ (Chain eth)) (c : Chain eth)
      → IsMap chains
      → lookup id chains ≡ some c
      → add_clients eth cfg made chains ≡ ok clients
      → (k : Client eth) × (lookup id clients ≡ some k) × (new_client eth cfg c.client ≡ ok k)
  unfolding add_clients
  add_clients-present id made clients [] c d found e = cc
  add_clients-present id made clients ((j, chain) ∷ chains) c d found e =
      elim (Result-cases (new_client eth cfg chain.client)) [
        | inl (x, failed) ↦ absurd (err-ne-ok (rw (add_clients, failed) at e))
        | inr (client, p) ↦ elim (Bool-cases (j == id)) [
          | inl same ↦
              let key = (nat_eq.beq_iff j id).0 same in
              let kept =
                add_clients-absent id (insert j client made) clients chains
                  (subst (λ k. lookup k chains ≡ none) key d.0) (rw (add_clients, p) at e) in
              let here : some chain ≡ some c = rw same at found in
              let chain-eq : chain ≡ c = cc here in
              (
                client,
                kept ∙ rw (lookup-insert j id client made, same) refl,
                subst (λ x. new_client eth cfg x.client ≡ ok client) chain-eq p,
              )
          | inr apart ↦
              add_clients-present id (insert j client made) clients chains c d.1 (rw apart at found)
                (rw (add_clients, p) at e)
        ]
      ]

  new_client-fee :
      (connection : eth.Connection) (k : Client eth)
      → new_client eth cfg connection ≡ ok k
      → set_string cfg.relayer_fee_pct ≡ some k.relayer_fee_pct
  unfolding new_client
  new_client-fee connection k e = ground arith

  -- What becomes of an opportunity, by the chain that it starts from and the amount that it says.
  abbrev pub Executes :
      ℕ → Option (Chain eth) → Option ℤ → Result ExecutionError (Initiated eth) → Type 0
  Executes now none amount result = result ≡ err source_chain_not_found
  Executes now (some chain) none result = result ≡ err invalid_amount
  Executes now (some chain) (some amount) result =
      (x : Initiated eth) × (pct : ℤ) × (result ≡ ok x)
      × (set_string cfg.relayer_fee_pct ≡ some pct)
      × (x.transfer.amount ≡ amount)
      × (x.transfer.relayer_fee ≡ quot_ℤ (amount *ℤ pct) one_ether)
      × (x.transfer.recipient ≡ chain.address)
      × (x.transactor.key ≡ chain.private_key)
      × (x.result.deposit_id ≡ pos now)

  execute-Executes :
      (nanos now : ℕ) (chain_id : Option ℤ) (r : Rebalancer eth) (o : RebalancingOpportunity)
      → ((c : Chain eth)
          → lookup o.from_chain r.chains ≡ some c
          → (k : Client eth) × (lookup o.from_chain r.across ≡ some k)
            × (new_client eth cfg c.client ≡ ok k))
      → Executes now
          (lookup o.from_chain r.chains)
          (set_string o.amount)
          (execute_rebalancing_operation eth nanos now chain_id r o)
  unfolding execute_rebalancing_operation calculate_relayer_fee initiate_transfer get_transactor
  execute-Executes nanos now chain_id r o served =
      elim (Option-cases (lookup o.from_chain r.chains)) [
        | inl missing ↦ rw (execute_rebalancing_operation, missing) refl
        | inr (c, found) ↦
            let (k, client, made) = served c found in
            elim (Option-cases (set_string o.amount)) [
              | inl bad ↦ rw (execute_rebalancing_operation, found, client, bad) refl
              | inr (n, good) ↦
                  rw (execute_rebalancing_operation, found, client, good)
                    (
                      _,
                      k.relayer_fee_pct,
                      refl,
                      new_client-fee c.client k made,
                      refl,
                      refl,
                      refl,
                      refl,
                      refl,
                    )
            ]
      ]

  -- With a rebalancer that `New` has made of chains with different ids, an operation ends in one of three
  -- ways: the source chain is not known, or else the amount is not a decimal number, or else a transfer is
  -- initiated. The transfer is of that amount, to the operator's address on the source chain, signed with
  -- its key and identified by the clock, and its fee is the configured percentage of the amount, in units
  -- of 10 ^ -18 and rounded down. The error that a bridge client is missing does not occur.
  pub execute_rebalancing_operation-Executes :
      (nanos now : ℕ) (chain_id : Option ℤ) (chains : Map ℕ (Chain eth)) (r : Rebalancer eth)
      (o : RebalancingOpportunity)
      → IsMap chains
      → new_rebalancer eth cfg chains ≡ ok r
      → Executes now
          (lookup o.from_chain chains)
          (set_string o.amount)
          (execute_rebalancing_operation eth nanos now chain_id r o)
  unfolding new_rebalancer
  execute_rebalancing_operation-Executes nanos now chain_id chains r o d e =
      let (clients, made, kept) = and_then-ok (add_clients eth cfg [] chains) _ e in
      subst
        (λ x.
          Executes now (lookup o.from_chain chains) (set_string o.amount)
            (execute_rebalancing_operation eth nanos now chain_id x o))
        (ok-injective _ _ kept)
        (execute-Executes nanos now chain_id (record { chains = chains; across = clients }) o
          (λ c found. add_clients-present o.from_chain [] clients chains c d found made))
