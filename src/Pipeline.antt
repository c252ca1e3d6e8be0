-- ===== src/Pipeline.antt =====
-- The packages of AVS/pkg/state together: what the validator and the predictor do with a pool that the
-- aggregator has just updated.
use sync_hook.Prelude.{
  ℕ, ◌≡◌, refl, sym, subst, ap, ◌∙◌, String, none, some, false, pos, eq_ℤ, returns, Returns,
  returns-injective, values, lookup, lookup-insert_self, string_eq, nat_eq, inl, inr, Bool-cases,
  ◌&&◌,
}
use sync_hook.Floats.{Float64}
use sync_hook.Pool.{PoolState, GlobalPoolState, zero_weight}
use sync_hook.Aggregator.{
  Aggregator, update_pool_state, get_global_pool_state, calculate_aggregated_metrics,
}
use sync_hook.Aggregator.Recalculation.{total, average, refreshed}
use sync_hook.Aggregator.Update.{IsFresh, entered, stored, update-weighted, update-weightless}
use sync_hook.Aggregator.Reports.{Reports, calculate_aggregated_metrics-Reports}
use sync_hook.Validator.{ValidationCriteria, validate_pool_state}
use sync_hook.Validator.Checks.{price_ok, liquidity_ok, age_ok, no_error, validate_pool_state_lem}
use sync_hook.Predictor.{predict_pool_state}
use sync_hook.Predictor.Prices.{IsPlausible, predict_pool_state-IsPlausible}

module _ (fl : Float64) (pool : String) (a : Aggregator) where
  -- A pool of the aggregator that every reader can use: its metrics are reported, a state is validated by
  -- the three checks against its average price, and a prediction of it is plausible. None of the readers
  -- panics.
  pub record IsUsable (gs : GlobalPoolState) : Type 0 where
    pub found : get_global_pool_state pool a ≡ some gs
    pub reports : Returns (calculate_aggregated_metrics pool a) (Reports gs)
    pub validates :
        (now₀ now₁ now₂ : ℕ) (s : PoolState) (c : ValidationCriteria)
        → let ok =
            price_ok (average (values gs.chain_states)) s c
            && liquidity_ok (lookup s.chain_id gs.chain_states) s c
            && age_ok now₁ s c in
          Returns
            (validate_pool_state fl now₀ now₁ now₂ s gs c)
            (λ (r, e). (r.is_valid ≡ ok) × (no_error e ≡ ok))
    pub predicts :
        (now₁ now₂ horizon : ℕ)
        → Returns
            (predict_pool_state fl now₁ now₂ gs horizon)
            (IsPlausible (average (values gs.chain_states)) (total (values gs.chain_states)))

  fresh-IsUsable :
      (gs : GlobalPoolState)
      → lookup pool a.pool_states ≡ some gs
      → IsFresh gs
      → eq_ℤ (total (values gs.chain_states)) (pos 0) ≡ false
      → IsUsable gs
  unfolding get_global_pool_state
  fresh-IsUsable gs here fresh weighted = record {
    found = here;
    reports = calculate_aggregated_metrics-Reports pool gs a here fresh weighted;
    validates = λ now₀ now₁ now₂ s c.
        validate_pool_state_lem fl now₀ now₁ now₂ s gs c (average (values gs.chain_states))
          fresh.average_fresh;
    predicts = λ now₁ now₂ horizon.
        predict_pool_state-IsPlausible fl now₁ now₂ horizon gs (average (values gs.chain_states))
          (total (values gs.chain_states)) fresh.average_fresh fresh.total_fresh;
  }

-- When `UpdatePoolState` returns no error, the pool that it has updated is there for every reader of the
-- packages: its aggregated metrics are returned, any state is validated against its average price by the
-- three checks, and any prediction of it is plausible; none of them panics.
pub update_pool_state-IsUsable :
    (fl : Float64) (now₁ now₂ : ℕ) (pool : String) (chain : ℕ) (s : PoolState) (a a' : Aggregator)
    → update_pool_state now₁ now₂ pool chain s a ≡ returns (a', none)
    → (gs : GlobalPoolState) × IsUsable fl pool a' gs
update_pool_state-IsUsable fl now₁ now₂ pool chain s a a' call =
    let gs = entered now₁ now₂ pool chain s a in
    elim (Bool-cases (eq_ℤ (total (values gs.chain_states)) (pos 0))) [
      | inl weightless ↦
          let ends =
            returns-injective _ _
              (sym (update-weightless now₁ now₂ pool chain s a weightless) ∙ call) in
          let failed : some zero_weight ≡ none = ap (λ r. r.1) ends in absurd (cc failed)
      | inr weighted ↦
          let ends =
            returns-injective _ _
              (sym (update-weighted now₁ now₂ pool chain s a weighted) ∙ call) in
          (
            refreshed gs,
            subst (λ b. IsUsable fl pool b (refreshed gs)) (ap (λ r. r.0) ends)
                (fresh-IsUsable fl pool (stored pool (refreshed gs) a) (refreshed gs)
                  (lookup-insert_self pool (refreshed gs) a.pool_states)
                  (record {
                    total_fresh = refl;
                    average_fresh = refl;
                    spread_fresh = refl;
                    block_fresh = refl;
                  })
                  weighted),
          )
    ]
