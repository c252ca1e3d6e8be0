-- ===== src/Aggregator/Unordered.antt =====
-- The aggregator of AVS/pkg/state/aggregator.go up to the order of its maps: Go leaves open in which
-- order a `range` loop meets the chain states of a pool.
use mathlib.Core.List.{Permᴰ}
use mathlib.Core.List.Permᴰ
use sync_hook.Prelude.{
  ℕ, ◌≡◌, refl, ◌∙◌, ap, inl, inr, String, Option, none, some, ℤ, pos, eq_ℤ, returns, values,
  lookup, insert, IsMap, nat_eq, string_eq, Bool-cases, lookup-insert, insert-permᴰ,
}
use sync_hook.Numeric.Order.{values-permᴰ}
use sync_hook.Pool.{PoolState, GlobalPoolState, PoolError}
use sync_hook.Aggregator.{Aggregator, new_global_state, get_or_new, enter_report, update_pool_state}
use sync_hook.Aggregator.Recalculation.{total, refreshed}
use sync_hook.Aggregator.Ranging.{reordered, refreshed-reordered, total-permᴰ}
use sync_hook.Aggregator.Update.{
  AllSettled, stored, entered, update-weighted, update-weightless, update-AllSettled,
}

-- Two pools that differ in the order of their chain states only.
pub record SamePool (gs hs : GlobalPoolState) : Type 0 where
  pub chains : Permᴰ gs.chain_states hs.chain_states
  pub metrics : hs ≡ reordered hs.chain_states gs

abbrev pub SameFound : Option GlobalPoolState → Option GlobalPoolState → Type 0
SameFound none none = Unit
SameFound (some gs) (some hs) = SamePool gs hs
SameFound _ _ = ⊥

-- The same pools under the same names.
abbrev pub Same : Aggregator → Aggregator → Type 0
Same a b = (pool : String) → SameFound (lookup pool a.pool_states) (lookup pool b.pool_states)

get_or_new-Same :
    (pool : String) (x y : Option GlobalPoolState)
    → SameFound x y
    → SamePool (get_or_new pool x) (get_or_new pool y)
get_or_new-Same pool none none h = record { chains = Permᴰ.refl _; metrics = refl }
get_or_new-Same pool none (some hs) h = absurd h
get_or_new-Same pool (some gs) none h = absurd h
get_or_new-Same pool (some gs) (some hs) h = h

get_or_new-IsMap :
    (pool : String) (x : Option GlobalPoolState)
    → ((gs : GlobalPoolState) → x ≡ some gs → IsMap gs.chain_states)
    → IsMap (get_or_new pool x).chain_states
unfolding new_global_state
get_or_new-IsMap pool none h = tt
get_or_new-IsMap pool (some gs) h = h gs refl

enter_report-Same :
    (now₁ now₂ chain : ℕ) (s : PoolState) (gs hs : GlobalPoolState)
    → IsMap gs.chain_states
    → SamePool gs hs
    → SamePool (enter_report now₁ now₂ chain s gs) (enter_report now₁ now₂ chain s hs)
unfolding enter_report
enter_report-Same now₁ now₂ chain s gs hs h same =
    let report = record s { last_updated = now₁ } in
    record {
      chains = insert-permᴰ chain report same.chains h;
      metrics =
          ap
            (λ (g : GlobalPoolState). record g {
              chain_states = insert chain report hs.chain_states;
              last_updated = now₂;
            })
            same.metrics;
    }

stored-Same :
    (pool : String) (gs hs : GlobalPoolState) (a b : Aggregator)
    → SamePool gs hs
    → Same a b
    → Same (stored pool gs a) (stored pool hs b)
stored-Same pool gs hs a b h same other = elim (Bool-cases (string_eq.beq pool other)) [
  | inl here ↦
      rw
        (lookup-insert pool other gs a.pool_states, lookup-insert pool other hs b.pool_states, here)
        h
  | inr apart ↦
      rw
        (
          lookup-insert pool other gs a.pool_states,
          lookup-insert pool other hs b.pool_states,
          apart,
        )
        (same other)
]

refreshed-Same : (gs hs : GlobalPoolState) → SamePool gs hs → SamePool (refreshed gs) (refreshed hs)
refreshed-Same gs hs h = record {
  chains = h.chains;
  metrics = ap refreshed h.metrics ∙ refreshed-reordered gs hs.chain_states h.chains;
}

weightless-Same :
    (gs hs : GlobalPoolState) (t : Option ℤ)
    → SamePool gs hs
    → SamePool (record gs { total_liquidity = t }) (record hs { total_liquidity = t })
weightless-Same gs hs t h = record {
  chains = h.chains;
  metrics = ap (λ (g : GlobalPoolState). record g { total_liquidity = t }) h.metrics;
}

module _ (now₁ now₂ : ℕ) (pool : String) (chain : ℕ) (s : PoolState) (a b : Aggregator)
    (settled : AllSettled a) (same : Same a b) where
  entered-Same : SamePool (entered now₁ now₂ pool chain s a) (entered now₁ now₂ pool chain s b)
  entered-Same =
      enter_report-Same now₁ now₂ chain s _ _
        (get_or_new-IsMap pool (lookup pool a.pool_states)
          (λ gs found. (settled pool gs found).chains_differ))
        (get_or_new-Same pool _ _ (same pool))

  entered-total :
      total (values (entered now₁ now₂ pool chain s a).chain_states)
      ≡ total (values (entered now₁ now₂ pool chain s b).chain_states)
  entered-total = total-permᴰ (values-permᴰ entered-Same.chains)

  -- Both calls return, with the same error, and leave the same pools.
  pub update_pool_state-Same :
      (a' : Aggregator) × (b' : Aggregator) × (e : Option PoolError) × (update_pool_state now₁ now₂
          pool chain s a
        ≡ returns (a', e))
      × (update_pool_state now₁ now₂ pool chain s b ≡ returns (b', e))
      × AllSettled a'
      × Same a' b'
  update_pool_state-Same =
      elim (Bool-cases
        (eq_ℤ (total (values (entered now₁ now₂ pool chain s a).chain_states)) (pos 0))) [
          | inl weightless ↦
              let left = update-weightless now₁ now₂ pool chain s a weightless in
              let right =
                update-weightless now₁ now₂ pool chain s b (rw (← entered-total) weightless) in
              (
                _,
                _,
                _,
                left,
                right,
                update-AllSettled now₁ now₂ pool chain s a _ _ settled left,
                stored-Same pool _ _ a b (weightless-Same _ _ (some (pos 0)) entered-Same) same,
              )
          | inr weighted ↦
              let left = update-weighted now₁ now₂ pool chain s a weighted in
              let right =
                update-weighted now₁ now₂ pool chain s b (rw (← entered-total) weighted) in
              (
                _,
                _,
                _,
                left,
                right,
                update-AllSettled now₁ now₂ pool chain s a _ _ settled left,
                stored-Same pool _ _ a b (refreshed-Same _ _ entered-Same) same,
              )
        ]
