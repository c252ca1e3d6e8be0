-- ===== src/Aggregator/Update.antt =====
-- `UpdatePoolState` of AVS/pkg/state/aggregator.go: what one call does, and what holds of every pool
-- after any calls.
use mathlib.Core.Option.{some-injective}
use sync_hook.Prelude.{
  ℕ, ◌≡◌, ◌≢◌, refl, sym, subst, returns-injective, lookup-insert, ◌∙◌, inl, inr, String, [], ◌∷◌,
  Option, none, some, true, false, if◌then◌else◌, ℤ, pos, eq_ℤ, returns, Returns, arith, Map,
  values, lookup, insert, IsMap, lookup-insert_self, insert-IsMap, nat_eq, string_eq, Bool-cases,
  Option-cases,
}
use sync_hook.Pool.{
  PoolState, GlobalPoolState, PoolError, zero_weight, no_chain_states, pool_not_found,
}
use sync_hook.Aggregator.{
  Aggregator, latest_block, new_global_state, get_or_new, enter_report, update_pool_state,
  new_aggregator,
}
use sync_hook.Aggregator.Recalculation.{
  total, average, spread, refreshed, recalculate-weighted, recalculate-weightless,
}

-- Every metric is the one of the chain states that the pool holds.
pub record IsFresh (gs : GlobalPoolState) : Type 0 where
  pub total_fresh : gs.total_liquidity ≡ some (total (values gs.chain_states))
  pub average_fresh : gs.average_price ≡ some (average (values gs.chain_states))
  pub spread_fresh :
      gs.imbalance_score ≡ some (spread (values gs.chain_states) (average (values gs.chain_states)))
  pub block_fresh : gs.last_update_block ≡ latest_block 0 (values gs.chain_states)

-- What the pool is after a call, by the error that the call returns.
abbrev pub Accounts : Option PoolError → GlobalPoolState → Type 0
Accounts none gs = IsFresh gs
Accounts (some zero_weight) gs =
    (total (values gs.chain_states) ≡ pos 0) × (gs.total_liquidity ≡ some (pos 0))
Accounts (some no_chain_states) gs = ⊥
Accounts (some pool_not_found) gs = ⊥

pub values-insert-ne-nil {ℓ} :
    {V : Type ℓ} (k : ℕ) (v : V) (m : Map ℕ V) → values (insert k v m) ≢ []
values-insert-ne-nil k v [] e = cc
values-insert-ne-nil k v ((j, w) ∷ m) e = ground arith

zero_of_test : (a : ℤ) → eq_ℤ a (pos 0) ≡ true → a ≡ pos 0
zero_of_test a h = ground arith

-- The aggregator with a pool written.
abbrev pub stored : String → GlobalPoolState → Aggregator → Aggregator
stored pool gs a = record { pool_states = insert pool gs a.pool_states }

module _ (now₁ now₂ : ℕ) (pool : String) (chain : ℕ) (s : PoolState) (a : Aggregator) where
  -- The pool with the report entered.
  abbrev pub entered : GlobalPoolState
  entered = enter_report now₁ now₂ chain s (get_or_new pool (lookup pool a.pool_states))

  entered_some : values entered.chain_states ≢ []
  unfolding enter_report
  entered_some = values-insert-ne-nil chain _ _

  lookup-entered : lookup chain entered.chain_states ≡ some (record s { last_updated = now₁ })
  unfolding enter_report
  lookup-entered = lookup-insert_self chain _ _

  pub update-weighted :
      eq_ℤ (total (values entered.chain_states)) (pos 0) ≡ false
      → update_pool_state now₁ now₂ pool chain s a
        ≡ returns (stored pool (refreshed entered) a, none)
  unfolding update_pool_state
  update-weighted h = rw (recalculate-weighted entered entered_some h)

  pub update-weightless :
      eq_ℤ (total (values entered.chain_states)) (pos 0) ≡ true
      → update_pool_state now₁ now₂ pool chain s a
        ≡ returns
            (stored pool (record entered { total_liquidity = some (pos 0) }) a, some zero_weight)
  unfolding update_pool_state
  update-weightless h = rw (
    recalculate-weightless entered entered_some h,
    zero_of_test (total (values entered.chain_states)) h,
  )

  -- What a call leaves: the report under its chain, metrics that account for it, and the other pools.
  abbrev pub Stores : Aggregator × Option PoolError → Type 0
  Stores (a', e) =
      (gs : GlobalPoolState) × ((other : String)
        → lookup other a'.pool_states
          ≡ (if string_eq.beq pool other then some gs else lookup other a.pool_states))
      × (lookup chain gs.chain_states ≡ some (record s { last_updated = now₁ }))
      × Accounts e gs

  -- A call never panics. It stores the report under its chain, leaves the other pools alone, and either
  -- returns no error and every metric of the pool is that of its chains, or returns the zero-weight
  -- error, when the liquidity of the chains adds up to zero, and the stored total is zero.
  pub update_pool_state-Stores : Returns (update_pool_state now₁ now₂ pool chain s a) Stores
  update_pool_state-Stores =
      elim (Bool-cases (eq_ℤ (total (values entered.chain_states)) (pos 0))) [
        | inl weightless ↦ rw (update-weightless weightless) (
          record entered { total_liquidity = some (pos 0) },
          λ other. lookup-insert pool other _ a.pool_states,
          lookup-entered,
          (zero_of_test _ weightless, refl),
        )
        | inr weighted ↦ rw (update-weighted weighted) (
          refreshed entered,
          λ other. lookup-insert pool other _ a.pool_states,
          lookup-entered,
          record {
            total_fresh = refl;
            average_fresh = refl;
            spread_fresh = refl;
            block_fresh = refl;
          },
        )
      ]

-- The aggregators that calls of `UpdatePoolState` lead to.
pub data Reachable : Aggregator → Type 0 where
  fresh : Reachable new_aggregator
  updated :
      {a a' : Aggregator} (now₁ now₂ : ℕ) (pool : String) (chain : ℕ) (s : PoolState)
      (e : Option PoolError)
      → Reachable a
      → update_pool_state now₁ now₂ pool chain s a ≡ returns (a', e)
      → Reachable a'

-- What holds of a pool at any time.
pub record IsSettled (gs : GlobalPoolState) : Type 0 where
  pub reported : values gs.chain_states ≢ []
  pub chains_differ : IsMap gs.chain_states
  pub total_exact : gs.total_liquidity ≡ some (total (values gs.chain_states))

abbrev pub AllSettled : Aggregator → Type 0
AllSettled a =
    (pool : String) (gs : GlobalPoolState) → lookup pool a.pool_states ≡ some gs → IsSettled gs

entered-IsMap :
    (now₁ now₂ : ℕ) (pool : String) (chain : ℕ) (s : PoolState) (a : Aggregator)
    → AllSettled a
    → IsMap (entered now₁ now₂ pool chain s a).chain_states
unfolding enter_report new_global_state
entered-IsMap now₁ now₂ pool chain s a h = elim (Option-cases (lookup pool a.pool_states)) [
  | inl missing ↦ rw missing (insert-IsMap chain (record s { last_updated = now₁ }) [] tt)
  | inr (gs, found) ↦
      rw found (insert-IsMap chain _ gs.chain_states (h pool gs found).chains_differ)
]

stored-AllSettled :
    (pool : String) (gs : GlobalPoolState) (a : Aggregator)
    → AllSettled a
    → IsSettled gs
    → AllSettled (stored pool gs a)
stored-AllSettled pool gs a h settled other gs' found =
    elim (Bool-cases (string_eq.beq pool other)) [
      | inl same ↦
          subst IsSettled
            (some-injective gs gs' (rw (lookup-insert pool other gs a.pool_states, same) at found))
            settled
      | inr apart ↦ h other gs' (rw (lookup-insert pool other gs a.pool_states, apart) at found)
    ]

pub update-AllSettled :
    (now₁ now₂ : ℕ) (pool : String) (chain : ℕ) (s : PoolState) (a a' : Aggregator)
    (e : Option PoolError)
    → AllSettled a
    → update_pool_state now₁ now₂ pool chain s a ≡ returns (a', e)
    → AllSettled a'
update-AllSettled now₁ now₂ pool chain s a a' e h call =
    let gs = entered now₁ now₂ pool chain s a in
    let some_chain = entered_some now₁ now₂ pool chain s a in
    let chains_map = entered-IsMap now₁ now₂ pool chain s a h in
    elim (Bool-cases (eq_ℤ (total (values gs.chain_states)) (pos 0))) [
      | inl weightless ↦
          let stores = sym (update-weightless now₁ now₂ pool chain s a weightless) ∙ call in
          subst (λ r. AllSettled r.0) (returns-injective _ (a', e) stores)
            (stored-AllSettled pool (record gs { total_liquidity = some (pos 0) }) a h
              (record {
                reported = some_chain;
                chains_differ = chains_map;
                total_exact = rw (zero_of_test (total (values gs.chain_states)) weightless);
              }))
      | inr weighted ↦
          let stores = sym (update-weighted now₁ now₂ pool chain s a weighted) ∙ call in
          subst (λ r. AllSettled r.0) (returns-injective _ (a', e) stores)
            (stored-AllSettled pool (refreshed gs) a h
              (record { reported = some_chain; chains_differ = chains_map; total_exact = refl }))
    ]

pub Reachable-AllSettled : {a : Aggregator} → Reachable a → AllSettled a
unfolding new_aggregator
Reachable-AllSettled fresh = λ pool gs found. cc
Reachable-AllSettled (updated now₁ now₂ pool chain s e r call) =
    update-AllSettled now₁ now₂ pool chain s _ _ e (Reachable-AllSettled r) call

-- After any calls of `UpdatePoolState`, whether they succeeded or not, every pool holds the report of
-- one chain at least, no chain twice, and its total liquidity is the sum over its chains.
pub Reachable-IsSettled :
    {a : Aggregator} (pool : String) (gs : GlobalPoolState)
    → Reachable a
    → lookup pool a.pool_states ≡ some gs
    → IsSettled gs
Reachable-IsSettled pool gs r found = Reachable-AllSettled r pool gs found
