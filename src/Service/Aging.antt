-- ===== src/Service/Aging.antt =====
-- The pools of AVS/aggregator/aggregator.go: their aggregation beside that of
-- AVS/pkg/state/aggregator.go, and what a pass does to a pool by its age.
use mathlib.Core.Option.{some-injective}
use sync_hook.Prelude.{
  ℕ, ◌≤◌, ◌≡◌, refl, ◌∙◌, ap, [], ◌∷◌, String, Option, none, some, Bool, true, false, Map, arith,
  ◌⊎◌, inl, inr, subst, Returns-mono, Returns->>=, Bool-cases, returns, ◌>>=◌, Returns, >>=-returns,
  lookup, IsMap, string_eq,
}
use sync_hook.Floats.{Float64}
use sync_hook.Pool
use sync_hook.Pool.{PoolState, PoolError, no_chain_states, zero_weight}
use sync_hook.Aggregator
use sync_hook.Aggregator.Recalculation.{recalculate-total}
use sync_hook.Service.Pools.{
  GlobalPoolState, aggregate_chain_states, aggregate_states, is_too_old, count_update,
}

-- The state without what pkg/state does not keep.
abbrev pub plain : GlobalPoolState → Pool.GlobalPoolState
plain gs = record {
  pool_id = gs.pool_id;
  total_liquidity = gs.total_liquidity;
  average_price = gs.average_price;
  imbalance_score = gs.imbalance_score;
  last_update_block = gs.last_update_block;
  chain_states = gs.chain_states;
  last_updated = gs.last_updated;
}

-- The time that a successful aggregation writes, and a recalculation does not.
abbrev pub stamped :
    ℕ → Pool.GlobalPoolState × Option PoolError → Pool.GlobalPoolState × Option PoolError
stamped now (gs, none) = (record gs { last_updated = now }, none)
stamped now (gs, some e) = (gs, some e)

-- The two packages aggregate alike: on the same pool they return the same error, panic together, and leave
-- the same metrics; that of the aggregator package also stamps the time when it succeeds.
pub aggregate_chain_states-eq :
    (now : ℕ) (gs : GlobalPoolState)
    → (aggregate_chain_states now gs >>= λ (gs', e). returns (plain gs', e))
      ≡ (Aggregator.recalculate_global_metrics (plain gs) >>= λ r. returns (stamped now r))
unfolding aggregate_chain_states Aggregator.recalculate_global_metrics
aggregate_chain_states-eq now gs = ground arith

-- So aggregation never panics.
aggregate_chain_states-total :
    (now : ℕ) (gs : GlobalPoolState)
    → (r : GlobalPoolState × Option PoolError) × (aggregate_chain_states now gs ≡ returns r)
aggregate_chain_states-total now gs =
    let (r, calculated) = recalculate-total (plain gs) in
    let whole =
      aggregate_chain_states-eq now gs ∙ ap (λ x. x >>= λ r. returns (stamped now r)) calculated in
    let (a, done, rest) =
      >>=-returns (aggregate_chain_states now gs) (λ (gs', e). returns (plain gs', e)) whole in
    (a, done)

module _ (fl : Float64) (seconds : ℕ → fl.Float) (max_state_age now : ℕ) (stamp : String → ℕ) where
  abbrev old : GlobalPoolState → Bool
  old = is_too_old fl seconds max_state_age now

  -- What becomes of a pool: it is removed if it is too old, and else aggregated at its stamp.
  abbrev pub AgedIn : String → GlobalPoolState → Map String GlobalPoolState → Type 0
  AgedIn pool gs m' =
      ((is_too_old fl seconds max_state_age now gs ≡ true) × (lookup pool m' ≡ none))
      ⊎ ((is_too_old fl seconds max_state_age now gs ≡ false)
          × ((r : GlobalPoolState × Option PoolError) × (aggregate_chain_states (stamp pool) gs
                ≡ returns r)
              × (lookup pool m' ≡ some r.0)))

  -- The result of the loop over the pools `m`.
  abbrev pub Ages : Map String GlobalPoolState → ℕ → Map String GlobalPoolState × ℕ → Type 0
  Ages m updates (m', n) =
      (updates ≤ n)
      × ((pool : String) → lookup pool m ≡ none → lookup pool m' ≡ none)
      × ((pool : String) (gs : GlobalPoolState) → lookup pool m ≡ some gs → AgedIn pool gs m')

  aggregate_states-removed :
      (pool : String) (gs : GlobalPoolState) (m : Map String GlobalPoolState) (updates : ℕ)
      → old gs ≡ true
      → aggregate_states fl seconds max_state_age now stamp ((pool, gs) ∷ m) updates
        ≡ aggregate_states fl seconds max_state_age now stamp m updates
  unfolding aggregate_states
  aggregate_states-removed pool gs m updates h = ground arith

  aggregate_states-kept :
      (pool : String) (gs : GlobalPoolState) (m : Map String GlobalPoolState) (updates : ℕ)
      (r : GlobalPoolState × Option PoolError)
      → old gs ≡ false
      → aggregate_chain_states (stamp pool) gs ≡ returns r
      → aggregate_states fl seconds max_state_age now stamp ((pool, gs) ∷ m) updates ≡ (
          aggregate_states fl seconds max_state_age now stamp m (count_update r.1 updates)
          >>= λ (m', n). returns ((pool, r.0) ∷ m', n))
  unfolding aggregate_states
  aggregate_states-kept pool gs m updates r h done = rw (h, done)

  -- The first pool, at whatever key is asked for.
  at_head :
      (p q : String) (gs g : GlobalPoolState) (m m' : Map String GlobalPoolState)
      → lookup q ((p, gs) ∷ m) ≡ some g
      → AgedIn p gs m'
      → (lookup q m ≡ some g → (string_eq.beq p q ≡ false) → AgedIn q g m')
      → AgedIn q g m'
  at_head p q gs g m m' e head rest = elim (Bool-cases (string_eq.beq p q)) [
    | inl same ↦
        subst (λ x. AgedIn q x m') (some-injective gs g (rw same at e))
          (subst (λ y. AgedIn y gs m') ((string_eq.beq_iff p q).0 same) head)
    | inr apart ↦ rest (rw apart at e) apart
  ]

  not_at_head :
      (p q : String) (gs : GlobalPoolState) (m : Map String GlobalPoolState)
      → lookup q ((p, gs) ∷ m) ≡ none
      → (string_eq.beq p q ≡ false) × (lookup q m ≡ none)
  not_at_head p q gs m e = elim (Bool-cases (string_eq.beq p q)) [
    | inl same ↦ cc (rw same at e)
    | inr apart ↦ (apart, rw apart at e)
  ]

  removed-Ages :
      (p : String) (gs : GlobalPoolState) (m : Map String GlobalPoolState) (updates : ℕ)
      → old gs ≡ true
      → lookup p m ≡ none
      → (out : Map String GlobalPoolState × ℕ) → Ages m updates out
      → Ages ((p, gs) ∷ m) updates out
  removed-Ages p gs m updates o fresh out (grows, absent, aged) = (
    grows,
    λ q e. absent q (not_at_head p q gs m e).1,
    λ q g e. at_head p q gs g m out.0 e (inl (o, absent p fresh)) (λ found apart. aged q g found),
  )

  kept-Ages :
      (p : String) (gs : GlobalPoolState) (m : Map String GlobalPoolState) (updates : ℕ)
      (r : GlobalPoolState × Option PoolError)
      → old gs ≡ false
      → aggregate_chain_states (stamp p) gs ≡ returns r
      → (out : Map String GlobalPoolState × ℕ) → Ages m (count_update r.1 updates) out
      → Ages ((p, gs) ∷ m) updates ((p, r.0) ∷ out.0, out.1)
  kept-Ages p gs m updates r o done out (grows, absent, aged) = (
    grow r.1 grows,
    λ q e. rw (not_at_head p q gs m e).0 (absent q (not_at_head p q gs m e).1),
    λ q g e.
        at_head p q gs g m ((p, r.0) ∷ out.0) e (inr (o, (r, done, rw beq_self refl)))
          (λ found apart. rw apart (aged q g found)),
  )
    where
      grow : (e : Option PoolError) → count_update e updates ≤ out.1 → updates ≤ out.1
      grow none h = omega arith
      grow (some e) h = h

      beq_self : string_eq.beq p p ≡ true
      beq_self = (string_eq.beq_iff p p).1 refl

  aggregate_states-Ages :
      (m : Map String GlobalPoolState) (updates : ℕ)
      → IsMap m
      → Returns (aggregate_states fl seconds max_state_age now stamp m updates) (Ages m updates)
  unfolding aggregate_states
  aggregate_states-Ages [] updates h = (omega arith, λ q e. e, λ q g e. cc)
  aggregate_states-Ages ((p, gs) ∷ m) updates h = elim (Bool-cases (old gs)) [
    | inl o ↦ rw (aggregate_states-removed p gs m updates o) (
        Returns-mono (Ages m updates) (Ages ((p, gs) ∷ m) updates) _
          (removed-Ages p gs m updates o h.0) (aggregate_states-Ages m updates h.1))
    | inr o ↦
        let (r, done) = aggregate_chain_states-total (stamp p) gs in
        rw (aggregate_states-kept p gs m updates r o done) (
          Returns->>= (Ages m (count_update r.1 updates)) (Ages ((p, gs) ∷ m) updates)
            (aggregate_states fl seconds max_state_age now stamp m (count_update r.1 updates)) _
            (aggregate_states-Ages m (count_update r.1 updates) h.1)
            (λ out a. kept-Ages p gs m updates r o done out a))
  ]

  -- One pass of the loop over the pools never panics. A pool that is older than the maximal age is removed,
  -- any other is kept and aggregated, and the count of updates does not fall.
  pub aggregate_states-AgedIn :
      (m : Map String GlobalPoolState) (updates : ℕ) (pool : String) (gs : GlobalPoolState)
      → IsMap m
      → lookup pool m ≡ some gs
      → Returns
          (aggregate_states fl seconds max_state_age now stamp m updates)
          (λ (m', n). AgedIn pool gs m' × (updates ≤ n))
  aggregate_states-AgedIn m updates pool gs h found =
      Returns-mono (Ages m updates) _ _
        (λ (m', n) (grows, absent, aged). (aged pool gs found, grows))
        (aggregate_states-Ages m updates h)
