-- ===== src/Validator/Checks.antt =====
-- `ValidatePoolState` of AVS/pkg/state/validator.go: the three checks as one test
-- of the state, and the age of a state that is stamped after the clock.
use sync_hook.Prelude.{
  ℕ, ◌+◌, ◌-◌, ◌%◌, ◌<◌, ◌≡◌, inl, inr, Option, none, some, Bool, true, false, ℤ, pos, ◌-ℤ◌, abs,
  leb_ℤ, leb, ◌&&◌, ◌||◌, eq_ℤ, Returns, arith, lookup, nat_eq, Option-cases,
}
use sync_hook.Words.{sub64, u64_mod}
use sync_hook.Floats.{Float64}
use sync_hook.Pool.{PoolState, GlobalPoolState}
use sync_hook.Validator.{
  ValidationCriteria, ValidationResult, CheckError, validate_pool_state, timestamp_too_old,
  timestamp_check_failed, validate_timestamp,
}

-- The price is close to the average, where there is one.
abbrev pub price_ok : ℤ → PoolState → ValidationCriteria → Bool
price_ok mean s c = eq_ℤ mean (pos 0) || leb_ℤ (abs (s.price -ℤ mean)) c.max_price_deviation

-- The liquidity is close to what the chain last reported, where it has reported.
abbrev pub liquidity_ok : Option PoolState → PoolState → ValidationCriteria → Bool
liquidity_ok none s c = true
liquidity_ok (some prev) s c =
    leb_ℤ (abs (s.total_liquidity -ℤ prev.total_liquidity)) c.max_liquidity_change

-- The state's age in `uint64` is within the gap.
abbrev pub age_ok : ℕ → PoolState → ValidationCriteria → Bool
age_ok now s c = leb (sub64 now s.timestamp) c.max_time_gap

abbrev pub no_error : Option CheckError → Bool
no_error none = true
no_error (some e) = false

-- With an average price at hand the call returns. It marks the state valid exactly when the price, the
-- liquidity and the age are all within the criteria, and it returns an error exactly when they are not.
pub validate_pool_state_lem :
    (fl : Float64) (now₀ now₁ now₂ : ℕ) (s : PoolState) (gs : GlobalPoolState)
    (c : ValidationCriteria) (mean : ℤ)
    → gs.average_price ≡ some mean
    → let ok =
        price_ok mean s c
        && liquidity_ok (lookup s.chain_id gs.chain_states) s c
        && age_ok now₁ s c in
      Returns
        (validate_pool_state fl now₀ now₁ now₂ s gs c)
        (λ (r, e). (r.is_valid ≡ ok) × (no_error e ≡ ok))
unfolding validate_pool_state
validate_pool_state_lem fl now₀ now₁ now₂ s gs c mean known =
    elim (Option-cases (lookup s.chain_id gs.chain_states)) [
      | inl first ↦ ground arith
      | inr (prev, found) ↦ ground arith
    ]

-- A state stamped after the validator's clock is refused as too old, unless the gap allows almost every
-- `uint64`: its age wraps around to a number near 2 ^ 64, which the message reports.
pub validate_timestamp-future :
    {F : Type 0} (now ahead : ℕ) (s : PoolState) (c : ValidationCriteria) (r : ValidationResult F)
    → s.timestamp ≡ now + ahead
    → s.timestamp < u64_mod
    → 0 < ahead
    → c.max_time_gap + ahead < u64_mod
    → validate_timestamp now s c r ≡ (
      record r { is_valid = false; reason = timestamp_too_old (u64_mod - ahead) c.max_time_gap },
      some timestamp_check_failed,
    )
unfolding validate_timestamp sub64
validate_timestamp-future now ahead s c r stamp fits later gap =
    let age : (now + u64_mod - s.timestamp) % u64_mod ≡ u64_mod - ahead = omega arith in
    rw (validate_timestamp, age) (ground arith)
