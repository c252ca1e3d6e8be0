-- ===== src/Settings/Completeness.antt =====
-- What `validate` of AVS/internal/config/config.go accepts, and which chain its error names.
use sync_hook.Prelude.{
  ℕ, suc, ◌+◌, ◌<◌, ◌≡◌, ◌≢◌, ◌↔◌, refl, sym, ap, subst, ◌∙◌, ◌++◌, List, [], ◌∷◌, none, some, ◌==◌,
  nat_beq, string_eq, All, length, arith, Bool-cases, Option-cases, inl, inr,
}
use sync_hook.Chain.{ChainConfig}
use sync_hook.Settings.{
  Config, ConfigError, Field, rpc_url, private_key, sync_avs, pool_manager, required, check_chain,
  check_chains, is_empty, validate,
}

-- Every required field of a chain is given.
pub record IsComplete (c : ChainConfig) : Type 0 where
  pub rpc_given : c.rpc_url ≢ ""
  pub key_given : c.private_key ≢ ""
  pub avs_given : c.sync_avs ≢ ""
  pub manager_given : c.pool_manager ≢ ""

some-ne-none {ℓ} : {A : Type ℓ} {a : A} → some a ≡ none → ⊥
some-ne-none e = cc

is_empty-length {ℓ} : {A : Type ℓ} (xs : List A) → is_empty xs ≡ nat_beq (length xs) 0
is_empty-length [] = refl
is_empty-length (x ∷ xs) = ground arith

check_chain-IsComplete : (i : ℕ) (c : ChainConfig) → (check_chain i c ≡ none) ↔ IsComplete c
check_chain-IsComplete i c = ground (
  arith,
  string_eq.beq_iff c.rpc_url "",
  string_eq.beq_iff c.private_key "",
  string_eq.beq_iff c.sync_avs "",
  string_eq.beq_iff c.pool_manager "",
)

check_chains-IsComplete :
    (i : ℕ) (cs : List ChainConfig) → (check_chains i cs ≡ none) ↔ All IsComplete cs
unfolding check_chains
check_chains-IsComplete i [] = (λ e. tt, λ t. refl)
check_chains-IsComplete i (c ∷ cs) = elim (Option-cases (check_chain i c)) [
  | inl fine ↦
      let complete = (check_chain-IsComplete i c).0 fine in
      let (there, back) = check_chains-IsComplete (suc i) cs in
      rw (check_chains, fine) (λ e. (complete, there e), λ h. back h.1)
  | inr (e, bad) ↦
      rw (check_chains, bad)
        (
          λ x. absurd (some-ne-none x),
          λ h. absurd (some-ne-none (sym bad ∙ (check_chain-IsComplete i c).1 h.0)),
        )
]

-- A configuration is accepted exactly when it has a chain, every required field of every chain is given,
-- and so are the addresses of the registry coordinator and of the spoke pool.
pub validate-IsComplete :
    {F : Type 0} (cfg : Config F)
    → (validate cfg ≡ none) ↔ (
        (0 < length cfg.chains)
        × All IsComplete cfg.chains
        × (cfg.eigen_layer.registry_coordinator ≢ "")
        × (cfg.across.spoke_pool ≢ ""))
unfolding validate
validate-IsComplete cfg = elim (Option-cases (check_chains 0 cfg.chains)) [
  | inl fine ↦
      let complete = (check_chains-IsComplete 0 cfg.chains).0 fine in
      rw (validate, fine)
        (ground (
          arith,
          is_empty-length cfg.chains,
          string_eq.beq_iff cfg.eigen_layer.registry_coordinator "",
          string_eq.beq_iff cfg.across.spoke_pool "",
        ))
  | inr (e, bad) ↦
      rw (validate, bad)
        (
          λ x. absurd (ground arith),
          λ h. absurd (some-ne-none (sym bad ∙ (check_chains-IsComplete 0 cfg.chains).1 h.1)),
        )
]

-- The first chain with a missing field is the one with number `j`.
abbrev pub FirstIncomplete : ℕ → List ChainConfig → Type 0
FirstIncomplete j cs =
    (before after : List ChainConfig) × (c : ChainConfig) × (cs ≡ before ++ (c ∷ after))
    × (length before ≡ j)
    × All IsComplete before
    × ¬ IsComplete c

check_chain-required :
    (i : ℕ) (c : ChainConfig) (x : ConfigError)
    → check_chain i c ≡ some x
    → (f : Field) × (x ≡ required i f)
check_chain-required i c x e = elim (Bool-cases (c.rpc_url == "")) [
  | inl lacks ↦ (rpc_url, cc (rw lacks at e))
  | inr has_url ↦ elim (Bool-cases (c.private_key == "")) [
    | inl lacks ↦ (private_key, cc (rw (has_url, lacks) at e))
    | inr has_key ↦ elim (Bool-cases (c.sync_avs == "")) [
      | inl lacks ↦ (sync_avs, cc (rw (has_url, has_key, lacks) at e))
      | inr has_avs ↦ (pool_manager, ground (arith, rw (has_url, has_key, has_avs) at e))
    ]
  ]
]

check_chains-first :
    (i : ℕ) (cs : List ChainConfig) (e : ConfigError)
    → check_chains i cs ≡ some e
    → (k : ℕ) × (f : Field) × (e ≡ required (i + k) f) × FirstIncomplete k cs
unfolding check_chains
check_chains-first i [] e bad = absurd (some-ne-none (sym bad))
check_chains-first i (c ∷ cs) e bad = elim (Option-cases (check_chain i c)) [
  | inl fine ↦
      let (k, f, named, (before, after, d, split, long, complete, lacking)) =
        check_chains-first (suc i) cs e (rw (check_chains, fine) at bad) in
      (
        suc k,
        f,
        named ∙ ap (λ n. required n f) (omega arith),
        (
          c ∷ before,
          after,
          d,
          ap (λ l. c ∷ l) split,
          ap suc long,
          ((check_chain-IsComplete i c).0 fine, complete),
          lacking,
        ),
      )
  | inr (x, found) ↦
      let (f, named) = check_chain-required i c x found in
      let this : x ≡ e = cc (rw (check_chains, found) at bad) in
      (
        0,
        f,
        sym this ∙ (named ∙ ap (λ n. required n f) (omega arith)),
        (
          [],
          cs,
          c,
          refl,
          refl,
          tt,
          λ h. some-ne-none (sym found ∙ (check_chain-IsComplete i c).1 h),
        ),
      )
]

-- Where the error names a chain, that is the number of the first one with a missing field: the chains
-- before it have all of theirs.
pub validate-required :
    {F : Type 0} (cfg : Config F) (j : ℕ) (f : Field)
    → validate cfg ≡ some (required j f)
    → FirstIncomplete j cfg.chains
unfolding validate
validate-required cfg j f e = elim (Option-cases (check_chains 0 cfg.chains)) [
  | inl fine ↦ absurd (ground (arith, rw (validate, fine) at e))
  | inr (x, bad) ↦
      let (k, f', named, first) = check_chains-first 0 cfg.chains x bad in
      let k-eq : k ≡ j = ground (arith, rw (validate, bad) at e) in
      subst (λ n. FirstIncomplete n cfg.chains) k-eq first
]
