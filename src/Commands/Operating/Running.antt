-- ===== src/Commands/Operating/Running.antt =====
-- What `runOperator` of AVS/cmd/operator/main.go starts, with which configuration, and what it has stopped
-- when it returns.
use sync_hook.Prelude.{
  ◌<◌, ◌≡◌, refl, ◌∙◌, ap, String, List, [], Option, none, some, ◌&&◌, if◌then◌else◌, All, length,
  Result-cases, ok, Option-cases, Bool-cases, ◌⊎◌, inl, inr, ℤ, pos, leb_ℤ, Run, returns, panics,
  arith,
}
use sync_hook.Floats.{Float64}
use sync_hook.Chain.{Ethereum}
use sync_hook.Operator.{Operator, Part, Event}
use sync_hook.Operator.Lifecycle.{
  parts, nested, all_start, nested-all_start, nested-some, run-nested,
}
use sync_hook.Settings.{Config}
use sync_hook.Settings.Completeness.{IsComplete, validate-IsComplete}
use sync_hook.Settings.Loading.{Viper, defaults, load}
use sync_hook.Settings.Loading.Accepting.{load-ok}
use sync_hook.Logging.{new_logger}
use sync_hook.Commands.Operating.{
  CommandError, load_failed, logger_failed, creation_failed, keys, Surroundings, Outcome,
  failure_of, after_run, make, run_operator,
}

module _ (eth : Ethereum) (env : Surroundings eth) where
  after_run-none :
      (interval : ℤ) (r : List Event × Option Part)
      → r.1 ≡ none
      → after_run eth env interval r
        ≡ (if leb_ℤ interval (pos 0) then panics else returns (r.0, none))
  after_run-none interval (events, none) h = refl
  after_run-none interval (events, some p) h = absurd (ground arith)

  after_run-some :
      (interval : ℤ) (r : List Event × Option Part) (p : Part)
      → r.1 ≡ some p
      → after_run eth env interval r ≡ returns (r.0, failure_of eth env (some p))
  after_run-some interval (events, none) p h = absurd (ground arith)
  after_run-some interval (events, some q) p h = ap (λ f. returns (events, failure_of eth env f)) h

  -- Nothing is started, and an error tells why.
  abbrev pub NotStarted : Run Outcome → Type 0
  NotStarted r = (e : CommandError) × (r ≡ returns ([], some e))

  -- How the run of an operator ends: if every part starts and the interval is not positive, in a panic that
  -- stops nothing; else with what is started stopped again.
  abbrev pub ending : ℤ → List Part → Run Outcome
  ending interval ps =
      if all_start env.starts ps && leb_ℤ interval (pos 0)
      then panics
      else returns ((nested env.starts ps).0, failure_of eth env (nested env.starts ps).1)

  after_run-nested :
      (interval : ℤ) (ps : List Part)
      → after_run eth env interval (nested env.starts ps) ≡ ending interval ps
  after_run-nested interval ps = elim (Bool-cases (all_start env.starts ps)) [
    | inl up ↦
        let e = nested-all_start env.starts ps up in
        rw (up, after_run-none interval (nested env.starts ps) e, e) refl
    | inr down ↦
        let (p, e) = nested-some env.starts ps down in
        rw (down, after_run-some interval (nested env.starts ps) p e, e) refl
  ]

  -- The operator is made of a complete configuration and run.
  abbrev pub HasRun : (fl : Float64) (v : Viper fl.Float) → String → v.Store → Run Outcome → Type 0
  HasRun fl v file s r =
      (cfg : Config fl.Float) × (o : Operator eth) × ((load v (defaults fl) file s).1 ≡ ok cfg)
      × (0 < length cfg.chains)
      × All IsComplete cfg.chains
      × (make eth env cfg ≡ ok o)
      × (r ≡ ending cfg.operator.state_update_interval (parts (keys o.chains)))

  -- `runOperator` ends in one of two ways. Either it starts nothing and returns an error; or the loaded
  -- configuration has a chain and all that every chain needs, the operator is made of it, and it starts the
  -- database, the chains of the operator and the client of EigenLayer. Then, if all of these start and the
  -- interval of the updates is not positive, it panics; else it stops what it has started in the opposite
  -- order, and the first that failed to start, if any, is the error.
  pub run_operator-Runs :
      (fl : Float64) (v : Viper fl.Float) (file : String) (s : v.Store)
      → NotStarted (run_operator eth env fl v file s)
        ⊎ HasRun fl v file s (run_operator eth env fl v file s)
  unfolding run_operator
  run_operator-Runs fl v file s = elim (Result-cases (load v (defaults fl) file s).1) [
    | inl (e, failed) ↦ inl (load_failed e, rw (run_operator, failed) refl)
    | inr (cfg, loaded) ↦ elim (Option-cases (new_logger env.parse_level env.to_lower cfg.log)) [
      | inl silent ↦ inl (logger_failed, rw (run_operator, loaded, silent) refl)
      | inr (log, made_log) ↦ elim (Result-cases (make eth env cfg)) [
        | inl (e, failed) ↦
            inl (creation_failed e, rw (run_operator, loaded, made_log, failed) refl)
        | inr (o, made) ↦
            let valid = (validate-IsComplete cfg).0 (load-ok v (defaults fl) file s cfg loaded).1 in
            inr (
              cfg,
              o,
              loaded,
              valid.0,
              valid.1,
              made,
              rw (run_operator, loaded, made_log, made)
                  (ap (after_run eth env cfg.operator.state_update_interval)
                      (run-nested env.starts (keys o.chains))
                    ∙ after_run-nested cfg.operator.state_update_interval (parts (keys o.chains))),
            )
      ]
    ]
  ]
