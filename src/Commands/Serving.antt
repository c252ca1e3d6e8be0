-- ===== src/Commands/Serving.antt =====
-- `main` of AVS/cmd/aggregator/main.go: from the file of the configuration to the service with the loops
-- that it begins. It ends at the signal, which cancels the context of the loops.
use sync_hook.Prelude.{
  ◌≡◌, refl, arith, List, none, some, if◌then◌else◌, ℤ, Run, returns, panics, ◌>>=◌, Result, ok,
  err,
}
use sync_hook.Floats.{Float64}
use sync_hook.Defaults.Loading.{
  FileAt, missing, locked, opened, LoadError, open_failed, decode_failed,
}
use sync_hook.Service.Loops.{Config, SyncHookAggregator, new_sync_hook_aggregator}
use sync_hook.Service.Starting.{Loop, IsBrief, start, start_lem, lacks_interval, planned}
use sync_hook.Commands.Aggregating.{default_config, load_config}

abbrev pub Served : Type 0 → Type 0
Served F = Result LoadError (SyncHookAggregator F × List (Loop × ℤ))

-- The command once the configuration is loaded; the error is the one that `Fatal` ends it with.
abbrev serve_loaded : {F : Type 0} → Result LoadError (Config F) → Run (Served F)
serve_loaded (err e) = returns (err e)
serve_loaded (ok cfg) = do loops ← start cfg; returns (ok (new_sync_hook_aggregator cfg, loops))

unfoldable pub serve : (fl : Float64) → FileAt (Config fl.Float) → Run (Served fl.Float)
serve fl file = serve_loaded (load_config fl file)

module _ (fl : Float64) where
  -- The configuration in a file is one with brief intervals.
  abbrev pub IsBriefFile : FileAt (Config fl.Float) → Type 0
  IsBriefFile (opened (some cfg)) = IsBrief cfg
  IsBriefFile file = Unit

  -- What the command does with each file.
  abbrev pub Serves : FileAt (Config fl.Float) → Run (Served fl.Float) → Type 0
  Serves missing r =
      r ≡ returns (ok (new_sync_hook_aggregator (default_config fl), planned (default_config fl)))
  Serves locked r = r ≡ returns (err open_failed)
  Serves (opened none) r = r ≡ returns (err decode_failed)
  Serves (opened (some cfg)) r = r ≡ (
      if lacks_interval cfg
      then panics
      else returns (ok (new_sync_hook_aggregator cfg, planned cfg)))

  serve_loaded_lem :
      (cfg : Config fl.Float)
      → IsBrief cfg
      → serve_loaded (ok cfg) ≡ (
          if lacks_interval cfg
          then panics
          else returns (ok (new_sync_hook_aggregator cfg, planned cfg)))
  serve_loaded_lem cfg h = rw (start_lem cfg h) (ground arith)

  -- Without a file the command serves its defaults, with all four loops. A file that cannot be opened or
  -- decoded is an error that ends it. Of a file with intervals of 63 bits it begins the loops that the
  -- file asks for, each at its interval, unless one of them has no interval: then it panics.
  pub serve-Serves :
      (file : FileAt (Config fl.Float)) → IsBriefFile file → Serves file (serve fl file)
  unfolding serve load_config
  serve-Serves missing h =
      serve_loaded_lem (default_config fl)
        (record { task_brief = omega arith; state_brief = omega arith; health_brief = omega arith })
  serve-Serves locked h = refl
  serve-Serves (opened none) h = refl
  serve-Serves (opened (some cfg)) h = serve_loaded_lem cfg h
