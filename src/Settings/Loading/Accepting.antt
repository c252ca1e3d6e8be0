-- ===== src/Settings/Loading/Accepting.antt =====
-- When `Load` of AVS/internal/config/config.go returns a configuration.
use sync_hook.Prelude.{
  ◌≡◌, refl, ap, subst, ◌∙◌, String, Option, none, some, Map, ok, err-ne-ok, and_then, ok-injective,
  Option-cases, inl, inr,
}
use sync_hook.Settings.{Config, ConfigError, validate}
use sync_hook.Settings.Loading.{
  Value, ReadError, not_found, unreadable, Viper, set_defaults, after_reading, accept, decode, load,
}

module _ {F : Type 0} (v : Viper F) where
  accept-ok :
      (cfg cfg' : Config F) (e : Option ConfigError)
      → accept v cfg e ≡ ok cfg'
      → (cfg ≡ cfg') × (e ≡ none)
  accept-ok cfg cfg' none h = (ok-injective _ _ h, refl)
  accept-ok cfg cfg' (some e) h = absurd (cc)

  decode-ok :
      (t : v.Store) (cfg : Config F)
      → decode v t ≡ ok cfg
      → (v.unmarshal t ≡ some cfg) × (validate cfg ≡ none)
  unfolding decode
  decode-ok t cfg h = elim (Option-cases (v.unmarshal t)) [
    | inl failed ↦ absurd (err-ne-ok (rw (decode, failed) at h))
    | inr (cfg', decoded) ↦
        let (same, valid) = accept-ok cfg' cfg (validate cfg') (rw (decode, decoded) at h) in
        (decoded ∙ ap (λ x. some x) same, subst (λ x. validate x ≡ none) same valid)
  ]

  read-ok :
      (e : Option ReadError) (t : v.Store) (cfg : Config F)
      → and_then (after_reading v e t) (decode v) ≡ ok cfg
      → decode v t ≡ ok cfg
  read-ok none t cfg h = h
  read-ok (some not_found) t cfg h = h
  read-ok (some unreadable) t cfg h = absurd (err-ne-ok h)

  -- A configuration that `Load` returns is what the store is decoded to, and is accepted.
  pub load-ok :
      (ds : Map String (Value F)) (file : String) (s : v.Store) (cfg : Config F)
      → (load v ds file s).1 ≡ ok cfg
      → (v.unmarshal (load v ds file s).0 ≡ some cfg) × (validate cfg ≡ none)
  unfolding load
  load-ok ds file s cfg e =
      let prepared =
        set_defaults v ds (v.automatic_env (v.set_config_type "yaml" (v.set_config_file file s))) in
      let (read, error) = v.read_in_config prepared in decode-ok read cfg (read-ok error read cfg e)
