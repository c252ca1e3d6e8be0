-- ===== src/Settings/Layers.antt =====
-- Which values a configuration that `Load` of AVS/internal/config/config.go returns has where neither the
-- file nor the environment gives one, over viper as it is documented.
use sync_hook.Prelude.{
  Bool, true, false, ◌||◌, ◌≡◌, refl, ap, ◌∙◌, String, List, [], ◌∷◌, Option, none, some,
  if◌then◌else◌, ◌==◌, string_eq, Map, lookup, IsMap, All, ok, arith,
}
use sync_hook.Floats.{Float64}
use sync_hook.Settings.{Config, validate}
use sync_hook.Settings.Loading.Accepting.{load-ok}
use sync_hook.Settings.Loading.{Value, text, number, decimal, Viper, defaults, set_defaults, load}

abbrev pub or_else {ℓ} : {A : Type ℓ} → Option A → Option A → Option A
or_else none o = o
or_else (some a) o = some a

-- The fields with a default whose type `Unmarshal` does not convert, under their keys.
abbrev pub keyed : {F : Type 0} → Config F → List (String × Value F)
keyed cfg =
    ("server.host", text cfg.server.host)
    ∷ ("server.port", number cfg.server.port)
    ∷ ("database.host", text cfg.database.host)
    ∷ ("database.port", number cfg.database.port)
    ∷ ("database.user", text cfg.database.user)
    ∷ ("database.dbname", text cfg.database.db_name)
    ∷ ("database.sslmode", text cfg.database.ssl_mode)
    ∷ ("log.level", text cfg.log.level)
    ∷ ("log.format", text cfg.log.format)
    ∷ ("log.output", text cfg.log.output)
    ∷ ("operator.rebalance_threshold", decimal cfg.operator.rebalance_threshold)
    ∷ ("operator.max_rebalance_amount", text cfg.operator.max_rebalance_amount)
    ∷ ("operator.min_rebalance_amount", text cfg.operator.min_rebalance_amount)
    ∷ []

abbrev pub SameKind : {F : Type 0} → Value F → Value F → Type 0
SameKind (text a) (text b) = Unit
SameKind (text a) (number b) = ⊥
SameKind (text a) (decimal b) = ⊥
SameKind (number a) (text b) = ⊥
SameKind (number a) (number b) = Unit
SameKind (number a) (decimal b) = ⊥
SameKind (decimal a) (text b) = ⊥
SameKind (decimal a) (number b) = ⊥
SameKind (decimal a) (decimal b) = Unit

-- The keys of `defaults`. None is a part of the path of another.
abbrev pub default_keys : List String
default_keys =
    "server.host" ∷ "server.port" ∷ "database.host" ∷ "database.port" ∷ "database.user"
    ∷ "database.dbname" ∷ "database.sslmode" ∷ "log.level" ∷ "log.format" ∷ "log.output"
    ∷ "operator.state_update_interval" ∷ "operator.rebalance_threshold"
    ∷ "operator.max_rebalance_amount" ∷ "operator.min_rebalance_amount"
    ∷ "operator.rebalance_cooldown" ∷ []

abbrev pub is_listed : String → List String → Bool
is_listed k [] = false
is_listed k (j ∷ js) = j == k || is_listed k js

-- What is documented of viper, for these keys: a value that the file or the environment gives comes before
-- the default; `SetDefault` sets the default of its key, and reading the file sets none; and `Unmarshal`
-- stores a value of the type of a field in it as it is.
pub record IsLayered {F : Type 0} (v : Viper F) : Type 0 where
  pub given : v.Store → String → Option (Value F)
  pub default : v.Store → String → Option (Value F)
  pub default-set_default :
      (key : String) (value : Value F) (s : v.Store) (k : String)
      → is_listed key default_keys ≡ true
      → is_listed k default_keys ≡ true
      → default (v.set_default key value s) k ≡ (if key == k then some value else default s k)
  pub default-read_in_config :
      (s : v.Store) (k : String) → default (v.read_in_config s).0 k ≡ default s k
  pub unmarshal-keyed :
      (s : v.Store) (cfg : Config F)
      → v.unmarshal s ≡ some cfg
      → All
          (λ (entry : String × Value F).
            (value : Value F)
            → or_else (given s entry.0) (default s entry.0) ≡ some value
            → SameKind value entry.1
            → value ≡ entry.1)
          (keyed cfg)

module _ {F : Type 0} (v : Viper F) (layered : IsLayered v) where
  open layered use {given, default, default-set_default, default-read_in_config, unmarshal-keyed}

  -- Where the keys differ, each keeps the value that it was given.
  default-set_defaults :
      (ds : Map String (Value F)) (s : v.Store) (k : String)
      → IsMap ds
      → All (λ (entry : String × Value F). is_listed entry.0 default_keys ≡ true) ds
      → is_listed k default_keys ≡ true
      → default (set_defaults v ds s) k ≡ or_else (lookup k ds) (default s k)
  unfolding set_defaults
  default-set_defaults [] s k d l h = refl
  default-set_defaults ((key, value) ∷ ds) s k d l h = ground (
    arith,
    default-set_defaults ds (v.set_default key value s) k d.1 l.1 h,
    default-set_default key value s k l.0 h,
    string_eq.beq_iff key k,
  )

module _ (fl : Float64) (v : Viper fl.Float) (layered : IsLayered v) where
  open layered use {given, default, default-set_default, default-read_in_config, unmarshal-keyed}

  defaults-IsMap : IsMap (defaults fl)
  defaults-IsMap = ground arith

  defaults-listed :
      All (λ (entry : String × Value fl.Float). is_listed entry.0 default_keys ≡ true) (defaults fl)
  defaults-listed = ground arith

  -- What the store holds for a key with a default, before `Unmarshal`.
  default-load :
      (file : String) (s : v.Store) (key : String) (d : Value fl.Float)
      → lookup key (defaults fl) ≡ some d
      → is_listed key default_keys ≡ true
      → default (load v (defaults fl) file s).0 key ≡ some d
  unfolding load
  default-load file s key d e listed =
      default-read_in_config _ key
      ∙ default-set_defaults v layered (defaults fl) _ key defaults-IsMap defaults-listed listed
      ∙ rw e refl

  -- A field with a default of its kind.
  keyed_entry :
      (t : v.Store) (key : String) (d w : Value fl.Float)
      → lookup key (defaults fl) ≡ some d
      → default t key ≡ some d
      → SameKind d w
      → ((value : Value fl.Float)
          → or_else (given t key) (default t key) ≡ some value
          → SameKind value w
          → value ≡ w)
      → given t key ≡ none
      → lookup key (defaults fl) ≡ some w
  keyed_entry t key d w e stored same decoded absent =
      e ∙ ap (λ x. some x) (decoded d (rw absent stored) same)

  -- A configuration that `Load` returns is one that `validate` accepts, and for each of its fields with a
  -- default, of a type that is not converted: where neither the file nor the environment gives a value,
  -- it has the default.
  pub load-keyed :
      (file : String) (s : v.Store) (cfg : Config fl.Float)
      → (load v (defaults fl) file s).1 ≡ ok cfg
      → (validate cfg ≡ none)
        × All
            (λ (entry : String × Value fl.Float).
              given (load v (defaults fl) file s).0 entry.0 ≡ none
              → lookup entry.0 (defaults fl) ≡ some entry.1)
            (keyed cfg)
  unfolding load
  load-keyed file s cfg e =
      let (decoded, valid) = load-ok v (defaults fl) file s cfg e in
      let t = (load v (defaults fl) file s).0 in
      let q = unmarshal-keyed t cfg decoded in
      let at =
        λ (key : String) (d w : Value fl.Float) (l : lookup key (defaults fl) ≡ some d)
            (listed : is_listed key default_keys ≡ true).
          keyed_entry t key d w l (default-load file s key d l listed) in
      (
        valid,
        (
          at "server.host" _ _ refl refl tt q.0,
          (
            at "server.port" _ _ refl refl tt q.1.0,
            (
              at "database.host" _ _ refl refl tt q.1.1.0,
              (
                at "database.port" _ _ refl refl tt q.1.1.1.0,
                (
                  at "database.user" _ _ refl refl tt q.1.1.1.1.0,
                  (
                    at "database.dbname" _ _ refl refl tt q.1.1.1.1.1.0,
                    (
                      at "database.sslmode" _ _ refl refl tt q.1.1.1.1.1.1.0,
                      (
                        at "log.level" _ _ refl refl tt q.1.1.1.1.1.1.1.0,
                        (
                          at "log.format" _ _ refl refl tt q.1.1.1.1.1.1.1.1.0,
                          (
                            at "log.output" _ _ refl refl tt q.1.1.1.1.1.1.1.1.1.0,
                            (
                              at "operator.rebalance_threshold" _ _ refl refl tt
                                  q.1.1.1.1.1.1.1.1.1.1.0,
                              (
                                at "operator.max_rebalance_amount" _ _ refl refl tt
                                    q.1.1.1.1.1.1.1.1.1.1.1.0,
                                (
                                  at "operator.min_rebalance_amount" _ _ refl refl tt
                                      q.1.1.1.1.1.1.1.1.1.1.1.1.0,
                                  tt,
                                ),
                              ),
                            ),
                          ),
                        ),
                      ),
                    ),
                  ),
                ),
              ),
            ),
          ),
        ),
      )
