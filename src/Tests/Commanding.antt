-- ===== src/Tests/Commanding.antt =====
-- AVS/cmd and AVS/internal/config, run over a small viper: what the file gives and the defaults, each as a
-- map.
use sync_hook.Prelude.{
  ℕ, ◌≡◌, refl, ap, subst, sym, String, [], ◌∷◌, Option, none, some, true, string_eq, ℤ, pos, Map,
  lookup, insert, lookup-insert, All, ok, ◌⊎◌, arith,
}
use sync_hook.Tests.Samples.{decimals}
use sync_hook.Tests.Operating.{net, chain_config, settings}
use sync_hook.Operator.{always_starts}
use sync_hook.Settings.{Config, validate}
use sync_hook.Settings.Loading.{Value, text, number, decimal, Viper, defaults, load}
use sync_hook.Settings.Layers.{or_else, keyed, SameKind, IsLayered, load-keyed}
use sync_hook.Commands.Operating.{Surroundings, run_operator}
use sync_hook.Commands.Operating.Running.{NotStarted, HasRun, run_operator-Runs}

record Layers : Type 0 where
  given_values : Map String (Value ℤ)
  default_values : Map String (Value ℤ)

abbrev value_of : Layers → String → Option (Value ℤ)
value_of s k = or_else (lookup k s.given_values) (lookup k s.default_values)

abbrev text_of : Option (Value ℤ) → String
text_of (some (text t)) = t
text_of (some (number n)) = ""
text_of (some (decimal d)) = ""
text_of none = ""

abbrev number_of : Option (Value ℤ) → ℕ
number_of (some (text t)) = 0
number_of (some (number n)) = n
number_of (some (decimal d)) = 0
number_of none = 0

abbrev decimal_of : Option (Value ℤ) → ℤ
decimal_of (some (text t)) = pos 0
decimal_of (some (number n)) = pos 0
decimal_of (some (decimal d)) = d
decimal_of none = pos 0

abbrev decoded : Layers → Config ℤ
decoded s = record (settings (chain_config 1 "avs" ∷ [])) {
  server = record {
    host = text_of (value_of s "server.host");
    port = number_of (value_of s "server.port");
  };
  database = record {
    host = text_of (value_of s "database.host");
    port = number_of (value_of s "database.port");
    user = text_of (value_of s "database.user");
    password = "";
    db_name = text_of (value_of s "database.dbname");
    ssl_mode = text_of (value_of s "database.sslmode");
  };
  log = record {
    level = text_of (value_of s "log.level");
    format = text_of (value_of s "log.format");
    output = text_of (value_of s "log.output");
  };
  operator = record {
    state_update_interval = pos 30_000_000_000;
    rebalance_threshold = decimal_of (value_of s "operator.rebalance_threshold");
    max_rebalance_amount = text_of (value_of s "operator.max_rebalance_amount");
    min_rebalance_amount = text_of (value_of s "operator.min_rebalance_amount");
    rebalance_cooldown = 300_000_000_000;
  };
}

abbrev layers : Viper ℤ
layers = record {
  Store = Layers;
  set_config_file = λ file s. s;
  set_config_type = λ type s. s;
  automatic_env = λ s. s;
  set_default = λ k x s. record s { default_values = insert k x s.default_values };
  read_in_config = λ s. (s, none);
  unmarshal = λ s. some (decoded s);
}

of_text :
    (o : Option (Value ℤ)) (x : Value ℤ)
    → o ≡ some x
    → SameKind x (text (text_of o))
    → x ≡ text (text_of o)
of_text o (text t) e k = ap (λ y. text (text_of y)) (sym e)
of_text o (number n) e k = absurd k
of_text o (decimal d) e k = absurd k

of_number :
    (o : Option (Value ℤ)) (x : Value ℤ)
    → o ≡ some x
    → SameKind x (number (number_of o))
    → x ≡ number (number_of o)
of_number o (text t) e k = absurd k
of_number o (number n) e k = ap (λ y. number (number_of y)) (sym e)
of_number o (decimal d) e k = absurd k

of_decimal :
    (o : Option (Value ℤ)) (x : Value ℤ)
    → o ≡ some x
    → SameKind x (decimal (decimal_of o))
    → x ≡ decimal (decimal_of o)
of_decimal o (text t) e k = absurd k
of_decimal o (number n) e k = absurd k
of_decimal o (decimal d) e k = ap (λ y. decimal (decimal_of y)) (sym e)

some-injective : (a b : Config ℤ) → some a ≡ some b → a ≡ b
some-injective a b e = ground arith

abbrev Decodes : Layers → Config ℤ → Type 0
Decodes s cfg =
    All
      (λ (entry : String × Value ℤ).
        (x : Value ℤ)
        → or_else (lookup entry.0 s.given_values) (lookup entry.0 s.default_values) ≡ some x
        → SameKind x entry.1
        → x ≡ entry.1)
      (keyed cfg)

decoded-Decodes : (s : Layers) → Decodes s (decoded s)
decoded-Decodes s = (
  of_text (value_of s "server.host"),
  (
    of_number (value_of s "server.port"),
    (
      of_text (value_of s "database.host"),
      (
        of_number (value_of s "database.port"),
        (
          of_text (value_of s "database.user"),
          (
            of_text (value_of s "database.dbname"),
            (
              of_text (value_of s "database.sslmode"),
              (
                of_text (value_of s "log.level"),
                (
                  of_text (value_of s "log.format"),
                  (
                    of_text (value_of s "log.output"),
                    (
                      of_decimal (value_of s "operator.rebalance_threshold"),
                      (
                        of_text (value_of s "operator.max_rebalance_amount"),
                        (of_text (value_of s "operator.min_rebalance_amount"), tt),
                      ),
                    ),
                  ),
                ),
              ),
            ),
          ),
        ),
      ),
    ),
  ),
)

layers-IsLayered : IsLayered layers
layers-IsLayered = record {
  given = λ s k. lookup k s.given_values;
  default = λ s k. lookup k s.default_values;
  default-set_default = λ key x s k l h. lookup-insert key k x s.default_values;
  default-read_in_config = λ s k. refl;
  unmarshal-keyed =
      λ s cfg e. subst (Decodes s) (some-injective (decoded s) cfg e) (decoded-Decodes s);
}

-- The file gives the host of the server only.
abbrev one_value : Layers
one_value = record { given_values = ("server.host", text "here") ∷ []; default_values = [] }

abbrev loaded : Config ℤ
loaded = decoded (record one_value { default_values = defaults decimals })

loads : (load layers (defaults decimals) "config.yaml" one_value).1 ≡ ok loaded
unfolding load
loads = refl

load-keyed_example :
    (validate loaded ≡ none)
    × All
        (λ (entry : String × Value ℤ).
          layers-IsLayered.given (load layers (defaults decimals) "config.yaml" one_value).0 entry.0
            ≡ none
          → lookup entry.0 (defaults decimals) ≡ some entry.1)
        (keyed loaded)
load-keyed_example =
    load-keyed decimals layers layers-IsLayered "config.yaml" one_value loaded loads

abbrev here : Surroundings net
here = record {
  Level = String;
  parse_level = λ s. some s;
  to_lower = λ s. s;
  database_password = "";
  opens = λ dsn. true;
  dial = λ url. some url;
  starts = always_starts;
}

run_operator-Runs_example :
    NotStarted net here (run_operator net here decimals layers "config.yaml" one_value)
    ⊎ HasRun net here decimals layers "config.yaml" one_value
        (run_operator net here decimals layers "config.yaml" one_value)
run_operator-Runs_example = run_operator-Runs net here decimals layers "config.yaml" one_value
