-- ===== src/Logging.antt =====
-- AVS/internal/logger/logger.go: which logger a configuration gives. `ParseLevel` of logrus and `ToLower`
-- of strings are arguments.
use sync_hook.Prelude.{
  ◌≡◌, refl, String, Option, none, some, if◌then◌else◌, ◌==◌, string_eq, arith, ◌↔◌,
}
use sync_hook.Settings.{LogConfig}

pub data Formatter : Type 0 where
  json text : Formatter

pub data Output : Type 0 where
  stdout stderr : Output

pub record Logger (Level : Type 0) : Type 0 where
  pub level : Level
  pub formatter : Formatter
  pub out : Output

-- The two switches, on a text in small letters.
abbrev pub formatter_of : String → Formatter
formatter_of format = if format == "json" then json else if format == "text" then text else json

abbrev pub output_of : String → Output
output_of output =
    if output == "stdout"
    then stdout
    else if output == "stderr"
    then stderr
    else if output == "file"
    then stdout
    else stdout

-- `New`; `none` is the error of `ParseLevel`.
unfoldable pub new_logger :
    {Level : Type 0}
    → (String → Option Level)
    → (String → String)
    → LogConfig
    → Option (Logger Level)
new_logger parse_level to_lower cfg = elim (parse_level cfg.level) [
  | none ↦ none
  | some level ↦ some (record {
    level = level;
    formatter = formatter_of (to_lower cfg.format);
    out = output_of (to_lower cfg.output);
  })
]

formatter_of-text : (s : String) → (formatter_of s ≡ text) ↔ (s ≡ "text")
formatter_of-text s =
    ground (
      arith,
      string_eq.beq_iff s "json",
      string_eq.beq_iff s "text",
      string_eq.beq_iff "json" "text",
    )

output_of-stderr : (s : String) → (output_of s ≡ stderr) ↔ (s ≡ "stderr")
output_of-stderr s = ground (
  arith,
  string_eq.beq_iff s "stdout",
  string_eq.beq_iff s "stderr",
  string_eq.beq_iff "stdout" "stderr",
)

-- A logger is made of every configuration whose level is known. It writes text exactly if the format reads
-- `text`, and to the standard error exactly if the output reads `stderr`, in any case of letters: not to a
-- file where one is asked for.
pub new_logger_lem :
    {Level : Type 0} (parse_level : String → Option Level) (to_lower : String → String)
    (cfg : LogConfig) (level : Level)
    → parse_level cfg.level ≡ some level
    → (log : Logger Level) × (new_logger parse_level to_lower cfg ≡ some log)
      × (log.level ≡ level)
      × ((log.formatter ≡ text) ↔ (to_lower cfg.format ≡ "text"))
      × ((log.out ≡ stderr) ↔ (to_lower cfg.output ≡ "stderr"))
unfolding new_logger
new_logger_lem parse_level to_lower cfg level e = (
  record {
    level = level;
    formatter = formatter_of (to_lower cfg.format);
    out = output_of (to_lower cfg.output);
  },
  rw (new_logger, e) refl,
  refl,
  formatter_of-text (to_lower cfg.format),
  output_of-stderr (to_lower cfg.output),
)
