-- ===== src/Cli/Tests.antt =====
-- A configuration file on concrete input.
use ctask.Common.{ℕ, ◌≡◌, ◌↔◌, refl, Bytes, codes, bytes_eq, List, [], ◌∷◌, Option, none, some}
use ctask.Common.Assoc.{lookup}
use ctask.Common.Result.{Result, ok, thrown, runtime_error}
use ctask.Utils.{CliArgs}
use ctask.Cli.{Environment, CliParser, cli_parse}
use ctask.Cli.Laws.{Gives, cli_parse-eq-ok_iff}

-- A value that holds no other, and one of two levels.
pub data Leaf : Type 0 where
  text : Bytes → Leaf
  number : ℕ → Leaf

pub data Value : Type 0 where
  null : Value
  leaf : Leaf → Value
  section : List (Bytes × Leaf) → Value
  document : List (Bytes × List (Bytes × Leaf)) → Value

abbrev missing : {A : Type 0} → Result A
missing = thrown (runtime_error (codes "type"))

abbrev index : Value → Bytes → Result Value
index (document sections) key = elim (lookup key sections) [
  | some found ↦ ok (section found)
  | none ↦ ok null
]
index (section entries) key = elim (lookup key entries) [
  | some found ↦ ok (leaf found)
  | none ↦ ok null
]
index null key = ok null
index (leaf l) key = missing

abbrev get_string : Value → Result Bytes
get_string (leaf (text s)) = ok s
get_string _ = missing

abbrev get_u16 : Value → Result ℕ
get_u16 (leaf (number n)) = ok n
get_u16 _ = missing

abbrev config : Value
config = document (
    (
      codes "server",
      (codes "address", text (codes "0.0.0.0"))
          ∷ (codes "port", number 8080)
          ∷ (codes "keepAliveSec", number 5)
          ∷ [],
    )
    ∷ (codes "logger", (codes "level", text (codes "info")) ∷ [])
    ∷ [])

abbrev first_of : List Bytes → Option Bytes
first_of [] = none
first_of (path ∷ rest) = some path

-- One file, which the first argument names.
abbrev pub environment : Environment
environment = record {
  parse_options = λ app_name app_description argv. ok (first_of argv);
  read_file = λ path. some (codes "{}");
  Value = Value;
  parse = λ s. ok config;
  index = index;
  get_string = get_string;
  get_u16 = get_u16;
}

abbrev pub parser : CliParser
parser = record { app_name = codes "app"; app_description = codes "telemetry" }

abbrev pub arguments : CliArgs
arguments = record {
  server_args = record { address = codes "0.0.0.0"; port = 8080; threads = 0; keep_alive_sec = 5 };
  logger_args = record { level = codes "info" };
}

abbrev pub argv : List Bytes
argv = codes "config.json" ∷ []

pub argv-Gives : Gives environment parser argv arguments
unfolding lookup bytes_eq
argv-Gives = record {
  path = codes "config.json";
  text = codes "{}";
  config = config;
  option = refl;
  content = refl;
  parsed = refl;
  configures = record {
    address = record {
      in_section = _;
      value = _;
      has_section = refl;
      has_key = refl;
      reads = refl;
    };
    port = record { in_section = _; value = _; has_section = refl; has_key = refl; reads = refl };
    keep_alive_sec = record {
      in_section = _;
      value = _;
      has_section = refl;
      has_key = refl;
      reads = refl;
    };
    level = record { in_section = _; value = _; has_section = refl; has_key = refl; reads = refl };
    no_threads = refl;
  };
}

cli_parse-eq-ok_iff_example :
    (cli_parse environment parser argv ≡ ok arguments) ↔ Gives environment parser argv arguments
cli_parse-eq-ok_iff_example = cli_parse-eq-ok_iff environment parser argv arguments
