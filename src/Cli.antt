-- ===== src/Cli.antt =====
-- ctask_lib/cli/cli_parser.cpp. The option parser, the file system and the JSON library are
-- parameters.
pub mod Laws
pub mod Tests
use ctask.Common.{ℕ, Bytes, codes, List, Option, none, some}
use ctask.Common.Result.{Result, ok, thrown, invalid_argument, runtime_error, ◌>>=◌}
use ctask.Utils.{CliArgs}

-- What the program uses of cxxopts, of files and of the JSON library for its configuration.
pub record Environment : Type 1 where
  -- The value of `--config`, if it is given; or an exception for an unknown or incomplete option.
  pub parse_options : Bytes → Bytes → List Bytes → Result (Option Bytes)
  -- The content of a file, if it can be opened.
  pub read_file : Bytes → Option Bytes
  pub Value : Type 0
  pub parse : Bytes → Result Value
  -- `value[key]`, which gives null for a key that an object does not have.
  pub index : Value → Bytes → Result Value
  pub get_string : Value → Result Bytes
  pub get_u16 : Value → Result ℕ

pub record CliParser : Type 0 where
  pub app_name : Bytes
  pub app_description : Bytes

module _ (env : Environment) where
  open env use {parse_options, read_file, Value, parse, index, get_string, get_u16}

  -- `config[section][key]`
  unfoldable pub setting : Value → Bytes → Bytes → Result Value
  setting config section key = do s ← index config section; index s key

  -- The object that is returned; its parts are read in the order in which they stand.
  unfoldable pub args_of_config : Value → Result CliArgs
  unfolding setting
  args_of_config config = do
    address_value ← setting config (codes "server") (codes "address")
    address ← get_string address_value
    port_value ← setting config (codes "server") (codes "port")
    port ← get_u16 port_value
    keep_alive_value ← setting config (codes "server") (codes "keepAliveSec")
    keep_alive ← get_u16 keep_alive_value
    level_value ← setting config (codes "logger") (codes "level")
    level ← get_string level_value
    ok (record {
      server_args = record {
        address = address;
        port = port;
        threads = 0;
        keep_alive_sec = keep_alive;
      };
      logger_args = record { level = level };
    })

  unfoldable pub read_config : Bytes → Result CliArgs
  unfolding args_of_config
  read_config path = elim (read_file path) [
    | none ↦ thrown (runtime_error (codes "Can't open config file"))
    | some text ↦ do config ← parse text; args_of_config config
  ]

  -- `none` stands for `--config` that is not given.
  unfoldable pub args_of_option : Option Bytes → Result CliArgs
  unfolding read_config
  args_of_option none =
      thrown
        (invalid_argument (codes "Config file path is required. Use --config or -c to specify it"))
  args_of_option (some path) = read_config path

  unfoldable pub cli_parse : CliParser → List Bytes → Result CliArgs
  unfolding args_of_option
  cli_parse parser argv = do
    option ← parse_options parser.app_name parser.app_description argv
    args_of_option option
