-- ===== src/Cli/Laws.antt =====
-- Which command lines give arguments, and which arguments they give.
use ctask.Common.{
  ℕ, Bytes, codes, List, Option, none, some, ◌≡◌, ◌↔◌, refl, ap, ◌∙◌, Option-cases, inl, inr, arith,
}
use mathlib.Core.Path.{subst}
use ctask.Common.Result.{Result, ok, ◌>>=◌, bind_iff}
use ctask.Utils.{CliArgs}
use ctask.Cli.{
  Environment, CliParser, setting, args_of_config, read_config, args_of_option, cli_parse,
}

module _ (env : Environment) where
  open env use {Value, index, parse, read_file, parse_options, get_string, get_u16}

  -- The configuration has a section, in it a value under a key, and the value reads as `x`.
  pub record Reads (config : Value) (section key : Bytes) {A : Type 0} (get : Value → Result A)
      (x : A) : Type 0 where
    pub in_section : Value
    pub value : Value
    pub has_section : index config section ≡ ok in_section
    pub has_key : index in_section key ≡ ok value
    pub reads : get value ≡ ok x

  read_iff :
      {A B : Type 0} (config : Value) (section key : Bytes) (get : Value → Result A)
      (rest : A → Result B) (out : B)
      → ((setting env config section key >>= λ v. get v >>= rest) ≡ ok out)
        ↔ ((x : A) × Reads config section key get x × (rest x ≡ ok out))
  unfolding setting
  read_iff config section key get rest out = (
    λ e.
        let (v, at_v, e1) = (bind_iff (setting env config section key) _ out).0 e in
        let (s, at_s, at_key) = (bind_iff (index config section) _ v).0 at_v in
        let (x, got, e2) = (bind_iff (get v) rest out).0 e1 in
        (
          x,
          record { in_section = s; value = v; has_section = at_s; has_key = at_key; reads = got },
          e2,
        ),
    λ (x, r, e). rw (r.has_section, r.has_key, r.reads) e,
  )

  -- What the configuration says, and the number of threads that no one has set yet.
  pub record Configures (config : Value) (args : CliArgs) : Type 0 where
    pub address :
        Reads config (codes "server") (codes "address") get_string args.server_args.address
    pub port : Reads config (codes "server") (codes "port") get_u16 args.server_args.port
    pub keep_alive_sec :
        Reads config (codes "server") (codes "keepAliveSec") get_u16 args.server_args.keep_alive_sec
    pub level : Reads config (codes "logger") (codes "level") get_string args.logger_args.level
    pub no_threads : args.server_args.threads ≡ 0

  -- The object that is built of four values.
  abbrev built : Bytes → ℕ → ℕ → Bytes → CliArgs
  built address port keep_alive level = record {
    server_args = record {
      address = address;
      port = port;
      threads = 0;
      keep_alive_sec = keep_alive;
    };
    logger_args = record { level = level };
  }

  built-Configures :
      (config : Value) (a l : Bytes) (p k : ℕ) (args : CliArgs)
      → Reads config (codes "server") (codes "address") get_string a
      → Reads config (codes "server") (codes "port") get_u16 p
      → Reads config (codes "server") (codes "keepAliveSec") get_u16 k
      → Reads config (codes "logger") (codes "level") get_string l
      → ok (built a p k l) ≡ ok args
      → Configures config args
  built-Configures config a l p k args ra rp rk rl e =
      let same : built a p k l ≡ args = cc e in
      subst (Configures config) same
        (record { address = ra; port = rp; keep_alive_sec = rk; level = rl; no_threads = refl })

  built_args :
      (args : CliArgs)
      → args.server_args.threads ≡ 0
      → ok (
          built args.server_args.address args.server_args.port args.server_args.keep_alive_sec
            args.logger_args.level)
        ≡ ok args
  built_args args h = ground arith

  args_of_config_iff :
      (config : Value) (args : CliArgs)
      → (args_of_config env config ≡ ok args) ↔ Configures config args
  unfolding args_of_config
  args_of_config_iff config args = (
    λ e.
        let (a, ra, e1) = (read_iff config _ _ get_string _ args).0 e in
        let (p, rp, e2) = (read_iff config _ _ get_u16 _ args).0 e1 in
        let (k, rk, e3) = (read_iff config _ _ get_u16 _ args).0 e2 in
        let (l, rl, e4) = (read_iff config _ _ get_string _ args).0 e3 in
        built-Configures config a l p k args ra rp rk rl e4,
    λ c. (read_iff config _ _ get_string _ args).1 (
      _,
      c.address,
      (read_iff config _ _ get_u16 _ args).1 (
        _,
        c.port,
        (read_iff config _ _ get_u16 _ args).1 (
          _,
          c.keep_alive_sec,
          (read_iff config _ _ get_string _ args).1 (_, c.level, built_args args c.no_threads),
        ),
      ),
    ),
  )

  -- A command line gives the arguments.
  pub record Gives (parser : CliParser) (argv : List Bytes) (args : CliArgs) : Type 0 where
    pub path : Bytes
    pub text : Bytes
    pub config : Value
    pub option : parse_options parser.app_name parser.app_description argv ≡ ok (some path)
    pub content : read_file path ≡ some text
    pub parsed : parse text ≡ ok config
    pub configures : Configures config args

  read_config_iff :
      (path : Bytes) (args : CliArgs)
      → (read_config env path ≡ ok args) ↔ (
          (text : Bytes) × (config : Value) × (read_file path ≡ some text)
          × (parse text ≡ ok config)
          × Configures config args)
  unfolding read_config
  read_config_iff path args = elim (Option-cases (read_file path)) [
    | inl absent ↦ rw (absent, read_config) (λ e. cc, λ w. cc (w.2))
    | inr (text, there) ↦
        rw (there, read_config)
          (
            λ e.
                let (config, parsed, e1) = (bind_iff (parse text) _ args).0 e in
                (text, config, refl, parsed, (args_of_config_iff config args).0 e1),
            λ (t, config, same, parsed, c).
                (bind_iff (parse text) _ args).1
                  (config, ap parse (cc same) ∙ parsed, (args_of_config_iff config args).1 c),
          )
  ]

  -- A command line gives arguments exactly when it names a configuration file that can be read and
  -- parsed and that has the address, the port, the keep-alive time and the level; and they are these
  -- values, with no threads.
  pub cli_parse-eq-ok_iff :
      (parser : CliParser) (argv : List Bytes) (args : CliArgs)
      → (cli_parse env parser argv ≡ ok args) ↔ Gives parser argv args
  unfolding cli_parse args_of_option
  cli_parse-eq-ok_iff parser argv args = (
    λ e.
        let (o, given, e1) =
          (bind_iff (parse_options parser.app_name parser.app_description argv) _ args).0 e in
        by_option o given e1,
    λ g.
        rw g.option
          ((read_config_iff g.path args).1 (g.text, g.config, g.content, g.parsed, g.configures)),
  )
    where
      by_option :
          (o : Option Bytes)
          → parse_options parser.app_name parser.app_description argv ≡ ok o
          → args_of_option env o ≡ ok args
          → Gives parser argv args
      by_option none given e = cc
      by_option (some path) given e =
          let (text, config, content, parsed, c) = (read_config_iff path args).0 e in
          record {
            path = path;
            text = text;
            config = config;
            option = given;
            content = content;
            parsed = parsed;
            configures = c;
          }
