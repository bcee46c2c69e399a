-- ===== src/Config/Load.antt =====
-- src/config.rs: `load`, from the arguments and the files to the configuration that the server runs with.
use vldb_lancedb.Text.FileName.{parent}
use vldb_lancedb.Text.FilePath.{join}
use vldb_lancedb.Config.Paths.{resolve_data_path, or_raw, resolve_log_dir, resolve_path_like_shell}
use vldb_lancedb.Manager.{BoxError, other_error, invalid_input}
use vldb_lancedb.Prelude.{
  Result, Option, String, List, [], some, none, err, ◌>>=◌, map_err, ◌∷◌, drop, ok, ◌++◌,
  if◌then◌else◌, ◌>>◌, ◌=ₛ◌, ◌||◌, map_ok,
}
use vldb_lancedb.Config.{
  Environment, Config, ResolvedConfig, default_config, default_config_file, legacy_config_file,
  validate_config,
}

module _ (env : Environment) where
  unfoldable pub current_dir : Result String BoxError
  current_dir = map_err other_error env.current_dir

  -- The arguments after the program's name
  unfoldable pub config_arg : List String → Result (Option String) BoxError
  unfolding current_dir
  config_arg [] = ok none
  config_arg (arg ∷ []) =
      if (arg =ₛ "-config") || (arg =ₛ "--config")
      then err (invalid_input "missing value after -config / --config")
      else ok none
  config_arg (arg ∷ (next ∷ args)) =
      let rest = config_arg (next ∷ args) in
      if (arg =ₛ "-config") || (arg =ₛ "--config")
      then map_ok (λ dir. some (resolve_path_like_shell env next dir)) current_dir
      else rest

  unfoldable pub parse_config_arg : Result (Option String) BoxError
  unfolding config_arg
  parse_config_arg = config_arg (drop 1 env.args)

  abbrev pub beside : Option String → List String
  beside none = []
  beside (some dir) = join dir default_config_file ∷ (join dir legacy_config_file ∷ [])

  abbrev pub exe_dir : Result String String → Option String
  exe_dir (err error) = none
  exe_dir (ok exe) = parent exe

  -- `into_iter().find(|p| p.is_file())`
  unfoldable pub first_file : List String → Option String
  first_file [] = none
  first_file (path ∷ paths) = if env.is_file path then some path else first_file paths

  unfoldable pub find_default_config_file : Result (Option String) BoxError
  unfolding first_file current_dir
  find_default_config_file = do
    dir ← current_dir
    ok (first_file (beside (exe_dir env.current_exe) ++ beside (some dir)))

  -- `Option::or`
  abbrev pub or_found : Option String → Option String → Option String
  or_found (some path) found = some path
  or_found none found = found

  unfoldable pub read_config : Option String → Result (Config × Option String) BoxError
  read_config none = ok (default_config, none)
  read_config (some path) = do
    content ← map_err other_error (env.read_to_string path)
    config ← map_err other_error (env.config_from_str content)
    ok (config, some path)

  -- `source.as_ref().and_then(|p| p.parent()).unwrap_or(dir)`
  abbrev pub base_of : String → Option String → String
  base_of dir none = dir
  base_of dir (some path) = or_raw dir (parent path)

  abbrev pub with_log_dir : Config → String → Config
  with_log_dir config log_dir = record config {
    logging = record config.logging { log_dir = log_dir };
  }

  unfoldable pub resolved : Config → Option String → String → ResolvedConfig
  resolved config source db_path = record {
    host = config.host;
    port = config.port;
    grpc_request_timeout_ms = config.grpc_request_timeout_ms;
    max_concurrent_requests = config.max_concurrent_requests;
    source = source;
    logging = config.logging;
    runtime = record {
      default_db_path = db_path;
      db_root = none;
      read_consistency_interval_ms = config.read_consistency_interval_ms;
    };
  }

  unfoldable pub finish_load : Config → Option String → String → Result ResolvedConfig BoxError
  unfolding resolved
  finish_load config source base_dir =
      let db_path = resolve_data_path env config.db_path base_dir in
      let config' =
        with_log_dir config (resolve_log_dir env config.logging.log_dir db_path base_dir) in
      do validate_config config'; ok (resolved config' source db_path)

  unfoldable pub load : Result ResolvedConfig BoxError
  unfolding parse_config_arg find_default_config_file read_config current_dir finish_load
  load = do
    explicit_config ← parse_config_arg
    found ← find_default_config_file
    (config, source) ← read_config (or_found explicit_config found)
    dir ← current_dir
    finish_load config source (base_of dir source)
