-- ===== src/Config.antt =====
-- src/config.rs: the configuration of the server. A path is a text; what the program asks of its
-- environment is `Environment`, an error there given by the text that it displays.
pub mod Paths
pub mod Load
pub mod Valid
pub mod Absolute
pub mod Sound
use vldb_lancedb.Logging.{default_logging, LoggingConfig}
use vldb_lancedb.Manager.{BoxError, DatabaseRuntimeConfig, invalid_input}
use vldb_lancedb.Text.{is_empty, trim}
use vldb_lancedb.Prelude.{
  some, Result, List, String, ℕ, Option, Bool, if◌then◌else◌, ◌≡◌, false, err, ◌≢◌, ◌==◌, true,
  ◌&&◌, ok,
}
use Prim.Native.String.{String}

abbrev pub default_config_file : String
default_config_file = "vldb-lancedb.json"

abbrev pub legacy_config_file : String
legacy_config_file = "lancedb.json"

pub record Config : Type 0 where
  pub host : String
  pub port : ℕ
  pub db_path : String
  pub read_consistency_interval_ms : Option ℕ
  pub grpc_request_timeout_ms : Option ℕ
  pub max_concurrent_requests : ℕ
  pub logging : LoggingConfig

-- `Config::default()`
unfoldable pub default_config : Config
default_config = record {
  host = "127.0.0.1";
  port = 19301;
  db_path = "./data";
  read_consistency_interval_ms = some 0;
  grpc_request_timeout_ms = some 30000;
  max_concurrent_requests = 500;
  logging = default_logging;
}

pub record ResolvedConfig : Type 0 where
  pub host : String
  pub port : ℕ
  pub grpc_request_timeout_ms : Option ℕ
  pub max_concurrent_requests : ℕ
  pub source : Option String
  pub logging : LoggingConfig
  pub runtime : DatabaseRuntimeConfig

pub record Environment : Type 0 where
  -- `env::args()`, the program's name first
  pub args : List String
  pub current_dir : Result String String
  pub current_exe : Result String String
  -- `env::var(name).ok()`
  pub var : String → Option String
  pub is_file : String → Bool
  pub read_to_string : String → Result String String
  -- `serde_json::from_str`, which takes what is missing from the defaults
  pub config_from_str : String → Result Config String

-- The checks in the order of the code, each with what it says
unfoldable pub validate_config : Config → Result (Unit {0}) BoxError
validate_config config =
    if is_empty (trim config.host)
    then err (invalid_input "config.host must not be empty")
    else if config.port == 0
    then err (invalid_input "config.port must be greater than 0")
    else if is_empty (trim config.db_path)
    then err (invalid_input "config.db_path must not be empty")
    else if config.logging.request_preview_chars == 0
    then err (invalid_input "config.logging.request_preview_chars must be greater than 0")
    else if config.logging.slow_request_threshold_ms == 0
    then err (invalid_input "config.logging.slow_request_threshold_ms must be greater than 0")
    else if config.logging.file_enabled && is_empty (trim config.logging.log_file_name)
    then err (
        invalid_input "config.logging.log_file_name must not be empty when file logging is enabled")
    else ok tt

-- What a configuration must satisfy for the server to start
pub record IsValid (config : Config) : Type 0 where
  pub host : is_empty (trim config.host) ≡ false
  pub port : config.port ≢ 0
  pub db_path : is_empty (trim config.db_path) ≡ false
  pub preview : config.logging.request_preview_chars ≢ 0
  pub threshold : config.logging.slow_request_threshold_ms ≢ 0
  pub file_name :
      config.logging.file_enabled ≡ true → is_empty (trim config.logging.log_file_name) ≡ false
