-- ===== src/Logging.antt =====
-- src/logging.rs: the configuration of the log, and the logger with one file for each day. What the
-- program asks of the system is `LogHost`: `World` is all that a call can change.
pub mod Days
pub mod Named
pub mod Rotation
use vldb_lancedb.Text.{is_empty}
use vldb_lancedb.Text.FileName.{file_stem, extension}
use vldb_lancedb.Text.FilePath.{join}
use vldb_lancedb.Text.Format.{show}
use vldb_lancedb.Prelude.{
  Option, if◌then◌else◌, true, String, ℕ, Bool, Result, none, some, ltb, ◌<>◌, ok, ◌=ₛ◌, not, err,
}
use Prim.Native.Nat.{ℕ}
use Prim.Native.String.{String}

unfoldable pub default_log_file_name : String
default_log_file_name = "vldb-lancedb.log"

pub record LoggingConfig : Type 0 where
  pub enabled : Bool
  pub file_enabled : Bool
  pub stderr_enabled : Bool
  pub request_log_enabled : Bool
  pub slow_request_log_enabled : Bool
  pub slow_request_threshold_ms : ℕ
  pub include_request_details_in_slow_log : Bool
  pub request_preview_chars : ℕ
  pub log_dir : String
  pub log_file_name : String

-- `LoggingConfig::default()`
unfoldable pub default_logging : LoggingConfig
unfolding default_log_file_name
default_logging = record {
  enabled = true;
  file_enabled = true;
  stderr_enabled = true;
  request_log_enabled = true;
  slow_request_log_enabled = true;
  slow_request_threshold_ms = 1000;
  include_request_details_in_slow_log = true;
  request_preview_chars = 160;
  log_dir = "";
  log_file_name = default_log_file_name;
}

-- An error is given by the text that it displays, and a write that fails changes what it may.
pub record LogHost : Type 1 where
  pub World : Type 0
  pub File : Type 0
  pub create_dir_all : String → World → Result (Unit {0}) String × World
  -- `OpenOptions::new().create(true).append(true).open(path)`
  pub open_append : String → World → Result File String × World
  pub write_line : File → String → World → World
  pub eprint_line : String → World → World
  -- `Local::now().format("%Y-%m-%d")`
  pub current_log_date : World → String
  -- Seconds since the epoch, and the milliseconds of the second
  pub since_epoch : World → ℕ × ℕ

unfoldable pub dated_name : String → String → Option String → Option String → String
dated_name base_file_name date_key (some stem) (some extension) =
    if is_empty extension
    then stem <> ("_" <> date_key)
    else stem <> ("_" <> (date_key <> ("." <> extension)))
dated_name base_file_name date_key (some stem) none = stem <> ("_" <> date_key)
dated_name base_file_name date_key none extension = base_file_name <> ("_" <> date_key)

unfoldable pub build_dated_log_file_name : String → String → String
unfolding dated_name
build_dated_log_file_name base_file_name date_key =
    dated_name base_file_name date_key (file_stem base_file_name) (extension base_file_name)

unfoldable pub build_dated_log_path : String → String → String → String
unfolding build_dated_log_file_name
build_dated_log_path log_dir base_file_name date_key =
    join log_dir (build_dated_log_file_name base_file_name date_key)

-- `{:03}`
unfoldable pub show_millis : ℕ → String
show_millis n = if ltb n 10 then "00" <> show n else if ltb n 100 then "0" <> show n else show n

unfoldable pub unix_millis_timestamp : ℕ × ℕ → String
unfolding show_millis
unix_millis_timestamp (seconds, millis) = show seconds <> ("." <> show_millis millis)

module _ (H : LogHost) where
  pub record LogFileState : Type 0 where
    pub file : H.File
    pub path : String
    pub date_key : String

  pub record ServiceLogger : Type 0 where
    pub service_name : String
    pub config : LoggingConfig
    pub file_state : Option LogFileState

  abbrev pub opened :
      String → String → Result H.File String × H.World → Result LogFileState String × H.World
  opened path date_key (ok file, w) =
      (ok (record { file = file; path = path; date_key = date_key }), w)
  opened path date_key (err error, w) = (err error, w)

  unfoldable pub open_log_file_state :
      String → String → String → H.World → Result LogFileState String × H.World
  unfolding build_dated_log_path
  open_log_file_state log_dir base_file_name date_key w =
      let path = build_dated_log_path log_dir base_file_name date_key in
      opened path date_key (H.open_append path w)

  abbrev pub logger_with :
      String
      → LoggingConfig
      → Result LogFileState String × H.World
      → Result ServiceLogger String × H.World
  logger_with service_name config (ok state, w) =
      (ok (record { service_name = service_name; config = config; file_state = some state }), w)
  logger_with service_name config (err error, w) = (err error, w)

  abbrev pub logger_in :
      String
      → LoggingConfig
      → Result (Unit {0}) String × H.World
      → Result ServiceLogger String × H.World
  logger_in service_name config (err error, w) = (err error, w)
  logger_in service_name config (ok _, w) =
      logger_with service_name config
        (open_log_file_state config.log_dir config.log_file_name (H.current_log_date w) w)

  abbrev pub without_file : String → LoggingConfig → ServiceLogger
  without_file service_name config = record {
    service_name = service_name;
    config = config;
    file_state = none;
  }

  -- `ServiceLogger::new`
  unfoldable pub new_logger :
      String → LoggingConfig → H.World → Result ServiceLogger String × H.World
  unfolding open_log_file_state
  new_logger service_name config w =
      if not config.enabled
      then (ok (without_file service_name config), w)
      else if config.file_enabled
      then logger_in service_name config (H.create_dir_all config.log_dir w)
      else (ok (without_file service_name config), w)

  unfoldable pub log_path : ServiceLogger → Option String
  log_path logger = elim logger.file_state [ none ↦ none | some state ↦ some state.path ]

  unfoldable pub log_line : ServiceLogger → String → String → H.World → String
  unfolding unix_millis_timestamp
  log_line logger category message w =
      "["
      <> (unix_millis_timestamp (H.since_epoch w)
          <> ("][" <> (logger.service_name <> ("][" <> (category <> ("] " <> message))))))

  abbrev pub rotated : LogFileState → Result LogFileState String × H.World → LogFileState × H.World
  rotated state (ok next, w) = (next, w)
  rotated state (err error, w) = (state, w)

  -- The file of the day; the old one is kept where it cannot be opened.
  unfoldable pub rotate : LoggingConfig → LogFileState → H.World → LogFileState × H.World
  unfolding open_log_file_state
  rotate config state w =
      if state.date_key =ₛ H.current_log_date w
      then (state, w)
      else rotated state
          (open_log_file_state config.log_dir config.log_file_name (H.current_log_date w) w)

  unfoldable pub log_to_file :
      String → ServiceLogger → Option LogFileState → H.World → ServiceLogger × H.World
  unfolding rotate
  log_to_file line logger none w = (logger, w)
  log_to_file line logger (some state) w =
      let (current, w') = rotate logger.config state w in
      (record logger { file_state = some current }, H.write_line current.file line w')

  -- `ServiceLogger::log`
  unfoldable pub log : String → String → ServiceLogger → H.World → ServiceLogger × H.World
  unfolding log_line log_to_file
  log category message logger w =
      if not logger.config.enabled
      then (logger, w)
      else (let line = log_line logger category message w in
          log_to_file line logger logger.file_state
            (if logger.config.stderr_enabled then H.eprint_line line w else w))
