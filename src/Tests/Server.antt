-- ===== src/Tests/Server.antt =====
-- The configuration, the log and the runtime at concrete inputs.
use Prim.Native.Char.{char}
use vldb_lancedb.Tests.Stubs.{storage_stub, arcs_stub}
use vldb_lancedb.Main.Launched.{IsLaunched, IsLaunched-async_main}
use vldb_lancedb.Text.Format.{show}
use vldb_lancedb.Prelude.Dict.{lookup, insert}
use vldb_lancedb.Manager.Cache.{
  open_named, look, look_up, enter, entry_or_insert, open_connection, prepare,
}
use vldb_lancedb.Manager.{
  concurrent_write_warning, is_plain_s3_uri, normalize_database_key, filter_name,
  database_path_for_name, path_of_normalized,
}
use vldb_lancedb.Runtime.{new_engine, open_named_engine, runtime_of}
use vldb_lancedb.Main.{Launch, async_main, engine_options_for, banner, bind_address, first_address}
use vldb_lancedb.Config.Sound.{IsSound}
use vldb_lancedb.Text.{
  contains, strip_prefix, trim, trim_start, trim_end, cons_unless_blank, is_whitespace,
  to_ascii_lowercase, to_lower,
}
use vldb_lancedb.Text.FilePath.{
  split_from, is_absolute, join, ends_with_separator, components, components_of, part_components,
  later_components,
}
use vldb_lancedb.Text.FileName.{
  parent, parent_of, trim_parts, with_separators, file_stem, extension, last_name, rsplit_at_dot,
  stem_of, extension_of, file_name,
}
use vldb_lancedb.Config.Paths.{
  resolve_path_like_shell, expand_tilde, against, resolve_data_path, resolve_log_dir,
  home_dir_string,
}
use vldb_lancedb.Config.Valid.{validate_config_iff}
use vldb_lancedb.Logging.Rotation.{after_stderr, IsUnavailable, log-day}
use vldb_lancedb.Logging.Named.{Logs}
use vldb_lancedb.Logging.Days.{build_dated_log_path_inj}
use vldb_lancedb.Config.Sound.{IsSound, IsSound-load}
use vldb_lancedb.Config.Absolute.{IsRooted}
use vldb_lancedb.Config.{validate_config, ResolvedConfig, Environment, default_config, IsValid}
use vldb_lancedb.Logging.{
  LogHost, default_logging, ServiceLogger, LogFileState, log, log_line, default_log_file_name,
  new_logger, open_log_file_state, build_dated_log_path, build_dated_log_file_name, dated_name,
  log_path,
}
use vldb_lancedb.Config.Load.{
  load, parse_config_arg, config_arg, current_dir, find_default_config_file, first_file,
  read_config, finish_load, resolved,
}
use vldb_lancedb.Prelude.{
  refl, ◌≡◌, ◌∷◌, some, Bool, ok, none, String, [], true, err, ◌↔◌, if◌then◌else◌, false, ◌⊎◌, sym,
  ok-injective, Result, List, ℕ,
}

abbrev environment_stub : Environment
environment_stub = record {
  args = "vldb-lancedb" ∷ ("--config" ∷ ("conf/db.json" ∷ []));
  current_dir = ok "/srv";
  current_exe = err "unknown";
  var = λ name. none;
  is_file = λ path. false;
  read_to_string = λ path. ok "{}";
  config_from_str = λ text. ok default_config;
}

IsRooted-environment_stub : IsRooted environment_stub
unfolding is_absolute
IsRooted-environment_stub = record {
  dir = λ path h. rw (sym (ok-injective h)) refl;
  exe = λ path h. cc;
}

abbrev loaded_stub : ResolvedConfig
loaded_stub = record {
  host = "127.0.0.1";
  port = 19301;
  grpc_request_timeout_ms = some 30000;
  max_concurrent_requests = 500;
  source = some "/srv/conf/db.json";
  logging = record default_logging { log_dir = "/srv/conf/./data/logs" };
  runtime = record {
    default_db_path = "/srv/conf/./data";
    db_root = none;
    read_consistency_interval_ms = some 0;
  };
}

IsSound-load_example : IsSound environment_stub loaded_stub
unfolding load parse_config_arg config_arg current_dir find_default_config_file first_file
    read_config finish_load resolved resolve_path_like_shell expand_tilde against resolve_data_path
    resolve_log_dir validate_config default_config default_logging default_log_file_name parent
    parent_of trim_parts with_separators split_from is_absolute join ends_with_separator contains
    strip_prefix trim trim_start trim_end cons_unless_blank is_whitespace
IsSound-load_example = IsSound-load environment_stub loaded_stub IsRooted-environment_stub refl

validate_config_iff_example : (validate_config default_config ≡ ok tt) ↔ IsValid default_config
validate_config_iff_example = validate_config_iff default_config

abbrev new_year : String
new_year = "2026-01-01"

build_dated_log_path_inj_example : new_year ≡ new_year
build_dated_log_path_inj_example =
    build_dated_log_path_inj "/var/log" "vldb-lancedb.log" new_year new_year refl

-- A system where it is one day later after each line
abbrev log_host_stub : LogHost
log_host_stub = record {
  World = Bool;
  File = String;
  create_dir_all = λ path w. (ok tt, w);
  open_append = λ path w. (ok path, w);
  write_line = λ file line w. true;
  eprint_line = λ line w. w;
  current_log_date = λ w. if w then "2026-01-03" else "2026-01-02";
  since_epoch = λ w. (1767312000, 7);
}

abbrev log_state_stub : LogFileState log_host_stub
log_state_stub = record {
  file = "/var/log/vldb-lancedb_2026-01-02.log";
  path = "/var/log/vldb-lancedb_2026-01-02.log";
  date_key = "2026-01-02";
}

abbrev logger_stub : ServiceLogger log_host_stub
logger_stub = record {
  service_name = "vldb-lancedb";
  config = record default_logging { log_dir = "/var/log" };
  file_state = some log_state_stub;
}

log-day_example :
    (current : LogFileState log_host_stub) × ((log log_host_stub "boot" "ready" logger_stub
        true).0.file_state
      ≡ some current)
    × ((world : Bool) × ((log log_host_stub "boot" "ready" logger_stub true).1
          ≡ log_host_stub.write_line current.file
              (log_line log_host_stub logger_stub "boot" "ready" true)
              world))
    × (current.path ≡ build_dated_log_path "/var/log" "vldb-lancedb.log" current.date_key)
    × ((opening : Bool) × ((log_host_stub.open_append current.path opening).0 ≡ ok current.file))
    × ((current.date_key
          ≡ log_host_stub.current_log_date
              (after_stderr log_host_stub logger_stub "boot" "ready" true))
        ⊎ ((current ≡ log_state_stub)
            × IsUnavailable log_host_stub logger_stub.config
                (after_stderr log_host_stub logger_stub "boot" "ready" true)))
unfolding default_logging default_log_file_name new_logger open_log_file_state build_dated_log_path
    build_dated_log_file_name dated_name file_stem extension file_name last_name components
    split_from components_of is_absolute part_components later_components rsplit_at_dot stem_of
    extension_of join ends_with_separator
log-day_example =
    log-day log_host_stub "vldb-lancedb" logger_stub.config false logger_stub logger_stub
      log_state_stub "boot" "ready" true refl Logs.here refl refl

abbrev lookup_stub : String → Result (List String) String
lookup_stub text = ok (text ∷ [])

abbrev launch_stub : Launch ℕ log_host_stub
launch_stub = record {
  engine = (new_engine 0 (engine_options_for loaded_stub) arcs_stub).0;
  logger = record {
    service_name = "vldb-lancedb";
    config = loaded_stub.logging;
    file_state = some (record {
      file = "/srv/conf/./data/logs/vldb-lancedb_2026-01-02.log";
      path = "/srv/conf/./data/logs/vldb-lancedb_2026-01-02.log";
      date_key = "2026-01-02";
    });
  };
  request_timeout = some 30000;
  addr = "127.0.0.1:19301";
  printed =
      banner loaded_stub (some "/srv/conf/./data/logs/vldb-lancedb_2026-01-02.log")
        "127.0.0.1:19301";
}

IsLaunched-async_main_example :
    (cfg : ResolvedConfig) × IsLaunched environment_stub log_host_stub storage_stub lookup_stub
      (false, 0, arcs_stub)
      launch_stub
      (async_main environment_stub log_host_stub storage_stub lookup_stub (false, 0, arcs_stub)).1.2
      cfg
unfolding async_main load parse_config_arg config_arg current_dir find_default_config_file
    first_file read_config finish_load resolved resolve_path_like_shell expand_tilde against
    resolve_data_path resolve_log_dir validate_config default_config default_logging
    default_log_file_name parent parent_of trim_parts with_separators split_from is_absolute join
    ends_with_separator contains strip_prefix trim trim_start trim_end cons_unless_blank
    is_whitespace new_logger open_log_file_state build_dated_log_path build_dated_log_file_name
    dated_name file_stem extension file_name last_name components components_of part_components
    later_components rsplit_at_dot stem_of extension_of concurrent_write_warning is_plain_s3_uri
    to_ascii_lowercase to_lower open_named_engine runtime_of open_named look look_up lookup insert
    enter entry_or_insert normalize_database_key filter_name database_path_for_name
    path_of_normalized open_connection prepare new_engine bind_address first_address log_path show
    banner
IsLaunched-async_main_example =
    IsLaunched-async_main environment_stub log_host_stub storage_stub lookup_stub
      (false, 0, arcs_stub) launch_stub IsRooted-environment_stub refl

abbrev home_stub : Environment
home_stub = record environment_stub { var = λ name. some "/home/ada" }

backslash_test :
    expand_tilde home_stub (String.◌∷◌ (char 0x7e tt) (String.◌∷◌ (char 0x5c tt) "data"))
    ≡ "/home/ada/data"
unfolding expand_tilde home_dir_string strip_prefix join is_absolute ends_with_separator
backslash_test = refl

dated_names_test : build_dated_log_file_name "sub/app.log" "2026-01-02" ≡ "app_2026-01-02.log"
unfolding build_dated_log_file_name dated_name file_stem extension file_name last_name components
    split_from components_of is_absolute part_components later_components rsplit_at_dot stem_of
    extension_of
dated_names_test = refl

hidden_name_test : build_dated_log_file_name ".log" "2026-01-02" ≡ ".log_2026-01-02"
unfolding build_dated_log_file_name dated_name file_stem extension file_name last_name components
    split_from components_of is_absolute part_components later_components rsplit_at_dot stem_of
    extension_of
hidden_name_test = refl
