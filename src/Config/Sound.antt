-- ===== src/Config/Sound.antt =====
-- src/config.rs: what holds of the configuration that it returns.
use vldb_lancedb.Config.Paths.{resolve_data_path, resolve_log_dir}
use vldb_lancedb.Config.Absolute.{
  resolve_data_path_lem, IsRooted, is_absolute-resolve_log_dir, IsAbsoluteIf-or_found,
  IsAbsoluteIf-find_default_config_file, is_absolute-base_of,
}
use vldb_lancedb.Config.Valid.{validate_config_iff}
use vldb_lancedb.Manager.{other_error}
use vldb_lancedb.Config.{Environment, ResolvedConfig, Config, validate_config, default_config}
use vldb_lancedb.Text.{is_empty, trim, contains}
use vldb_lancedb.Text.FilePath.{is_absolute}
use vldb_lancedb.Config.Load.{
  base_of, parse_config_arg, find_default_config_file, or_found, finish_load, load, current_dir,
  read_config, resolved,
}
use vldb_lancedb.Prelude.{
  Option, String, some, ◌≡◌, true, ok, none, false, ◌⊎◌, ◌≢◌, sym, refl, map_err-eq-ok, ap,
  >>=-eq-ok, ◌∙◌, map_err, ok-injective,
}

-- The configuration that is in a file, and the defaults where there is no file
abbrev pub IsRead : Environment → Option String → Config → Type 0
IsRead env none config = config ≡ default_config
IsRead env (some path) config =
    (content : String) × (env.read_to_string path ≡ ok content)
    × (env.config_from_str content ≡ ok config)

-- What is returned for a configuration: its values, and its paths taken from the directory of the file,
-- or from the current one without a file.
pub record IsConfigured (env : Environment) (r : ResolvedConfig) (config : Config) : Type 0 where
  pub host : r.host ≡ config.host
  pub port : r.port ≡ config.port
  pub timeout : r.grpc_request_timeout_ms ≡ config.grpc_request_timeout_ms
  pub requests : r.max_concurrent_requests ≡ config.max_concurrent_requests
  pub interval : r.runtime.read_consistency_interval_ms ≡ config.read_consistency_interval_ms
  pub db_root : r.runtime.db_root ≡ none
  pub logging : r.logging ≡ record config.logging { log_dir = r.logging.log_dir }
  pub paths :
      (dir : String) × (env.current_dir ≡ ok dir)
      × (r.runtime.default_db_path
          ≡ resolve_data_path env config.db_path (base_of env dir r.source))
      × (r.logging.log_dir
          ≡ resolve_log_dir env config.logging.log_dir r.runtime.default_db_path
              (base_of env dir r.source))

-- A server can run with it: every path is absolute, but for a database that is named by a URI.
pub record IsSound (env : Environment) (r : ResolvedConfig) : Type 0 where
  pub host : is_empty (trim r.host) ≡ false
  pub port : r.port ≢ 0
  pub db_path :
      (contains "://" r.runtime.default_db_path ≡ true)
      ⊎ (is_absolute r.runtime.default_db_path ≡ true)
  pub log_dir : is_absolute r.logging.log_dir ≡ true
  pub source :
      (explicit found : Option String) × (parse_config_arg env ≡ ok explicit)
      × (find_default_config_file env ≡ ok found)
      × (r.source ≡ or_found env explicit found)
  pub content : (config : Config) × IsRead env r.source config × IsConfigured env r config

module _ (env : Environment) where
  IsRead-read_config :
      (path : Option String) (config : Config) (source : Option String)
      → read_config env path ≡ ok (config, source)
      → (source ≡ path) × IsRead env source config
  unfolding read_config
  IsRead-read_config none config source h =
      let same = ok-injective h in rw (sym (ap (λ r. r.1) same)) (refl, sym (ap (λ r. r.0) same))
  IsRead-read_config (some path) config source h =
      let (content, read, h1) = >>=-eq-ok (map_err other_error (env.read_to_string path)) _ h in
      let (parsed, from, h2) = >>=-eq-ok (map_err other_error (env.config_from_str content)) _ h1 in
      let same = ok-injective h2 in
      rw (sym (ap (λ r. r.1) same)) (
        refl,
        (content, map_err-eq-ok _ _ _ read, map_err-eq-ok _ _ _ from ∙ ap ok (ap (λ r. r.0) same)),
      )

  finish_load-IsSound :
      (config : Config) (source : Option String) (base : String) (r : ResolvedConfig)
      → is_absolute base ≡ true
      → finish_load env config source base ≡ ok r
      → (is_empty (trim r.host) ≡ false)
        × (r.port ≢ 0)
        × ((contains "://" r.runtime.default_db_path ≡ true)
            ⊎ (is_absolute r.runtime.default_db_path ≡ true))
        × (is_absolute r.logging.log_dir ≡ true)
        × (r.source ≡ source)
  unfolding finish_load resolved
  finish_load-IsSound config source base r h e =
      let (checked, valid, done) = >>=-eq-ok (validate_config _) _ e in
      let v = (validate_config_iff _).0 valid in
      rw (sym (ok-injective done)) (
        v.host,
        v.port,
        resolve_data_path_lem env config.db_path base h,
        is_absolute-resolve_log_dir env config.logging.log_dir _ base h
            (resolve_data_path_lem env config.db_path base h),
        refl,
      )

  finish_load-IsConfigured :
      (config : Config) (source : Option String) (dir : String) (r : ResolvedConfig)
      → env.current_dir ≡ ok dir
      → finish_load env config source (base_of env dir source) ≡ ok r
      → IsConfigured env r config
  unfolding finish_load resolved
  finish_load-IsConfigured config source dir r here e =
      let (checked, valid, done) = >>=-eq-ok (validate_config _) _ e in
      rw (sym (ok-injective done)) (record {
        host = refl;
        port = refl;
        timeout = refl;
        requests = refl;
        interval = refl;
        db_root = refl;
        logging = refl;
        paths = (dir, here, refl, refl);
      })

  -- In an environment with absolute directories, a configuration that is loaded has a host, a port, an
  -- absolute directory for its log and a database that is absolute or a URI. It is read from the file that
  -- the arguments name, without one from the first of the default files, and is otherwise the defaults: its
  -- values are those that were read, and its paths lie in the directory of the file, or in the current one.
  pub IsSound-load : (r : ResolvedConfig) → IsRooted env → load env ≡ ok r → IsSound env r
  unfolding load
  IsSound-load r rooted h =
      let (explicit, given, h1) = >>=-eq-ok (parse_config_arg env) _ h in
      let (found, searched, h2) = >>=-eq-ok (find_default_config_file env) _ h1 in
      let ((config, source), read, h3) =
        >>=-eq-ok (read_config env (or_found env explicit found)) _ h2 in
      let (dir, here, h4) = >>=-eq-ok (current_dir env) _ h3 in
      let (same, content) = IsRead-read_config (or_found env explicit found) config source read in
      let rooted_dir = rooted.dir dir (map_err-eq-ok _ _ _ here) in
      let placed =
        IsAbsoluteIf-or_found env explicit found rooted given
          (IsAbsoluteIf-find_default_config_file env rooted searched) in
      let dir_eq = map_err-eq-ok _ _ _ here in
      let (host, port, db_path, log_dir, from) =
        finish_load-IsSound config source (base_of env dir source) r
          (is_absolute-base_of env dir source rooted_dir (rw same placed)) h4 in
      record {
        host = host;
        port = port;
        db_path = db_path;
        log_dir = log_dir;
        source = (explicit, found, given, searched, from ∙ same);
        content = (config, rw from content, finish_load-IsConfigured config source dir r dir_eq h4);
      }
