-- ===== src/Config/Paths.antt =====
-- src/config.rs: how the paths of the configuration are resolved.
use vldb_lancedb.Text.{contains, strip_prefix, is_empty}
use vldb_lancedb.Text.FilePath.{is_absolute, join}
use vldb_lancedb.Prelude.{String, Option, some, if◌then◌else◌, not, ◌=ₛ◌, none}
use vldb_lancedb.Config.{Environment}

-- `unwrap_or`
abbrev pub or_raw : String → Option String → String
or_raw raw none = raw
or_raw raw (some found) = found

module _ (env : Environment) where
  unfoldable pub home_dir_string : Option String
  home_dir_string = elim (env.var "HOME") [ some home ↦ some home | none ↦ env.var "USERPROFILE" ]

  -- `if let Some(rest) = ... && let Some(home) = ...`
  abbrev pub under_home : Option String → Option String → String → String
  under_home (some rest) (some home) otherwise = join home rest
  under_home _ _ otherwise = otherwise

  unfoldable pub expand_tilde : String → String
  unfolding home_dir_string
  expand_tilde raw =
      if raw =ₛ "~"
      then or_raw raw home_dir_string
      else under_home (strip_prefix "~/" raw) home_dir_string
          (under_home (strip_prefix "~\\" raw) home_dir_string raw)

  unfoldable pub against : String → String → String
  against path base_dir = if is_absolute path then path else join base_dir path

  unfoldable pub resolve_path_like_shell : String → String → String
  unfolding expand_tilde against
  resolve_path_like_shell raw base_dir = against (expand_tilde raw) base_dir

  unfoldable pub resolve_data_path : String → String → String
  unfolding resolve_path_like_shell
  resolve_data_path raw base_dir =
      if contains "://" raw then raw else resolve_path_like_shell raw base_dir

  unfoldable pub resolve_log_dir : String → String → String → String
  unfolding resolve_path_like_shell
  resolve_log_dir configured_dir db_path base_dir =
      if not (is_empty configured_dir)
      then resolve_path_like_shell configured_dir base_dir
      else if contains "://" db_path
      then join base_dir "vldb-lancedb-logs"
      else join db_path "logs"
