-- ===== src/Manager.antt =====
-- src/manager.rs: the paths and the keys of databases. An error that `invalid_input` builds is told
-- from the errors of the file system and of lancedb, which are given by the text that they display.
pub mod Names
pub mod Keys
pub mod Cache
pub mod Containment
use vldb_lancedb.Text.FilePath.{Component, normal, join, components}
use vldb_lancedb.Text.{
  contains, is_empty, trim_end_matches, strip_prefix, contains_char, to_ascii_lowercase, trim,
}
use vldb_lancedb.Prelude.{
  [], ◌>>=◌, ◌>>◌, ok_or, List, String, Bool, Option, not, is_some, Result, ℕ, some, if◌then◌else◌,
  none, ◌∷◌, ok, ◌<>◌, ◌||◌, true, err, false,
}

pub data BoxError : Type 0 where
  invalid_input other_error : String → BoxError

pub record DatabaseRuntimeConfig : Type 0 where
  pub default_db_path : String
  pub db_root : Option String
  pub read_consistency_interval_ms : Option ℕ

unfoldable pub looks_like_uri : String → Bool
looks_like_uri value = contains "://" value

unfoldable pub is_plain_s3_uri : String → Bool
is_plain_s3_uri value = is_some (strip_prefix "s3://" (to_ascii_lowercase value))

unfoldable pub is_local_default_db_path : DatabaseRuntimeConfig → Bool
unfolding looks_like_uri
is_local_default_db_path config = not (looks_like_uri config.default_db_path)

abbrev pub plain_s3_warning : String
plain_s3_warning =
    "plain s3:// storage is not safe for concurrent LanceDB writers; use s3+ddb:// for multi-writer deployments or ensure this service is the only writer for each table"

unfoldable pub concurrent_write_warning : DatabaseRuntimeConfig → Option String
unfolding is_plain_s3_uri
concurrent_write_warning config =
    if is_plain_s3_uri config.default_db_path then some plain_s3_warning else none

-- The match of `validate_database_name` on the first two components
unfoldable pub is_one_normal : List Component → Bool
is_one_normal (normal part ∷ []) = true
is_one_normal _ = false

unfoldable pub validate_database_name : String → Result (Unit {0}) BoxError
validate_database_name name =
    if contains_char b'/' name || contains_char b'\\' name
    then err (invalid_input ("database `" <> name <> "` must not contain path separators"))
    else if is_one_normal (components name)
    then ok tt
    else err (invalid_input ("database `" <> name <> "` must be a single path segment"))

unfoldable pub join_database_root : String → String → String
join_database_root db_root name =
    if looks_like_uri db_root
    then trim_end_matches b'/' db_root <> ("/" <> name)
    else join db_root name

-- `database_name.map(str::trim).filter(|value| !value.is_empty())`
unfoldable pub filter_name : Option String → Option String
filter_name none = none
filter_name (some name) = if is_empty (trim name) then none else some (trim name)

unfoldable pub path_of_normalized : DatabaseRuntimeConfig → Option String → Result String BoxError
path_of_normalized config none = ok config.default_db_path
path_of_normalized config (some name) = do
  validate_database_name name
  db_root ←
      ok_or config.db_root
        (invalid_input ("database `" <> name <> "` requires a database root to be configured"))
  ok (join_database_root db_root name)

unfoldable pub database_path_for_name :
    DatabaseRuntimeConfig → Option String → Result String BoxError
unfolding filter_name path_of_normalized
database_path_for_name config name = path_of_normalized config (filter_name name)

abbrev pub key_of : Option String → String
key_of none = "default"
key_of (some name) = name

unfoldable pub normalize_database_key : Option String → String
unfolding filter_name
normalize_database_key name = key_of (filter_name name)
