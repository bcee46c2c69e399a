-- ===== src/Ffi/Options.antt =====
-- src/ffi.rs: the options of a runtime, zero standing for a default.
use vldb_lancedb.Manager.{DatabaseRuntimeConfig}
use vldb_lancedb.Ffi.CText.{normalize_non_zero, required_c_string, optional_c_string}
use vldb_lancedb.Engine.Options.{LanceDbEngineOptions, default_options}
use vldb_lancedb.Prelude.{none, Result, String, ◌>>=◌, ok, if◌then◌else◌, ◌==◌, some}
use vldb_lancedb.Ffi.{VldbLancedbRuntimeOptions}

unfoldable pub runtime_options_default : VldbLancedbRuntimeOptions
runtime_options_default = record {
  default_db_path = none;
  db_root = none;
  read_consistency_interval_ms = 0;
  has_read_consistency_interval = 1;
  max_upsert_payload = default_options.max_upsert_payload;
  max_search_limit = default_options.max_search_limit;
  max_concurrent_requests = default_options.max_concurrent_requests;
}

unfoldable pub engine_options_of : VldbLancedbRuntimeOptions → LanceDbEngineOptions
engine_options_of options = record {
  max_upsert_payload =
      normalize_non_zero options.max_upsert_payload default_options.max_upsert_payload;
  max_search_limit = normalize_non_zero options.max_search_limit default_options.max_search_limit;
  max_concurrent_requests =
      normalize_non_zero options.max_concurrent_requests default_options.max_concurrent_requests;
}

-- `build_runtime_from_options` up to the construction of the runtime
unfoldable pub build_runtime_from_options :
    VldbLancedbRuntimeOptions → Result (DatabaseRuntimeConfig × LanceDbEngineOptions) String
unfolding engine_options_of
build_runtime_from_options options = do
  default_db_path ← required_c_string options.default_db_path "default_db_path"
  db_root ← optional_c_string options.db_root "db_root"
  ok (
    record {
      default_db_path = default_db_path;
      db_root = db_root;
      read_consistency_interval_ms =
          if options.has_read_consistency_interval == 0
          then none
          else some options.read_consistency_interval_ms;
    },
    engine_options_of options,
  )
