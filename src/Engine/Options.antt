-- ===== src/Engine/Options.antt =====
-- src/engine.rs: `LanceDbEngineOptions`, its defaults, and the number of permits of an engine.
use vldb_lancedb.Prelude.{ℕ, ◌*◌, max}

pub record LanceDbEngineOptions : Type 0 where
  pub max_upsert_payload : ℕ
  pub max_search_limit : ℕ
  pub max_concurrent_requests : ℕ

-- `LanceDbEngineOptions::default`
abbrev pub default_options : LanceDbEngineOptions
default_options = record {
  max_upsert_payload = 50 * 1024 * 1024;
  max_search_limit = 10000;
  max_concurrent_requests = 500;
}

-- The semaphore of `LanceDbEngine::new`
unfoldable pub permits : LanceDbEngineOptions → ℕ
permits options = max options.max_concurrent_requests 1
