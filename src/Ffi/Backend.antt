-- ===== src/Ffi/Backend.antt =====
-- What the C interface asks of the library beneath it: runtimes, engines and their operations. An error is
-- given by the text that it displays. Runtime/Library fills it with the modelled library.
use vldb_lancedb.Types.{
  LanceDbCreateTableInput, LanceDbCreateTableResult, LanceDbUpsertInput, LanceDbUpsertResult,
  LanceDbSearchInput, LanceDbSearchResult, LanceDbDeleteInput, LanceDbDeleteResult,
  LanceDbDropTableInput, LanceDbDropTableResult,
}
use vldb_lancedb.Engine.Options.{LanceDbEngineOptions}
use vldb_lancedb.Manager.{DatabaseRuntimeConfig}
use vldb_lancedb.Prelude.{Option, Result, String}

abbrev pub Job : Type 0 → Type 0 → Type 0
Job World A = World → Option (Result A String) × World

-- A job that panics has no result.
pub record Backend : Type 1 where
  pub F32 : Type 0
  pub Runtime : Type 0
  pub Engine : Type 0
  pub World : Type 0
  pub new_runtime : DatabaseRuntimeConfig → LanceDbEngineOptions → World → Runtime × World
  pub database_path_for_name : Runtime → Option String → World → Result String String
  pub open_named_engine : Runtime → Option String → Job World Engine
  pub create_table : Engine → LanceDbCreateTableInput → Job World LanceDbCreateTableResult
  pub vector_upsert : Engine → LanceDbUpsertInput → Job World LanceDbUpsertResult
  pub vector_search : Engine → LanceDbSearchInput F32 → Job World LanceDbSearchResult
  pub delete : Engine → LanceDbDeleteInput → Job World LanceDbDeleteResult
  pub drop_table : Engine → LanceDbDropTableInput → Job World LanceDbDropTableResult
