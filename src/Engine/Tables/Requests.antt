-- ===== src/Engine/Tables/Requests.antt =====
-- The five operations as one: a request, its reply, and requests served in turn.
use vldb_lancedb.Engine.Tables.{create_table, vector_upsert, vector_search, delete, drop_table}
use vldb_lancedb.Engine.Schema.{build_arrow_schema}
use vldb_lancedb.Engine.Exec.{◌>>=◌, Exec, EngineState, pure}
use vldb_lancedb.Prelude.{List, ◌≡◌, ◌∷◌, [], true, ◌⊎◌, is_nil, err, ◌<◌, length}
use vldb_lancedb.Text.{is_empty, trim}
use vldb_lancedb.Engine.Options.{LanceDbEngineOptions}
use vldb_lancedb.External.Lance.{Lance}
use vldb_lancedb.External.Arrow.{Arrow}
use vldb_lancedb.Engine.Error.{LanceDbEngineError}
use vldb_lancedb.Types.{
  LanceDbCreateTableResult, LanceDbCreateTableInput, LanceDbUpsertInput, LanceDbUpsertResult,
  LanceDbSearchInput, LanceDbSearchResult, LanceDbDeleteInput, LanceDbDeleteResult,
  LanceDbDropTableInput, LanceDbDropTableResult,
}
use vldb_lancedb.External.SerdeJson.{SerdeJson}

pub data Request (F32 : Type 0) : Type 0 where
  create : LanceDbCreateTableInput → Request F32
  upsert : LanceDbUpsertInput → Request F32
  search_for : LanceDbSearchInput F32 → Request F32
  delete_rows : LanceDbDeleteInput → Request F32
  drop : LanceDbDropTableInput → Request F32

pub data Reply : Type 0 where
  created : LanceDbCreateTableResult → Reply
  upserted : LanceDbUpsertResult → Reply
  found : LanceDbSearchResult → Reply
  deleted : LanceDbDeleteResult → Reply
  dropped : LanceDbDropTableResult → Reply

module _ (J : SerdeJson) (panicked : LanceDbEngineError) (A : Arrow J.F32 J.F64)
    (L : Lance J.F32 A.RecordBatch) (options : LanceDbEngineOptions) where
  unfoldable pub answer : Request J.F32 → Exec L.Db Reply
  answer (create input) = do r ← create_table J panicked A L options input; pure (created r)
  answer (upsert input) = do r ← vector_upsert J panicked A L options input; pure (upserted r)
  answer (search_for input) = do r ← vector_search J panicked A L options input; pure (found r)
  answer (delete_rows input) = do r ← delete J panicked A L options input; pure (deleted r)
  answer (drop input) = do r ← drop_table J panicked A L options input; pure (dropped r)

  unfoldable pub serve : List (Request J.F32) → EngineState L.Db → EngineState L.Db
  serve [] s = s
  serve (request ∷ requests) s = serve requests (answer request s).1

  -- The arguments that an operation refuses.
  abbrev pub IsInvalid : Request J.F32 → Type 0
  IsInvalid (create input) =
      (is_empty (trim input.table_name) ≡ true)
      ⊎ (is_nil input.columns ≡ true)
      ⊎ ((e : LanceDbEngineError) × (build_arrow_schema input.columns ≡ err e))
  IsInvalid (upsert input) =
      (is_empty (trim input.table_name) ≡ true) ⊎ (options.max_upsert_payload < length input.bytes)
  IsInvalid (search_for input) =
      (is_empty (trim input.table_name) ≡ true) ⊎ (is_nil input.vector ≡ true)
  IsInvalid (delete_rows input) =
      (is_empty (trim input.table_name) ≡ true) ⊎ (is_empty (trim input.condition) ≡ true)
  IsInvalid (drop input) = is_empty (trim input.table_name) ≡ true
