-- ===== src/Engine/Tables.antt =====
-- src/engine.rs: the five operations of `LanceDbEngine`.
pub mod Discipline
pub mod Guards
pub mod Locking
pub mod Success
pub mod Exact
pub mod Upserts
pub mod Searches
pub mod Requests
use vldb_lancedb.Prelude.{
  ℕ, String, ◌<>◌, Bool, true, false, List, [], ◌∷◌, Option, none, some, length, is_nil, ltb, ◌==◌,
  min, if◌then◌else◌, map_err,
}
use vldb_lancedb.Text.{trim, is_empty}
use vldb_lancedb.Text.Format.{show}
use vldb_lancedb.Types.{
  LanceDbCreateTableInput, LanceDbCreateTableResult, LanceDbUpsertInput, LanceDbUpsertResult,
  LanceDbSearchInput, LanceDbSearchResult, LanceDbDeleteInput, LanceDbDeleteResult,
  LanceDbDropTableInput, LanceDbDropTableResult, LanceDbOutputFormat,
}
use vldb_lancedb.External.SerdeJson.{SerdeJson}
use vldb_lancedb.External.Arrow.{Arrow}
use vldb_lancedb.External.Lance.{Lance, create, overwrite, append, VectorQuery, MergeInsert}
use vldb_lancedb.Engine.Error.{LanceDbEngineError, invalid_argument_error, to_engine_error}
use vldb_lancedb.Engine.Options.{LanceDbEngineOptions}
use vldb_lancedb.Engine.Schema.{Schema, build_arrow_schema}
use vldb_lancedb.Engine.Decode.{decode_input_to_batches}
use vldb_lancedb.Engine.Encode.{
  normalize_output_format, encode_batches_as_json, encode_batches_as_arrow_ipc, count_rows,
}
use vldb_lancedb.Engine.Exec.{
  Operation, Exec, pure, fail, lift, request, holding_write, holding_read, ◌>>=◌, ◌>>◌, refuse_if,
  acquire_concurrency_permit,
}

unfoldable pub normalize_table_name : String → String
normalize_table_name table_name = trim table_name

-- The limit that a search passes on
unfoldable pub effective_limit : LanceDbEngineOptions → ℕ → ℕ
effective_limit options limit = if limit == 0 then 10 else min limit options.max_search_limit

abbrev pub non_blank : String → Option String
non_blank text = if is_empty (trim text) then none else some (trim text)

unfoldable pub build_query :
    {F32 : Type 0} → LanceDbEngineOptions → LanceDbSearchInput F32 → VectorQuery F32
build_query options input = record {
  nearest_to = input.vector;
  column = non_blank input.vector_column;
  limit = some (effective_limit options input.limit);
  only_if = non_blank input.filter;
}

empty_name : LanceDbEngineError
empty_name = invalid_argument_error "table_name must not be empty"

module _ (J : SerdeJson) (panicked : LanceDbEngineError) (A : Arrow J.F32 J.F64)
    (L : Lance J.F32 A.RecordBatch) (options : LanceDbEngineOptions) where
  open J use {F32, F64}
  open A use {RecordBatch}
  open L use {Db, Table}

  unfoldable pub create_table : LanceDbCreateTableInput → Exec Db LanceDbCreateTableResult
  unfolding empty_name normalize_table_name
  create_table input = do
    let table_name = normalize_table_name input.table_name
    refuse_if (is_empty table_name) empty_name
    refuse_if (is_nil input.columns) (invalid_argument_error "columns must not be empty")
    schema ← lift (build_arrow_schema input.columns)
    acquire_concurrency_permit
    holding_write table_name (do
      request Operation.create_empty_table table_name (
          L.create_empty_table table_name schema
            (if input.overwrite_if_exists then overwrite else create))
      pure (record { message = "table '" <> table_name <> "' is ready" }))

  abbrev open_table : String → Exec Db Table
  open_table name = request Operation.open_table name (L.open_table name)

  -- What `vector_upsert` does with at least one decoded row
  unfoldable pub write_batches :
      LanceDbUpsertInput
      → String
      → Table
      → Schema
      → List RecordBatch
      → ℕ
      → Exec Db LanceDbUpsertResult
  write_batches input name table schema batches input_rows =
      if is_nil input.key_columns
      then (do
        request Operation.add name (L.add table append schema batches)
        version ← request Operation.version name (L.version table)
        pure (record {
          message = "append completed";
          version = version;
          input_rows = input_rows;
          inserted_rows = input_rows;
          updated_rows = 0;
          deleted_rows = 0;
        }))
      else (do
        result ← request Operation.merge_insert name (
            L.merge_insert table
              (record {
                keys = input.key_columns;
                when_matched_update_all = true;
                when_not_matched_insert_all = true;
              })
              schema batches)
        pure (record {
          message = "merge upsert completed";
          version = result.version;
          input_rows = input_rows;
          inserted_rows = result.num_inserted_rows;
          updated_rows = result.num_updated_rows;
          deleted_rows = result.num_deleted_rows;
        }))

  -- What `vector_upsert` does once the rows are decoded
  unfoldable pub write_rows :
      LanceDbUpsertInput → String → Table → List RecordBatch → ℕ → Exec Db LanceDbUpsertResult
  write_rows input name table batches input_rows =
      if input_rows == 0
      then (do
        version ← request Operation.version name (L.version table)
        pure (record {
          message = "no rows to write";
          version = version;
          input_rows = 0;
          inserted_rows = 0;
          updated_rows = 0;
          deleted_rows = 0;
        }))
      else (do
        schema ← request Operation.schema name (L.schema table)
        write_batches input name table schema batches input_rows)

  -- The body of `vector_upsert` under the lock
  unfoldable pub upsert_locked : LanceDbUpsertInput → String → Exec Db LanceDbUpsertResult
  upsert_locked input name = do
    table ← open_table name
    schema ← request Operation.schema name (L.schema table)
    (batches, input_rows) ← lift (decode_input_to_batches J A input.input_format input.bytes schema)
    write_rows input name table batches input_rows

  unfoldable pub vector_upsert : LanceDbUpsertInput → Exec Db LanceDbUpsertResult
  unfolding empty_name normalize_table_name
  vector_upsert input = do
    let table_name = normalize_table_name input.table_name
    refuse_if (is_empty table_name) empty_name
    refuse_if (ltb options.max_upsert_payload (length input.bytes)) (
        invalid_argument_error (
          "payload too large: "
          <> show (length input.bytes)
          <> " bytes (max "
          <> show options.max_upsert_payload
          <> ")"))
    acquire_concurrency_permit
    holding_write table_name (upsert_locked input table_name)

  -- The block of `vector_search` that holds the lock
  unfoldable pub search_locked :
      LanceDbSearchInput F32 → String → Exec Db (List RecordBatch × Schema)
  search_locked input name = do
    table ← open_table name
    lift (map_err to_engine_error (L.nearest_to table input.vector))
    let query = build_query options input
    schema ← request Operation.output_schema name (L.output_schema table query)
    stream ← request Operation.execute name (L.execute table query)
    batches ← request Operation.try_collect name (L.try_collect stream)
    pure (batches, schema)

  unfoldable pub encode_as : LanceDbOutputFormat → Schema → List RecordBatch → Exec Db (List ℕ)
  encode_as LanceDbOutputFormat.json_rows schema batches =
      lift (encode_batches_as_json J panicked A schema batches)
  encode_as _ schema batches = lift (encode_batches_as_arrow_ipc A schema batches)

  unfoldable pub vector_search : LanceDbSearchInput F32 → Exec Db LanceDbSearchResult
  unfolding empty_name normalize_table_name
  vector_search input = do
    let table_name = normalize_table_name input.table_name
    refuse_if (is_empty table_name) empty_name
    refuse_if (is_nil input.vector) (invalid_argument_error "vector must not be empty")
    acquire_concurrency_permit
    (batches, schema) ← holding_read table_name (search_locked input table_name)
    let output_format = normalize_output_format input.output_format
    encoded ← encode_as output_format schema batches
    pure (record {
      message = "search completed";
      format = output_format;
      rows = count_rows A batches;
      bytes = encoded;
    })

  unfoldable pub delete : LanceDbDeleteInput → Exec Db LanceDbDeleteResult
  unfolding empty_name normalize_table_name
  delete input = do
    let table_name = normalize_table_name input.table_name
    refuse_if (is_empty table_name) empty_name
    refuse_if (is_empty (trim input.condition))
        (invalid_argument_error "condition must not be empty")
    acquire_concurrency_permit
    holding_write table_name (do
      table ← open_table table_name
      result ← request Operation.delete table_name (L.delete table (trim input.condition))
      pure (record {
        message = "delete completed for '" <> table_name <> "'";
        version = result.version;
        deleted_rows = result.num_deleted_rows;
      }))

  unfoldable pub drop_table : LanceDbDropTableInput → Exec Db LanceDbDropTableResult
  unfolding empty_name normalize_table_name
  drop_table input = do
    let table_name = normalize_table_name input.table_name
    refuse_if (is_empty table_name) empty_name
    acquire_concurrency_permit
    holding_write table_name (do
      request Operation.drop_table table_name (L.drop_table table_name)
      pure (record { message = "table '" <> table_name <> "' dropped" }))
