-- ===== src/Service/Handlers.antt =====
-- src/service.rs: `LanceDbGrpcService` and its five handlers. A request of the engine either runs to its
-- end or, where a timeout is set, is dropped at one of its waits, with part of its work done.
use vldb_lancedb.Logging.{LoggingConfig}
use vldb_lancedb.Service.Messages.{
  UpsertRequest, DropTableRequest, CreateTableRequest, SearchRequest, DeleteRequest, DeleteResponse,
  CreateTableResponse, DropTableResponse, SearchResponse, UpsertResponse,
}
use vldb_lancedb.Service.Preview.{preview_text}
use vldb_lancedb.Engine.Tables.{drop_table, vector_search, vector_upsert, delete, create_table}
use vldb_lancedb.Text.{trim}
use vldb_lancedb.Types.{as_wire_name}
use vldb_lancedb.Text.Format.{show}
use vldb_lancedb.Engine.Options.{LanceDbEngineOptions}
use vldb_lancedb.External.Lance.{Lance}
use vldb_lancedb.External.Arrow.{Arrow}
use vldb_lancedb.Service.{
  Status, map_engine_error, map_output_format, map_input_format, map_column_def, Code,
}
use vldb_lancedb.Engine.Error.{LanceDbEngineError}
use vldb_lancedb.Engine.Exec.{EngineState, Exec}
use vldb_lancedb.External.SerdeJson.{SerdeJson}
use vldb_lancedb.Service.Log.{
  Display, RequestLogContext, LogEntry, build_request_context, log_request_succeeded,
  log_request_started, log_request_failed,
}
use vldb_lancedb.Prelude.{
  Bool, Option, String, ℕ, true, List, false, Result, err, ok, ◌<>◌, length, map, some, none,
}

-- `next_request_id` is the counter that all services share.
pub record ServiceState (Db : Type 0) : Type 0 where
  pub engine : EngineState Db
  pub log : List LogEntry
  pub next_request_id : ℕ

pub record ServiceConfig : Type 0 where
  pub request_timeout : Option ℕ
  pub logging : LoggingConfig

-- How the surroundings let a request run: how long it takes in milliseconds, and, if its time runs out
-- before its end, the state that the dropped work leaves behind.
pub record Course (Db : Type 0) : Type 0 where
  pub elapsed : ℕ
  pub dropped : Option (EngineState Db → EngineState Db)

abbrev show_bool : Bool → String
show_bool true = "true"
show_bool false = "false"

module _ (display : Display) {Db R : Type 0} where
  abbrev run_to_end :
      Exec Db R → EngineState Db → Result (Result R LanceDbEngineError) Status × EngineState Db
  run_to_end future s = let (r, s') = future s in (ok r, s')

  abbrev race :
      Option ℕ
      → Option (EngineState Db → EngineState Db)
      → Exec Db R
      → EngineState Db
      → Result (Result R LanceDbEngineError) Status × EngineState Db
  race none dropped future s = run_to_end future s
  race (some timeout) none future s = run_to_end future s
  race (some timeout) (some cut) future s = (
    err (record {
      code = Code.deadline_exceeded;
      message = "request timeout after " <> display.debug_timeout timeout;
    }),
    cut s,
  )

  -- `with_timeout`
  unfoldable pub with_timeout :
      Option ℕ
      → Course Db
      → Exec Db R
      → EngineState Db
      → Result (Result R LanceDbEngineError) Status × EngineState Db
  with_timeout timeout course future s = race timeout course.dropped future s

module _ (display : Display) {R Response : Type 0} (detail : R → String)
    (response : R → Response) where
  -- The match at the end of a handler; the `?` on a timeout leaves it without a log entry.
  unfoldable pub conclude :
      RequestLogContext
      → ℕ
      → Result (Result R LanceDbEngineError) Status
      → List LogEntry
      → Result Response Status × List LogEntry
  conclude context elapsed (err status) log = (err status, log)
  conclude context elapsed (ok (ok result)) log =
      (ok (response result), log_request_succeeded context elapsed (detail result) log)
  conclude context elapsed (ok (err error)) log =
      let status = map_engine_error error in
      (err status, log_request_failed display context elapsed status log)

  module _ {Db : Type 0} where
    -- What the five handlers share, from `build_request_context` on
    unfoldable pub handle :
        ServiceConfig
        → String
        → Option String
        → String
        → Exec Db R
        → Course Db
        → ServiceState Db
        → Result Response Status × ServiceState Db
    unfolding with_timeout conclude
    handle config operation remote_addr summary future course s =
        let (context, next) =
          build_request_context config.logging operation remote_addr summary s.next_request_id in
        let started = log_request_started context s.log in
        let (answered, engine) =
          with_timeout display config.request_timeout course future s.engine in
        let (reply, log) = conclude context course.elapsed answered started in
        (reply, record { engine = engine; log = log; next_request_id = next })

module _ (J : SerdeJson) (panicked : LanceDbEngineError) (A : Arrow J.F32 J.F64)
    (L : Lance J.F32 A.RecordBatch) (options : LanceDbEngineOptions) (display : Display)
    (config : ServiceConfig) where
  open L use {Db}

  abbrev pub Handler : Type 0 → Type 0 → Type 0
  Handler Request Response =
      Option String
      → Request
      → Course Db
      → ServiceState Db
      → Result Response Status × ServiceState Db

  unfoldable pub serve_create_table : Handler CreateTableRequest CreateTableResponse
  unfolding handle
  serve_create_table remote_addr req =
      handle display (λ result. result.message)
        (λ result. record { success = true; message = result.message }) config "create_table"
        remote_addr
        ("table="
          <> trim req.table_name
          <> " columns="
          <> show (length req.columns)
          <> " overwrite_if_exists="
          <> show_bool req.overwrite_if_exists)
        (create_table J panicked A L options (record {
          table_name = req.table_name;
          columns = map map_column_def req.columns;
          overwrite_if_exists = req.overwrite_if_exists;
        }))

  unfoldable pub serve_vector_upsert : Handler UpsertRequest UpsertResponse
  unfolding handle
  serve_vector_upsert remote_addr req =
      handle display (λ result. result.message)
        (λ result. record {
          success = true;
          message = result.message;
          version = result.version;
          input_rows = result.input_rows;
          inserted_rows = result.inserted_rows;
          updated_rows = result.updated_rows;
          deleted_rows = result.deleted_rows;
        })
        config "vector_upsert" remote_addr
        ("table="
          <> trim req.table_name
          <> " key_columns="
          <> show (length req.key_columns)
          <> " input_format="
          <> display.debug_input_format req.input_format
          <> " payload_bytes="
          <> show (length req.bytes))
        (vector_upsert J panicked A L options (record {
          table_name = req.table_name;
          input_format = map_input_format req.input_format;
          bytes = req.bytes;
          key_columns = req.key_columns;
        }))

  unfoldable pub serve_vector_search : Handler (SearchRequest J.F32) SearchResponse
  unfolding handle
  serve_vector_search remote_addr req =
      handle display
        (λ result. show result.rows <> " rows encoded as " <> as_wire_name result.format)
        (λ result. record {
          success = true;
          message = result.message;
          format = as_wire_name result.format;
          rows = result.rows;
          bytes = result.bytes;
        })
        config "vector_search" remote_addr
        ("table="
          <> trim req.table_name
          <> " vector_dim="
          <> show (length req.vector)
          <> " limit="
          <> show req.limit
          <> " output_format="
          <> display.debug_output_format req.output_format
          <> " filter=\""
          <> preview_text (trim req.filter) config.logging.request_preview_chars
          <> "\"")
        (vector_search J panicked A L options (record {
          table_name = req.table_name;
          vector = req.vector;
          limit = req.limit;
          filter = req.filter;
          vector_column = req.vector_column;
          output_format = map_output_format req.output_format;
        }))

  unfoldable pub serve_delete : Handler DeleteRequest DeleteResponse
  unfolding handle
  serve_delete remote_addr req =
      handle display (λ result. "deleted_rows=" <> show result.deleted_rows)
        (λ result. record {
          success = true;
          message = result.message;
          version = result.version;
          deleted_rows = result.deleted_rows;
        })
        config "delete" remote_addr
        ("table="
          <> trim req.table_name
          <> " condition=\""
          <> preview_text (trim req.condition) config.logging.request_preview_chars
          <> "\"")
        (delete J panicked A L options
          (record { table_name = req.table_name; condition = req.condition }))

  unfoldable pub serve_drop_table : Handler DropTableRequest DropTableResponse
  unfolding handle
  serve_drop_table remote_addr req =
      handle display (λ result. result.message)
        (λ result. record { success = true; message = result.message }) config "drop_table"
        remote_addr ("table=" <> trim req.table_name)
        (drop_table J panicked A L options (record { table_name = req.table_name }))
