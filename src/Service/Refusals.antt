-- ===== src/Service/Refusals.antt =====
-- What the handlers of the service answer to requests that the engine refuses.
use vldb_lancedb.Engine.Options.{LanceDbEngineOptions}
use vldb_lancedb.External.Lance.{Lance}
use vldb_lancedb.External.Arrow.{Arrow}
use vldb_lancedb.Engine.Tables.Guards.{IsRefusal, answer_of_IsInvalid}
use vldb_lancedb.Engine.Error.{LanceDbEngineError}
use vldb_lancedb.External.SerdeJson.{SerdeJson}
use vldb_lancedb.Engine.Exec.{EngineState, pure, Exec, ◌>>=◌, continue}
use vldb_lancedb.Service.{
  Status, map_engine_error, map_column_def, map_input_format, map_output_format, Code,
}
use vldb_lancedb.Service.Log.{Display, RequestLogContext, LogEntry}
use vldb_lancedb.Prelude.{
  arith, refl, Result, map, Option, ℕ, ok, err, ◌≡◌, none, ◌⊎◌, some, inl, inr, String, List,
}
use vldb_lancedb.Service.Messages.{
  CreateTableRequest, UpsertRequest, SearchRequest, DeleteRequest, DropTableRequest,
}
use vldb_lancedb.Service.Handlers.{
  with_timeout, handle, conclude, ServiceState, Course, ServiceConfig, serve_create_table,
  serve_vector_upsert, serve_vector_search, serve_delete, serve_drop_table,
}
use vldb_lancedb.Engine.Tables.Requests.{Request, answer, IsInvalid}

-- A request of the service
pub data Rpc (F32 : Type 0) : Type 0 where
  create : CreateTableRequest → Rpc F32
  upsert : UpsertRequest → Rpc F32
  search_for : SearchRequest F32 → Rpc F32
  delete_rows : DeleteRequest → Rpc F32
  drop : DropTableRequest → Rpc F32

-- What a request asks of the engine
abbrev pub asked : {F32 : Type 0} → Rpc F32 → Request F32
asked (create req) = Request.create (record {
  table_name = req.table_name;
  columns = map map_column_def req.columns;
  overwrite_if_exists = req.overwrite_if_exists;
})
asked (upsert req) = Request.upsert (record {
  table_name = req.table_name;
  input_format = map_input_format req.input_format;
  bytes = req.bytes;
  key_columns = req.key_columns;
})
asked (search_for req) = Request.search_for (record {
  table_name = req.table_name;
  vector = req.vector;
  limit = req.limit;
  filter = req.filter;
  vector_column = req.vector_column;
  output_format = map_output_format req.output_format;
})
asked (delete_rows req) =
    Request.delete_rows (record { table_name = req.table_name; condition = req.condition })
asked (drop req) = Request.drop (record { table_name = req.table_name })

-- The reply is an invalid argument, and the engine is left as it was.
abbrev pub IsRefused :
    {Db Response : Type 0} → Result Response Status × ServiceState Db → EngineState Db → Type 0
IsRefused (ok response, s') engine = ⊥
IsRefused (err status, s') engine = (status.code ≡ Code.invalid_argument) × (s'.engine ≡ engine)

with_timeout-runs :
    {Db R : Type 0} (display : Display) (timeout : Option ℕ) (course : Course Db)
    (future : Exec Db R) (s : EngineState Db)
    → (timeout ≡ none) ⊎ (course.dropped ≡ none)
    → with_timeout display timeout course future s ≡ (ok (future s).0, (future s).1)
unfolding with_timeout
with_timeout-runs display none course future s h = refl
with_timeout-runs display (some t) course future s (inl h) = cc
with_timeout-runs display (some t) course future s (inr h) = rw h

IsRefused-handle :
    {Db R Response Reply : Type 0} (display : Display) (detail : R → String)
    (response : R → Response) (config : ServiceConfig) (operation : String)
    (remote_addr : Option String) (summary : String) (future : Exec Db R) (wrap : R → Reply)
    (course : Course Db) (s : ServiceState Db)
    → (config.request_timeout ≡ none) ⊎ (course.dropped ≡ none)
    → IsRefusal ((future >>= λ r. pure (wrap r)) s.engine) s.engine
    → IsRefused
        (handle display detail response config operation remote_addr summary future course s)
        s.engine
unfolding handle conclude map_engine_error ◌>>=◌ pure
IsRefused-handle {Db = Db} {R = R} display detail response config operation remote_addr summary
      future wrap course s unhurried h =
    rw (with_timeout-runs display config.request_timeout course future s.engine unhurried)
      (go _ _ _ (future s.engine) h)
  where
    go :
        (context : RequestLogContext) (log : List LogEntry) (next : ℕ)
        (o : Result R LanceDbEngineError × EngineState Db)
        → IsRefusal (continue o.0 (λ r. pure (wrap r)) o.1) s.engine
        → IsRefused
            (
              (conclude display detail response context course.elapsed (ok o.0) log).0,
              record {
                engine = o.1;
                log = (conclude display detail response context course.elapsed (ok o.0) log).1;
                next_request_id = next;
              },
            )
            s.engine
    go context log next (ok result, after) k = absurd k
    go context log next (err error, after) (kind, same) = (ground arith, same)

module _ (J : SerdeJson) (panicked : LanceDbEngineError) (A : Arrow J.F32 J.F64)
    (L : Lance J.F32 A.RecordBatch) (options : LanceDbEngineOptions) (display : Display)
    (config : ServiceConfig) where
  -- The handler of a request refuses it.
  abbrev pub Refuses : Option String → Rpc J.F32 → Course L.Db → ServiceState L.Db → Type 0
  Refuses remote_addr (create req) course s =
      IsRefused (serve_create_table J panicked A L options display config remote_addr req course s)
        s.engine
  Refuses remote_addr (upsert req) course s =
      IsRefused (serve_vector_upsert J panicked A L options display config remote_addr req course s)
        s.engine
  Refuses remote_addr (search_for req) course s =
      IsRefused (serve_vector_search J panicked A L options display config remote_addr req course s)
        s.engine
  Refuses remote_addr (delete_rows req) course s =
      IsRefused (serve_delete J panicked A L options display config remote_addr req course s)
        s.engine
  Refuses remote_addr (drop req) course s =
      IsRefused (serve_drop_table J panicked A L options display config remote_addr req course s)
        s.engine

  -- A request of the service that is not cut off and whose table name is blank, or whose columns, vector or
  -- condition are empty or invalid, or whose payload is larger than the maximum, is answered with the status
  -- `invalid_argument`, and leaves the engine as it was: no permit, no lock, no call.
  pub Refuses-IsInvalid :
      (remote_addr : Option String) (rpc : Rpc J.F32) (course : Course L.Db) (s : ServiceState L.Db)
      → (config.request_timeout ≡ none) ⊎ (course.dropped ≡ none)
      → IsInvalid J panicked A L options (asked rpc)
      → Refuses remote_addr rpc course s
  unfolding serve_create_table serve_vector_upsert serve_vector_search serve_delete serve_drop_table
      answer
  Refuses-IsInvalid remote_addr rpc course s unhurried h =
      go rpc (answer_of_IsInvalid J panicked A L options (asked rpc) s.engine h)
    where
      go :
          (given : Rpc J.F32)
          → IsRefusal (answer J panicked A L options (asked given) s.engine) s.engine
          → Refuses remote_addr given course s
      go (create req) k = IsRefused-handle _ _ _ _ _ _ _ _ _ course s unhurried k
      go (upsert req) k = IsRefused-handle _ _ _ _ _ _ _ _ _ course s unhurried k
      go (search_for req) k = IsRefused-handle _ _ _ _ _ _ _ _ _ course s unhurried k
      go (delete_rows req) k = IsRefused-handle _ _ _ _ _ _ _ _ _ course s unhurried k
      go (drop req) k = IsRefused-handle _ _ _ _ _ _ _ _ _ course s unhurried k
