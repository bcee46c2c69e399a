-- ===== src/Engine/Tables/Locking.antt =====
-- Every operation of the engine keeps the discipline of its permit, its lock and its calls.
use vldb_lancedb.Engine.Tables.Requests.{
  serve, answer, Request, create, upsert, search_for, delete_rows, drop,
}
use vldb_lancedb.Engine.Exec.{EngineState}
use vldb_lancedb.Engine.Schema.{Schema}
use vldb_lancedb.Prelude.{String, List, ◌∷◌, ◌≡◌, some, []}
use vldb_lancedb.Types.{
  LanceDbCreateTableInput, LanceDbUpsertInput, LanceDbSearchInput, LanceDbDeleteInput,
  LanceDbDropTableInput, LanceDbOutputFormat,
}
use vldb_lancedb.External.SerdeJson.{SerdeJson}
use vldb_lancedb.External.Arrow.{Arrow}
use vldb_lancedb.External.Lance.{Lance}
use vldb_lancedb.Engine.Error.{LanceDbEngineError}
use vldb_lancedb.Engine.Options.{LanceDbEngineOptions}
use vldb_lancedb.Engine.Tables.{
  create_table, upsert_locked, vector_upsert, search_locked, encode_as, vector_search, delete,
  drop_table, write_rows, write_batches,
}
use vldb_lancedb.Engine.Tables.Discipline.{Keeps, idle, writing, reading, keeps_rules, phase_after}

module _ (J : SerdeJson) (panicked : LanceDbEngineError) (A : Arrow J.F32 J.F64)
    (L : Lance J.F32 A.RecordBatch) (options : LanceDbEngineOptions) where
  create_table-Keeps :
      (input : LanceDbCreateTableInput) → Keeps idle (create_table J panicked A L options input)
  unfolding create_table
  create_table-Keeps input = search keeps_rules depth 12

  upsert_locked-Keeps :
      (input : LanceDbUpsertInput) (name : String)
      → Keeps (writing name) (upsert_locked J panicked A L options input name)
  unfolding upsert_locked write_rows write_batches
  upsert_locked-Keeps input name = search keeps_rules depth 16

  vector_upsert-Keeps :
      (input : LanceDbUpsertInput) → Keeps idle (vector_upsert J panicked A L options input)
  unfolding vector_upsert
  vector_upsert-Keeps input = search (keeps_rules, upsert_locked-Keeps input) depth 12

  search_locked-Keeps :
      (input : LanceDbSearchInput J.F32) (name : String)
      → Keeps (reading name) (search_locked J panicked A L options input name)
  unfolding search_locked
  search_locked-Keeps input name = search keeps_rules depth 16

  encode_as-Keeps :
      (format : LanceDbOutputFormat) (schema : Schema) (batches : List A.RecordBatch)
      → Keeps idle (encode_as J panicked A L options format schema batches)
  unfolding encode_as
  encode_as-Keeps LanceDbOutputFormat.json_rows schema batches = search keeps_rules
  encode_as-Keeps _ schema batches = search keeps_rules

  vector_search-Keeps :
      (input : LanceDbSearchInput J.F32) → Keeps idle (vector_search J panicked A L options input)
  unfolding vector_search
  vector_search-Keeps input =
      search (keeps_rules, search_locked-Keeps input, encode_as-Keeps) depth 12

  delete-Keeps : (input : LanceDbDeleteInput) → Keeps idle (delete J panicked A L options input)
  unfolding delete
  delete-Keeps input = search keeps_rules depth 12

  drop_table-Keeps :
      (input : LanceDbDropTableInput) → Keeps idle (drop_table J panicked A L options input)
  unfolding drop_table
  drop_table-Keeps input = search keeps_rules depth 12

module _ (J : SerdeJson) (panicked : LanceDbEngineError) (A : Arrow J.F32 J.F64)
    (L : Lance J.F32 A.RecordBatch) (options : LanceDbEngineOptions) where
  answer-Keeps : (request : Request J.F32) → Keeps idle (answer J panicked A L options request)
  unfolding answer
  answer-Keeps (create input) =
      search (keeps_rules, create_table-Keeps J panicked A L options input) depth 6
  answer-Keeps (upsert input) =
      search (keeps_rules, vector_upsert-Keeps J panicked A L options input) depth 6
  answer-Keeps (search_for input) =
      search (keeps_rules, vector_search-Keeps J panicked A L options input) depth 6
  answer-Keeps (delete_rows input) =
      search (keeps_rules, delete-Keeps J panicked A L options input) depth 6
  answer-Keeps (drop input) =
      search (keeps_rules, drop_table-Keeps J panicked A L options input) depth 6

  -- Whatever requests are served in turn, with success or failure, from a state in which no permit and no
  -- lock is held: a lock is only taken after a permit was taken and dropped for it; every call of the
  -- database that the trace records is made under the lock of the very table that it names; a call that may
  -- write is made only under a write lock; and at the end every permit and every lock has been given back.
  pub serve-idle :
      (requests : List (Request J.F32)) (s : EngineState L.Db)
      → phase_after s.trace ≡ some idle
      → phase_after (serve J panicked A L options requests s).trace ≡ some idle
  unfolding serve
  serve-idle [] s h = h
  serve-idle (request ∷ requests) s h =
      serve-idle requests (answer J panicked A L options request s).1
        ((answer-Keeps request).at s h)
