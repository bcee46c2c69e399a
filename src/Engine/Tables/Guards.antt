-- ===== src/Engine/Tables/Guards.antt =====
-- Requests with invalid arguments are refused before anything is touched.
use vldb_lancedb.Engine.Schema.Columns.{build_arrow_schema-err}
use vldb_lancedb.Engine.Tables.{create_table, vector_upsert, vector_search, delete, drop_table}
use vldb_lancedb.Engine.Tables.Requests.{
  answer, Request, IsInvalid, drop, delete_rows, search_for, upsert, create,
}
use vldb_lancedb.Engine.Options.{LanceDbEngineOptions}
use vldb_lancedb.External.Lance.{Lance}
use vldb_lancedb.External.Arrow.{Arrow}
use vldb_lancedb.Engine.Exec.{EngineState, ◌>>=◌, refuse_if, lift}
use vldb_lancedb.Engine.Error.{LanceDbEngineError, invalid_argument}
use vldb_lancedb.External.SerdeJson.{SerdeJson}
use vldb_lancedb.Prelude.{Result, ok, err, ◌≡◌, arith, inl, inr}

-- The outcome is an invalid argument, and the state is the one before.
abbrev pub IsRefusal :
    {Db A : Type 0} → Result A LanceDbEngineError × EngineState Db → EngineState Db → Type 0
IsRefusal (ok a, s') s = ⊥
IsRefusal (err e, s') s = (e.kind ≡ invalid_argument) × (s' ≡ s)

module _ (J : SerdeJson) (panicked : LanceDbEngineError) (A : Arrow J.F32 J.F64)
    (L : Lance J.F32 A.RecordBatch) (options : LanceDbEngineOptions) where
  -- A request whose table name is blank, or whose columns, vector or condition are empty or invalid, or
  -- whose payload is larger than the maximum, ends in an invalid argument, and leaves the state as it
  -- was: no permit, no lock, no call.
  pub answer_of_IsInvalid :
      (request : Request J.F32) (s : EngineState L.Db)
      → IsInvalid J panicked A L options request
      → IsRefusal (answer J panicked A L options request s) s
  unfolding answer create_table vector_upsert vector_search delete drop_table ◌>>=◌ refuse_if lift
  answer_of_IsInvalid (drop input) s h = ground arith
  answer_of_IsInvalid (delete_rows input) s h = ground arith
  answer_of_IsInvalid (search_for input) s h = ground arith
  answer_of_IsInvalid (upsert input) s h = ground arith
  answer_of_IsInvalid (create input) s (inl h) = ground arith
  answer_of_IsInvalid (create input) s (inr (inl h)) = ground arith
  answer_of_IsInvalid (create input) s (inr (inr (e, h))) =
      ground (arith, build_arrow_schema-err input.columns e h)
