-- ===== src/Engine/Decode.antt =====
-- src/engine.rs: `decode_input_to_batches` and the two decoders, down to `json_rows_to_record_batch`.
pub mod Rows
use vldb_lancedb.Prelude.{
  ℕ, ◌+◌, ◌^◌, ◌%◌, String, ◌<>◌, List, [], ◌∷◌, ◌++◌, Result, ok, err, ◌>>=◌, map_err, is_nil,
  if◌then◌else◌,
}
use vldb_lancedb.Types.{LanceDbInputFormat}
use vldb_lancedb.External.SerdeJson.{SerdeJson}
use vldb_lancedb.External.Arrow.{ArrayRef, Arrow}
use vldb_lancedb.Engine.Error.{LanceDbEngineError, invalid_argument_error, to_engine_error}
use vldb_lancedb.Engine.Schema.{Schema, Field, field}
use vldb_lancedb.Engine.Ingest.{build_array_for_field}

-- `+=` on a u64
abbrev pub add_u64 : ℕ → ℕ → ℕ
add_u64 a b = (a + b) % 2 ^ 64

module _ (J : SerdeJson) (A : Arrow J.F32 J.F64) where
  open J use {Value, F32, F64}
  open A use {RecordBatch}

  -- The loop over the fields of the schema
  unfoldable pub build_arrays :
      List Value → Schema → Result (List (ArrayRef F32 F64)) LanceDbEngineError
  build_arrays rows [] = ok []
  build_arrays rows (field name data_type nullable ∷ fields) = do
    array ← build_array_for_field J A rows name data_type nullable
    arrays ← build_arrays rows fields
    ok (array ∷ arrays)

  unfoldable pub json_rows_to_record_batch :
      List Value → Schema → Result RecordBatch LanceDbEngineError
  json_rows_to_record_batch rows schema = do
    arrays ← build_arrays rows schema
    map_err to_engine_error (A.try_new schema arrays)

  unfoldable pub parse_rows : List ℕ → Result (List Value) LanceDbEngineError
  parse_rows bytes =
      if is_nil bytes
      then ok []
      else map_err
          (λ e.
            invalid_argument_error
              ("failed to parse JSON rows, expected a JSON array of objects: " <> e))
          (J.from_slice bytes)

  unfoldable pub decode_json_rows_to_batches :
      List ℕ → Schema → Result (List RecordBatch × ℕ) LanceDbEngineError
  decode_json_rows_to_batches bytes schema = do
    rows ← parse_rows bytes
    batch ← json_rows_to_record_batch rows schema
    ok (batch ∷ [], A.num_rows batch)

  -- The loop over the batches of the stream, with its two variables
  unfoldable pub read_batches :
      List (Result RecordBatch String)
      → List RecordBatch
      → ℕ
      → Result (List RecordBatch × ℕ) LanceDbEngineError
  read_batches [] batches rows = ok (batches, rows)
  read_batches (item ∷ items) batches rows = do
    batch ← map_err to_engine_error item
    read_batches items (batches ++ batch ∷ []) (add_u64 rows (A.num_rows batch))

  unfoldable pub decode_arrow_ipc_to_batches :
      List ℕ → Result (List RecordBatch × ℕ) LanceDbEngineError
  decode_arrow_ipc_to_batches bytes = do
    items ← map_err to_engine_error (A.read_stream bytes)
    read_batches items [] 0

  unfoldable pub decode_input_to_batches :
      LanceDbInputFormat → List ℕ → Schema → Result (List RecordBatch × ℕ) LanceDbEngineError
  decode_input_to_batches LanceDbInputFormat.json_rows bytes schema =
      decode_json_rows_to_batches bytes schema
  decode_input_to_batches LanceDbInputFormat.unspecified bytes schema =
      decode_json_rows_to_batches bytes schema
  decode_input_to_batches LanceDbInputFormat.arrow_ipc bytes schema =
      decode_arrow_ipc_to_batches bytes
