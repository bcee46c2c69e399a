-- ===== src/Engine/Encode.antt =====
-- src/engine.rs: `encode_batches_as_arrow_ipc`, `encode_batches_as_json`, `json_value_from_array`,
-- `count_rows` and `normalize_output_format`. `panicked` is the error that the caller's `spawn_blocking`
-- makes of a panic: an index out of range here.
pub mod Columns
use vldb_lancedb.Prelude.{
  ℕ, zero, suc, ◌+◌, ◌*◌, String, ◌<>◌, Bool, true, false, List, [], ◌∷◌, ◌++◌, map, length,
  get_elem?, take, drop, Option, none, some, Result, ok, err, ◌>>=◌, map_err, collect,
}
use vldb_lancedb.Prelude.Int.{ℤ, i32_as_usize}
use vldb_lancedb.Types.{LanceDbOutputFormat}
use vldb_lancedb.External.SerdeJson.{SerdeJson}
use vldb_lancedb.External.Arrow.{ArrayRef, Arrow}
use vldb_lancedb.Engine.Error.{LanceDbEngineError, internal_error, to_engine_error}
use vldb_lancedb.Engine.Schema.{DataType, Schema, Field, field, field_name}
use vldb_lancedb.Engine.Decode.{add_u64}

unfoldable pub normalize_output_format : LanceDbOutputFormat → LanceDbOutputFormat
normalize_output_format LanceDbOutputFormat.unspecified = LanceDbOutputFormat.arrow_ipc
normalize_output_format other = other

module _ (J : SerdeJson) (panicked : LanceDbEngineError) where
  open J use {Value, F32, F64, null}

  -- The test for null, and the read of a scalar cell
  unfoldable pub scalar_value {ℓ} :
      {A : Type ℓ} → (A → Value) → Option (Option A) → Result Value LanceDbEngineError
  scalar_value of none = err panicked
  scalar_value of (some none) = ok null
  scalar_value of (some (some a)) = ok (of a)

  unfoldable pub item_value : Option F32 → Value
  item_value none = null
  item_value (some x) = J.of_f64 (J.widen x)

  unfoldable pub vector_value :
      ℕ → List (Option F32) → ℕ → Option Bool → Result Value LanceDbEngineError
  unfolding item_value
  vector_value dim items row none = err panicked
  vector_value dim items row (some false) = ok null
  vector_value dim items row (some true) =
      ok (J.of_array (map item_value (take dim (drop (row * dim) items))))

  -- An array's type fixes its representation, so that the downcasts of the source cannot fail.
  unfoldable pub opaque_value :
      (DataType → String) → DataType → Option Bool → Result Value LanceDbEngineError
  opaque_value debug data_type none = err panicked
  opaque_value debug data_type (some false) = ok null
  opaque_value debug data_type (some true) =
      err (internal_error ("unsupported output type for JSON encoding: " <> debug data_type))

  module _ (A : Arrow F32 F64) where
    open A use {RecordBatch}

    unfoldable pub json_value_from_array : ArrayRef F32 F64 → ℕ → Result Value LanceDbEngineError
    unfolding scalar_value vector_value opaque_value
    json_value_from_array (ArrayRef.utf8 cells) row = scalar_value J.of_string (get_elem? cells row)
    json_value_from_array (ArrayRef.large_utf8 cells) row =
        scalar_value J.of_string (get_elem? cells row)
    json_value_from_array (ArrayRef.int64 cells) row = scalar_value J.of_i64 (get_elem? cells row)
    json_value_from_array (ArrayRef.int32 cells) row = scalar_value J.of_i64 (get_elem? cells row)
    json_value_from_array (ArrayRef.uint64 cells) row = scalar_value J.of_u64 (get_elem? cells row)
    json_value_from_array (ArrayRef.uint32 cells) row = scalar_value J.of_u64 (get_elem? cells row)
    json_value_from_array (ArrayRef.float64 cells) row = scalar_value J.of_f64 (get_elem? cells row)
    json_value_from_array (ArrayRef.float32 cells) row =
        scalar_value (λ x. J.of_f64 (J.widen x)) (get_elem? cells row)
    json_value_from_array (ArrayRef.boolean cells) row =
        scalar_value J.of_bool (get_elem? cells row)
    json_value_from_array (ArrayRef.fixed_size_list dim items marks) row =
        vector_value (i32_as_usize dim) items row (get_elem? marks row)
    json_value_from_array (ArrayRef.opaque data_type marks) row =
        opaque_value A.debug data_type (get_elem? marks row)

    -- `batch.column(col_idx)` and the read of its cell
    unfoldable pub column_value : Option (ArrayRef F32 F64) → ℕ → Result Value LanceDbEngineError
    column_value none row = err panicked
    column_value (some array) row = json_value_from_array array row

    -- The loop over the fields of the schema, from the column `col`
    unfoldable pub fill_object :
        RecordBatch → ℕ → Schema → ℕ → J.Object → Result J.Object LanceDbEngineError
    unfolding column_value
    fill_object batch row [] col object = ok object
    fill_object batch row (f ∷ fields) col object = do
      value ← column_value (get_elem? (A.columns batch) col) row
      fill_object batch row fields (suc col) (J.insert object (field_name f) value)

    -- The loop over the rows of a batch: `left` rounds from the row `row`
    unfoldable pub encode_rows :
        Schema → RecordBatch → ℕ → ℕ → List Value → Result (List Value) LanceDbEngineError
    encode_rows schema batch zero row rows = ok rows
    encode_rows schema batch (suc left) row rows = do
      object ← fill_object batch row schema 0 J.new_object
      encode_rows schema batch left (suc row) (rows ++ J.of_object object ∷ [])

    -- The loop over the batches
    unfoldable pub encode_all :
        Schema → List RecordBatch → List Value → Result (List Value) LanceDbEngineError
    encode_all schema [] rows = ok rows
    encode_all schema (batch ∷ batches) rows = do
      rows' ← encode_rows schema batch (A.num_rows batch) 0 rows
      encode_all schema batches rows'

    unfoldable pub encode_batches_as_json :
        Schema → List RecordBatch → Result (List ℕ) LanceDbEngineError
    encode_batches_as_json schema batches = do
      rows ← encode_all schema batches []
      map_err to_engine_error (J.to_vec rows)

module _ {F32 F64 : Type 0} (A : Arrow F32 F64) where
  open A use {RecordBatch, Writer}

  unfoldable pub write_all : Writer → List RecordBatch → Result Writer LanceDbEngineError
  write_all writer [] = ok writer
  write_all writer (batch ∷ batches) = do
    writer' ← map_err to_engine_error (A.write writer batch)
    write_all writer' batches

  unfoldable pub encode_batches_as_arrow_ipc :
      Schema → List RecordBatch → Result (List ℕ) LanceDbEngineError
  unfolding write_all
  encode_batches_as_arrow_ipc schema batches = do
    writer ← map_err to_engine_error (A.new_writer schema)
    written ← write_all writer batches
    finished ← map_err to_engine_error (A.finish written)
    map_err to_engine_error (A.into_inner finished)

  unfoldable pub count_rows : List RecordBatch → ℕ
  count_rows [] = 0
  count_rows (batch ∷ batches) = add_u64 (A.num_rows batch) (count_rows batches)
