-- ===== src/Engine/Ingest.antt =====
-- src/engine.rs: `extract_field_value`, the `expect_` functions and `build_array_for_field`.
pub mod Cells
pub mod Arrays
pub mod Supported
use vldb_lancedb.Prelude.{
  ℕ, String, ◌<>◌, Bool, true, false, List, [], ◌∷◌, ◌++◌, map, length, replicate, Option, none,
  some, Result, ok, err, ok_or, ◌>>=◌, map_ok, collect, ◌==◌, if◌then◌else◌,
}
use vldb_lancedb.Prelude.Int.{ℤ, pos, negsuc, to_i32, to_u32, i32_as_usize, rounds}
use vldb_lancedb.Text.Format.{show}
use vldb_lancedb.External.SerdeJson.{SerdeJson}
use vldb_lancedb.External.Arrow.{ArrayRef, Arrow}
use vldb_lancedb.Engine.Error.{LanceDbEngineError, invalid_argument_error}
use vldb_lancedb.Engine.Schema.{DataType, Field, field}

abbrev about_field : String → String → LanceDbEngineError
about_field name text = invalid_argument_error ("field '" <> name <> text)

unfoldable pub show_i32 : ℤ → String
show_i32 (pos n) = show n
show_i32 (negsuc n) = "-" <> show (ℕ.suc n)

module _ (J : SerdeJson) where
  open J use {
    Value, F32, F64, is_null, as_object, as_array, as_str, as_i64, as_u64, as_f64, as_bool,
  }

  -- The match on `object.get(field_name)`
  unfoldable pub nullable_value :
      Option Value → String → Bool → Result (Option Value) LanceDbEngineError
  nullable_value none name nullable =
      if nullable then ok none else err (about_field name "' is missing and not nullable")
  nullable_value (some value) name nullable =
      if is_null value
      then (if nullable then ok none else err (about_field name "' is not nullable"))
      else ok (some value)

  unfoldable pub extract_field_value :
      Value → String → Bool → Result (Option Value) LanceDbEngineError
  unfolding nullable_value
  extract_field_value row name nullable = do
    object ←
        ok_or (as_object row) (invalid_argument_error "JSON rows must be an array of JSON objects")
    nullable_value (J.get object name) name nullable

  unfoldable pub expect_string : Value → String → Result String LanceDbEngineError
  expect_string value name = ok_or (as_str value) (about_field name "' must be a string")

  unfoldable pub expect_i64 : Value → String → Result ℤ LanceDbEngineError
  expect_i64 value name = ok_or (as_i64 value) (about_field name "' must be an int64")

  unfoldable pub expect_i32 : Value → String → Result ℤ LanceDbEngineError
  expect_i32 value name = do
    raw ← ok_or (as_i64 value) (about_field name "' must be an int32")
    ok_or (to_i32 raw) (about_field name "' is out of int32 range")

  unfoldable pub expect_u64 : Value → String → Result ℕ LanceDbEngineError
  expect_u64 value name = ok_or (as_u64 value) (about_field name "' must be a uint64")

  unfoldable pub expect_u32 : Value → String → Result ℕ LanceDbEngineError
  expect_u32 value name = do
    raw ← ok_or (as_u64 value) (about_field name "' must be a uint32")
    ok_or (to_u32 raw) (about_field name "' is out of uint32 range")

  unfoldable pub expect_f64 : Value → String → Result F64 LanceDbEngineError
  expect_f64 value name = ok_or (as_f64 value) (about_field name "' must be a float64")

  unfoldable pub expect_f32 : Value → String → Result F32 LanceDbEngineError
  expect_f32 value name = do
    raw ← ok_or (as_f64 value) (about_field name "' must be a float32")
    ok (J.narrow raw)

  unfoldable pub expect_bool : Value → String → Result Bool LanceDbEngineError
  expect_bool value name = ok_or (as_bool value) (about_field name "' must be a bool")

  module _ {A : Type 0} (expect : Value → String → Result A LanceDbEngineError) where
    unfoldable pub expect_found : Option Value → String → Result (Option A) LanceDbEngineError
    expect_found none name = ok none
    expect_found (some value) name = do a ← expect value name; ok (some a)

    -- One round of a loop of `build_array_for_field`: what is appended for the row.
    unfoldable pub read_cell : Value → String → Bool → Result (Option A) LanceDbEngineError
    unfolding expect_found
    read_cell row name nullable = do
      found ← extract_field_value row name nullable
      expect_found found name

    -- The loop, the same for every type of scalar
    unfoldable pub append_cells :
        List Value → String → Bool → Result (List (Option A)) LanceDbEngineError
    append_cells [] name nullable = ok []
    append_cells (row ∷ rows) name nullable = do
      cell ← read_cell row name nullable
      rest ← append_cells rows name nullable
      ok (cell ∷ rest)

  -- One round of the loop for a vector column: the child values, and whether the row is valid.
  unfoldable pub vector_items :
      Option Value → String → ℤ → Result (List (Option F32) × Bool) LanceDbEngineError
  vector_items none name dim = ok (replicate (rounds dim) none, false)
  vector_items (some value) name dim = do
    array ← ok_or (as_array value) (about_field name "' must be a JSON array of float32 values")
    if length array == i32_as_usize dim
        then map_ok (λ items. (map some items, true)) (collect (λ item. expect_f32 item name) array)
        else err (
            about_field name
              ("' length mismatch: expected " <> show_i32 dim <> ", got " <> show (length array)))

  -- The loop for a vector column. The memory that the builder asks for is not modelled.
  unfoldable pub append_vectors :
      List Value → String → Bool → ℤ → Result (List (Option F32) × List Bool) LanceDbEngineError
  append_vectors [] name nullable dim = ok ([], [])
  append_vectors (row ∷ rows) name nullable dim = do
    found ← extract_field_value row name nullable
    first ← vector_items found name dim
    rest ← append_vectors rows name nullable dim
    ok (first.0 ++ rest.0, first.1 ∷ rest.1)

  module _ (A : Arrow F32 F64) where
    unfoldable pub unsupported : DataType → String → Result (ArrayRef F32 F64) LanceDbEngineError
    unsupported data_type name = err (
        invalid_argument_error
          ("unsupported field type for JSON ingestion on '" <> name <> "': " <> A.debug data_type))

    unfoldable pub build_array_for_field :
        List Value → String → DataType → Bool → Result (ArrayRef F32 F64) LanceDbEngineError
    unfolding unsupported
    build_array_for_field rows name DataType.utf8 nullable =
        map_ok ArrayRef.utf8 (append_cells expect_string rows name nullable)
    build_array_for_field rows name DataType.large_utf8 nullable =
        map_ok ArrayRef.large_utf8 (append_cells expect_string rows name nullable)
    build_array_for_field rows name DataType.int64 nullable =
        map_ok ArrayRef.int64 (append_cells expect_i64 rows name nullable)
    build_array_for_field rows name DataType.int32 nullable =
        map_ok ArrayRef.int32 (append_cells expect_i32 rows name nullable)
    build_array_for_field rows name DataType.uint64 nullable =
        map_ok ArrayRef.uint64 (append_cells expect_u64 rows name nullable)
    build_array_for_field rows name DataType.uint32 nullable =
        map_ok ArrayRef.uint32 (append_cells expect_u32 rows name nullable)
    build_array_for_field rows name DataType.float64 nullable =
        map_ok ArrayRef.float64 (append_cells expect_f64 rows name nullable)
    build_array_for_field rows name DataType.float32 nullable =
        map_ok ArrayRef.float32 (append_cells expect_f32 rows name nullable)
    build_array_for_field rows name DataType.boolean nullable =
        map_ok ArrayRef.boolean (append_cells expect_bool rows name nullable)
    build_array_for_field rows name
          (DataType.fixed_size_list (field item DataType.float32 null_items) dim) nullable =
        map_ok (λ (items, marks). ArrayRef.fixed_size_list dim items marks)
          (append_vectors rows name nullable dim)
    build_array_for_field rows name data_type nullable = unsupported data_type name
