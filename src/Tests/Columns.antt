-- ===== src/Tests/Columns.antt =====
-- Schemas, the reading of JSON rows and their encoding.
use vldb_lancedb.Engine.Ingest.Supported.{build_array_for_field-Marks}
use vldb_lancedb.Engine.Encode.Columns.{field_or_null, json_value_from_array-build_array}
use vldb_lancedb.Engine.Decode.Rows.{total_rows, decode_arrow_ipc_iff}
use vldb_lancedb.External.Arrow.{ArrayRef, validity}
use vldb_lancedb.Engine.Schema.Columns.{
  IsColumn, arrow_field, build_arrow_schema_iff, column_to_field-vector,
}
use vldb_lancedb.Engine.Ingest.Arrays.{Marks, array_type, Marks}
use vldb_lancedb.Engine.Encode.{json_value_from_array}
use vldb_lancedb.Tests.Stubs.{Json, json_stub, arrow_stub, id_row, panic_stub, json_laws_stub}
use vldb_lancedb.Engine.Ingest.{
  append_cells, build_array_for_field, read_cell, extract_field_value, expect_u64, nullable_value,
  expect_found,
}
use vldb_lancedb.Engine.Schema.{
  build_arrow_schema, field, fixed_size_list, DataType, column_to_field,
}
use vldb_lancedb.Engine.Decode.{decode_arrow_ipc_to_batches}
use vldb_lancedb.Types.{LanceDbColumnDef, LanceDbColumnType}
use vldb_lancedb.Prelude.Int.{i32_as_usize, ℤ, pos}
use vldb_lancedb.Prelude.{
  List, Option, ◌∷◌, ℕ, ◌≡◌, true, [], some, false, ◌↔◌, ok, ◌<◌, ◌^◌, arith, All, map, ◌%◌, refl,
}

abbrev vector_column : LanceDbColumnDef
vector_column = record {
  name = "v";
  column_type = LanceDbColumnType.vector_float32;
  vector_dim = 2;
  nullable = true;
}

build_arrow_schema_iff_example :
    (build_arrow_schema (vector_column ∷ [])
      ≡ ok (field "v" (fixed_size_list (field "item" DataType.float32 true) (pos 2)) true ∷ []))
    ↔ (All IsColumn (vector_column ∷ [])
        × ((field "v" (fixed_size_list (field "item" DataType.float32 true) (pos 2)) true ∷ [])
            ≡ map arrow_field (vector_column ∷ [])))
build_arrow_schema_iff_example =
    build_arrow_schema_iff (vector_column ∷ [])
      (field "v" (fixed_size_list (field "item" DataType.float32 true) (pos 2)) true ∷ [])

column_to_field-vector_example :
    (dim : ℤ) × (column_to_field vector_column
      ≡ ok (field "v" (fixed_size_list (field "item" DataType.float32 true) dim) true))
    × ((i32_as_usize dim ≡ 2) ↔ (2 < 2 ^ 31))
column_to_field-vector_example =
    column_to_field-vector vector_column refl (grind arith) (omega arith)

abbrev two_rows : List Json
two_rows = id_row 3 ∷ id_row 4 ∷ []

abbrev two_cells : List (Option ℕ)
two_cells = some 3 ∷ some 4 ∷ []

abbrev id_array : ArrayRef ℕ ℕ
id_array = ArrayRef.uint64 two_cells

build_array_for_field-Marks_example :
    (array_type id_array ≡ DataType.uint64) × Marks two_rows false (validity id_array)
unfolding build_array_for_field append_cells read_cell extract_field_value nullable_value
    expect_found expect_u64
build_array_for_field-Marks_example =
    build_array_for_field-Marks json_stub arrow_stub two_rows "id" DataType.uint64 false id_array tt
      refl

json_value_from_array-build_array_example :
    json_value_from_array json_stub panic_stub arrow_stub id_array 1
    ≡ ok (field_or_null json_stub (id_row 4) "id")
unfolding build_array_for_field append_cells read_cell extract_field_value nullable_value
    expect_found expect_u64
json_value_from_array-build_array_example =
    json_value_from_array-build_array json_stub json_laws_stub panic_stub arrow_stub two_rows "id"
      DataType.uint64 false id_array 1 (id_row 4) tt refl refl

decode_arrow_ipc_iff_example :
    (decode_arrow_ipc_to_batches json_stub arrow_stub (3 ∷ 4 ∷ []) ≡ ok ((id_array ∷ []) ∷ [], 2))
    ↔ ((arrow_stub.read_stream (3 ∷ 4 ∷ []) ≡ ok (map ok ((id_array ∷ []) ∷ [])))
        × (2 ≡ total_rows json_stub arrow_stub ((id_array ∷ []) ∷ []) % 2 ^ 64))
decode_arrow_ipc_iff_example =
    decode_arrow_ipc_iff json_stub arrow_stub (3 ∷ 4 ∷ []) ((id_array ∷ []) ∷ []) 2
