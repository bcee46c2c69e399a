-- ===== src/Engine/Schema.antt =====
-- src/engine.rs: `build_arrow_schema` and `column_to_field`. The Arrow types are those that the code
-- names; `other` stands for the rest, with the text that Arrow's Debug shows.
pub mod Columns
use vldb_lancedb.Prelude.{
  ℕ, String, ◌<>◌, Bool, true, false, List, [], ◌∷◌, Result, ok, err, ◌>>=◌, ◌==◌, if◌then◌else◌,
}
use vldb_lancedb.Prelude.Int.{ℤ, u32_as_i32}
use vldb_lancedb.Text.{trim, is_empty}
use vldb_lancedb.Types.{LanceDbColumnType, LanceDbColumnDef}
use vldb_lancedb.Engine.Error.{LanceDbEngineError, invalid_argument_error}

mutual
  pub data DataType : Type 0 where
    utf8 large_utf8 int64 int32 uint64 uint32 float64 float32 boolean : DataType
    fixed_size_list : Field → ℤ → DataType
    other : String → DataType

  pub data Field : Type 0 where
    field : (name : String) → (data_type : DataType) → (nullable : Bool) → Field

abbrev pub field_name : Field → String
field_name (field name data_type nullable) = name

abbrev pub field_type : Field → DataType
field_type (field name data_type nullable) = data_type

abbrev pub field_nullable : Field → Bool
field_nullable (field name data_type nullable) = nullable

abbrev pub Schema : Type 0
Schema = List Field

-- The match of `column_to_field` on the column's type
unfoldable pub column_data_type :
    LanceDbColumnType → String → ℕ → Result DataType LanceDbEngineError
column_data_type LanceDbColumnType.string name dim = ok utf8
column_data_type LanceDbColumnType.int64 name dim = ok int64
column_data_type LanceDbColumnType.float64 name dim = ok float64
column_data_type LanceDbColumnType.bool name dim = ok boolean
column_data_type LanceDbColumnType.float32 name dim = ok float32
column_data_type LanceDbColumnType.uint64 name dim = ok uint64
column_data_type LanceDbColumnType.int32 name dim = ok int32
column_data_type LanceDbColumnType.uint32 name dim = ok uint32
column_data_type LanceDbColumnType.vector_float32 name dim =
    if dim == 0
    then err (invalid_argument_error ("vector column '" <> name <> "' must have vector_dim > 0"))
    else ok (fixed_size_list (field "item" float32 true) (u32_as_i32 dim))
column_data_type LanceDbColumnType.unspecified name dim =
    err (invalid_argument_error ("column '" <> name <> "' has unspecified type"))

unfoldable pub column_to_field : LanceDbColumnDef → Result Field LanceDbEngineError
unfolding column_data_type
column_to_field column = do
  data_type ← column_data_type column.column_type column.name column.vector_dim
  ok (field column.name data_type column.nullable)

-- One round of the loop of `build_arrow_schema`
unfoldable pub checked_field : LanceDbColumnDef → Result Field LanceDbEngineError
checked_field column =
    if is_empty (trim column.name)
    then err (invalid_argument_error "column name must not be empty")
    else column_to_field column

unfoldable pub build_arrow_schema : List LanceDbColumnDef → Result Schema LanceDbEngineError
build_arrow_schema [] = ok []
build_arrow_schema (column ∷ columns) = do
  first ← checked_field column
  rest ← build_arrow_schema columns
  ok (first ∷ rest)
