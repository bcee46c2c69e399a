-- ===== src/Service.antt =====
-- src/service.rs: the messages of the gRPC service, as the generated code gives them, and their mapping to
-- the inputs of the engine. A field that holds an enum is read through its getter already.
pub mod Messages
pub mod Preview
pub mod Log
pub mod Handlers
pub mod Refusals
use vldb_lancedb.Prelude.{String, ℕ, Bool}
use vldb_lancedb.Engine.Error.{LanceDbEngineErrorKind, LanceDbEngineError}
use vldb_lancedb.Types.{
  LanceDbInputFormat, LanceDbColumnType, LanceDbColumnDef, LanceDbOutputFormat,
}

pub data ColumnType : Type 0 where
  unspecified string int64 float64 bool vector_float32 float32 uint64 int32 uint32 : ColumnType

pub data InputFormat : Type 0 where
  unspecified json_rows arrow_ipc : InputFormat

pub data OutputFormat : Type 0 where
  unspecified arrow_ipc json_rows : OutputFormat

pub record ColumnDef : Type 0 where
  pub name : String
  pub column_type : ColumnType
  pub vector_dim : ℕ
  pub nullable : Bool

pub data Code : Type 0 where
  invalid_argument internal deadline_exceeded : Code

-- tonic's `Status`
pub record Status : Type 0 where
  pub code : Code
  pub message : String

unfoldable pub map_column_type : ColumnType → LanceDbColumnType
map_column_type ColumnType.string = LanceDbColumnType.string
map_column_type ColumnType.int64 = LanceDbColumnType.int64
map_column_type ColumnType.float64 = LanceDbColumnType.float64
map_column_type ColumnType.bool = LanceDbColumnType.bool
map_column_type ColumnType.vector_float32 = LanceDbColumnType.vector_float32
map_column_type ColumnType.float32 = LanceDbColumnType.float32
map_column_type ColumnType.uint64 = LanceDbColumnType.uint64
map_column_type ColumnType.int32 = LanceDbColumnType.int32
map_column_type ColumnType.uint32 = LanceDbColumnType.uint32
map_column_type ColumnType.unspecified = LanceDbColumnType.unspecified

unfoldable pub map_column_def : ColumnDef → LanceDbColumnDef
unfolding map_column_type
map_column_def column = record {
  name = column.name;
  column_type = map_column_type column.column_type;
  vector_dim = column.vector_dim;
  nullable = column.nullable;
}

unfoldable pub map_input_format : InputFormat → LanceDbInputFormat
map_input_format InputFormat.json_rows = LanceDbInputFormat.json_rows
map_input_format InputFormat.arrow_ipc = LanceDbInputFormat.arrow_ipc
map_input_format InputFormat.unspecified = LanceDbInputFormat.unspecified

unfoldable pub map_output_format : OutputFormat → LanceDbOutputFormat
map_output_format OutputFormat.json_rows = LanceDbOutputFormat.json_rows
map_output_format OutputFormat.arrow_ipc = LanceDbOutputFormat.arrow_ipc
map_output_format OutputFormat.unspecified = LanceDbOutputFormat.unspecified

abbrev code_of : LanceDbEngineErrorKind → Code
code_of LanceDbEngineErrorKind.invalid_argument = Code.invalid_argument
code_of LanceDbEngineErrorKind.internal = Code.internal

unfoldable pub map_engine_error : LanceDbEngineError → Status
map_engine_error error = record { code = code_of error.kind; message = error.message }
