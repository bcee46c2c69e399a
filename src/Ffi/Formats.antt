-- ===== src/Ffi/Formats.antt =====
-- src/ffi.rs: the names of column types and formats, and the enums of the C interface.
use vldb_lancedb.Text.{to_ascii_lowercase, trim}
use vldb_lancedb.Types.{LanceDbInputFormat, LanceDbOutputFormat, LanceDbColumnType}
use vldb_lancedb.Ffi.{output_format_number, VldbLancedbFfiInputFormat, VldbLancedbFfiOutputFormat}
use vldb_lancedb.Prelude.{String, Result, ℕ, if◌then◌else◌, ◌=ₛ◌, ◌||◌, ok, err, ◌<>◌}

abbrev normal_name : String → String
normal_name value = to_ascii_lowercase (trim value)

-- The match of `parse_column_type` on the name, lowercase and without blanks around it
unfoldable pub column_type_named : String → Result LanceDbColumnType String
column_type_named value =
    if value =ₛ "string"
    then ok LanceDbColumnType.string
    else if value =ₛ "int64"
    then ok LanceDbColumnType.int64
    else if value =ₛ "float64"
    then ok LanceDbColumnType.float64
    else if (value =ₛ "bool") || (value =ₛ "boolean")
    then ok LanceDbColumnType.bool
    else if (value =ₛ "vector_float32") || (value =ₛ "vector-float32")
    then ok LanceDbColumnType.vector_float32
    else if value =ₛ "float32"
    then ok LanceDbColumnType.float32
    else if value =ₛ "uint64"
    then ok LanceDbColumnType.uint64
    else if value =ₛ "int32"
    then ok LanceDbColumnType.int32
    else if value =ₛ "uint32"
    then ok LanceDbColumnType.uint32
    else if (value =ₛ "unspecified") || (value =ₛ "")
    then ok LanceDbColumnType.unspecified
    else err ("unsupported column_type: " <> value)

unfoldable pub parse_column_type : String → Result LanceDbColumnType String
unfolding column_type_named
parse_column_type value = column_type_named (normal_name value)

unfoldable pub input_format_named : String → Result LanceDbInputFormat String
input_format_named value =
    if (value =ₛ "")
      || (value =ₛ "unspecified")
      || (value =ₛ "json")
      || (value =ₛ "json_rows")
      || (value =ₛ "json-rows")
    then ok LanceDbInputFormat.json_rows
    else if (value =ₛ "arrow") || (value =ₛ "arrow_ipc") || (value =ₛ "arrow-ipc")
    then ok LanceDbInputFormat.arrow_ipc
    else err ("unsupported input_format: " <> value)

unfoldable pub parse_input_format : String → Result LanceDbInputFormat String
unfolding input_format_named
parse_input_format value = input_format_named (normal_name value)

unfoldable pub output_format_named : String → Result LanceDbOutputFormat String
output_format_named value =
    if (value =ₛ "")
      || (value =ₛ "unspecified")
      || (value =ₛ "arrow")
      || (value =ₛ "arrow_ipc")
      || (value =ₛ "arrow-ipc")
    then ok LanceDbOutputFormat.arrow_ipc
    else if (value =ₛ "json") || (value =ₛ "json_rows") || (value =ₛ "json-rows")
    then ok LanceDbOutputFormat.json_rows
    else err ("unsupported output_format: " <> value)

unfoldable pub parse_output_format : String → Result LanceDbOutputFormat String
unfolding output_format_named
parse_output_format value = output_format_named (normal_name value)

unfoldable pub parse_ffi_input_format : VldbLancedbFfiInputFormat → LanceDbInputFormat
parse_ffi_input_format VldbLancedbFfiInputFormat.unspecified = LanceDbInputFormat.unspecified
parse_ffi_input_format VldbLancedbFfiInputFormat.json_rows = LanceDbInputFormat.json_rows
parse_ffi_input_format VldbLancedbFfiInputFormat.arrow_ipc = LanceDbInputFormat.arrow_ipc

unfoldable pub parse_ffi_output_format : VldbLancedbFfiOutputFormat → LanceDbOutputFormat
parse_ffi_output_format VldbLancedbFfiOutputFormat.unspecified = LanceDbOutputFormat.unspecified
parse_ffi_output_format VldbLancedbFfiOutputFormat.arrow_ipc = LanceDbOutputFormat.arrow_ipc
parse_ffi_output_format VldbLancedbFfiOutputFormat.json_rows = LanceDbOutputFormat.json_rows

unfoldable pub ffi_output_format_code : LanceDbOutputFormat → ℕ
unfolding output_format_number
ffi_output_format_code LanceDbOutputFormat.unspecified =
    output_format_number VldbLancedbFfiOutputFormat.unspecified
ffi_output_format_code LanceDbOutputFormat.arrow_ipc =
    output_format_number VldbLancedbFfiOutputFormat.arrow_ipc
ffi_output_format_code LanceDbOutputFormat.json_rows =
    output_format_number VldbLancedbFfiOutputFormat.json_rows
