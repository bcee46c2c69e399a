-- ===== src/Ffi/Inputs.antt =====
-- src/ffi.rs: the JSON inputs of the C interface and their mapping to the inputs of the engine. A `Parsed`
-- record is what a JSON object says, a key that may be missing with an option; the inputs have the
-- defaults of their `#[serde(default)]` attributes.
use vldb_lancedb.Ffi.CText.{
  required_c_string, copy_input_bytes, optional_c_string, copy_c_string_array, copy_input_f32_slice,
  or_empty,
}
use vldb_lancedb.Ffi.Formats.{
  parse_output_format, parse_column_type, parse_input_format, parse_ffi_input_format,
  parse_ffi_output_format,
}
use vldb_lancedb.Ffi.{CString, VldbLancedbFfiInputFormat, VldbLancedbFfiOutputFormat}
use vldb_lancedb.Types.{
  LanceDbColumnDef, LanceDbSearchInput, LanceDbCreateTableInput, LanceDbUpsertInput,
}
use vldb_lancedb.Prelude.{
  Bool, Result, String, map, Option, ℕ, [], List, true, some, false, ◌>>=◌, none, collect, map_err,
  ok, ◌<>◌,
}
use Prim.Native.String.{String}
use Prim.Native.String.{[]}
use Prim.Native.Nat.{ℕ}

pub record ParsedColumn : Type 0 where
  pub name : String
  pub column_type : String
  pub vector_dim : Option ℕ
  pub nullable : Option Bool

pub record ParsedCreateTable : Type 0 where
  pub table_name : String
  pub columns : List ParsedColumn
  pub overwrite_if_exists : Option Bool

pub record ParsedUpsert : Type 0 where
  pub table_name : String
  pub input_format : String
  pub key_columns : Option (List String)

pub record ParsedSearch (F32 : Type 0) : Type 0 where
  pub table_name : String
  pub vector : List F32
  pub limit : Option ℕ
  pub filter : Option String
  pub vector_column : Option String
  pub output_format : Option String

pub record CreateTableJsonColumn : Type 0 where
  pub name : String
  pub column_type : String
  pub vector_dim : ℕ
  pub nullable : Bool

pub record CreateTableJsonInput : Type 0 where
  pub table_name : String
  pub columns : List CreateTableJsonColumn
  pub overwrite_if_exists : Bool

pub record UpsertJsonInput : Type 0 where
  pub table_name : String
  pub input_format : String
  pub key_columns : List String

pub record SearchJsonInput (F32 : Type 0) : Type 0 where
  pub table_name : String
  pub vector : List F32
  pub limit : ℕ
  pub filter : String
  pub vector_column : String
  pub output_format : String

pub record DeleteJsonInput : Type 0 where
  pub table_name : String
  pub condition : String

pub record DropTableJsonInput : Type 0 where
  pub table_name : String

abbrev or_else {ℓ} : {A : Type ℓ} → A → Option A → A
or_else a none = a
or_else a (some b) = b

abbrev pub default_nullable : Bool
default_nullable = true

abbrev pub default_search_limit : ℕ
default_search_limit = 10

unfoldable pub column_defaults : ParsedColumn → CreateTableJsonColumn
column_defaults column = record {
  name = column.name;
  column_type = column.column_type;
  vector_dim = or_else 0 column.vector_dim;
  nullable = or_else default_nullable column.nullable;
}

unfoldable pub create_table_defaults : ParsedCreateTable → CreateTableJsonInput
unfolding column_defaults
create_table_defaults parsed = record {
  table_name = parsed.table_name;
  columns = map column_defaults parsed.columns;
  overwrite_if_exists = or_else false parsed.overwrite_if_exists;
}

unfoldable pub upsert_defaults : ParsedUpsert → UpsertJsonInput
upsert_defaults parsed = record {
  table_name = parsed.table_name;
  input_format = parsed.input_format;
  key_columns = or_else [] parsed.key_columns;
}

unfoldable pub search_defaults : {F32 : Type 0} → ParsedSearch F32 → SearchJsonInput F32
search_defaults parsed = record {
  table_name = parsed.table_name;
  vector = parsed.vector;
  limit = or_else default_search_limit parsed.limit;
  filter = or_else "" parsed.filter;
  vector_column = or_else "" parsed.vector_column;
  output_format = or_else "" parsed.output_format;
}

unfoldable pub map_create_table_column : CreateTableJsonColumn → Result LanceDbColumnDef String
map_create_table_column input = do
  column_type ← parse_column_type input.column_type
  ok (record {
    name = input.name;
    column_type = column_type;
    vector_dim = input.vector_dim;
    nullable = input.nullable;
  })

unfoldable pub map_create_table_input : CreateTableJsonInput → Result LanceDbCreateTableInput String
unfolding map_create_table_column
map_create_table_input input = do
  columns ← collect map_create_table_column input.columns
  ok (record {
    table_name = input.table_name;
    columns = columns;
    overwrite_if_exists = input.overwrite_if_exists;
  })

unfoldable pub map_upsert_input :
    UpsertJsonInput → Option (List ℕ) → ℕ → Result LanceDbUpsertInput String
map_upsert_input input source data_len = do
  input_format ← parse_input_format input.input_format
  content ← copy_input_bytes source data_len
  ok (record {
    table_name = input.table_name;
    input_format = input_format;
    bytes = content;
    key_columns = input.key_columns;
  })

unfoldable pub map_search_input :
    {F32 : Type 0} → SearchJsonInput F32 → Result (LanceDbSearchInput F32) String
map_search_input input = do
  output_format ← parse_output_format input.output_format
  ok (record {
    table_name = input.table_name;
    vector = input.vector;
    limit = input.limit;
    filter = input.filter;
    vector_column = input.vector_column;
    output_format = output_format;
  })

-- The derived readers of the inputs, and the writer of an answer. `message` is the text of an error.
pub record FfiJson (F32 : Type 0) : Type 1 where
  pub Value : Type 0
  pub create_table_from_str : String → Result ParsedCreateTable String
  pub upsert_from_str : String → Result ParsedUpsert String
  pub search_from_str : String → Result (ParsedSearch F32) String
  pub delete_from_str : String → Result DeleteJsonInput String
  pub drop_table_from_str : String → Result DropTableJsonInput String
  pub of_bool : Bool → Value
  pub of_string : String → Value
  pub of_u64 : ℕ → Value
  pub of_members : List (String × Value) → Value
  pub to_string : Value → Result String String

-- `parse_json_input` with the reader of its type
unfoldable pub parse_json_input :
    {T : Type 0} → (String → Result T String) → CString → String → Result T String
parse_json_input from_str value field_name = do
  text ← required_c_string value field_name
  map_err (λ error. "failed to parse " <> field_name <> ": " <> error) (from_str text)

-- The input that `engine_vector_upsert_raw` builds
unfoldable pub raw_upsert_input :
    CString
    → VldbLancedbFfiInputFormat
    → Option (List ℕ)
    → ℕ
    → Option (List CString)
    → ℕ
    → Result LanceDbUpsertInput String
raw_upsert_input table_name input_format source data_len key_columns key_columns_len = do
  name ← required_c_string table_name "table_name"
  keys ← copy_c_string_array key_columns key_columns_len "key_columns"
  content ← copy_input_bytes source data_len
  ok (record {
    table_name = name;
    input_format = parse_ffi_input_format input_format;
    bytes = content;
    key_columns = keys;
  })

-- The input that `engine_vector_search_f32` builds
unfoldable pub flat_search_input :
    {F32 : Type 0}
    → CString
    → Option (List F32)
    → ℕ
    → ℕ
    → CString
    → CString
    → VldbLancedbFfiOutputFormat
    → Result (LanceDbSearchInput F32) String
flat_search_input table_name vector_data vector_len limit filter vector_column output_format = do
  name ← required_c_string table_name "table_name"
  found_filter ← optional_c_string filter "filter"
  found_column ← optional_c_string vector_column "vector_column"
  vector ← copy_input_f32_slice vector_data vector_len "vector_data"
  ok (record {
    table_name = name;
    vector = vector;
    limit = limit;
    filter = or_empty found_filter;
    vector_column = or_empty found_column;
    output_format = parse_ffi_output_format output_format;
  })
