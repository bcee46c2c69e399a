-- ===== src/Ffi/Calls/Tables.antt =====
-- src/ffi.rs: the functions on an engine.
use vldb_lancedb.Ffi.Worker.{ffi_block_on}
use vldb_lancedb.Ffi.Formats.{ffi_output_format_code}
use vldb_lancedb.Ffi.Memory.{
  Call, pure, string_into_raw, ◌>>◌, clear_last_error, ◌>>=◌, engine_handle_ref,
  allocate_byte_buffer,
}
use vldb_lancedb.Types.{LanceDbSearchResult, LanceDbUpsertResult, as_wire_name}
use vldb_lancedb.Ffi.Calls.{State, fail_with, on_some, on_ok}
use vldb_lancedb.Prelude.{
  List, ℕ, Option, true, ◌∷◌, none, Bool, some, [], ◌<>◌, if◌then◌else◌, map_err,
}
use vldb_lancedb.Ffi.Inputs.{
  FfiJson, raw_upsert_input, flat_search_input, parse_json_input, map_search_input,
  map_create_table_input, map_upsert_input, create_table_defaults, upsert_defaults, search_defaults,
}
use vldb_lancedb.Ffi.Backend.{Backend}
use vldb_lancedb.Ffi.{
  VldbLancedbByteBuffer, VldbLancedbSearchResultMeta, status_code, Ptr, CString,
  VldbLancedbUpsertResultPod, failure, VldbLancedbFfiInputFormat, VldbLancedbFfiOutputFormat,
  success,
}

-- What is written through the output pointers of a search
pub record SearchOutput : Type 0 where
  pub output_data : VldbLancedbByteBuffer
  pub out_result : VldbLancedbSearchResultMeta

-- A status, and the result that is written through `out_result`
abbrev pub Status : Type 0 → Type 0
Status A = ℕ × Option A

abbrev pub failed_status : {A : Type 0} → Status A
failed_status = (status_code failure, none)

module _ (B : Backend) (J : FfiJson B.F32) (capacity : List ℕ → ℕ) where
  open B use {F32, Runtime, Engine, World}

  abbrev S : Type 0
  S = State B

  unfoldable pub json_string_response : J.Value → Call S Ptr
  json_string_response value =
      on_ok B none
        (map_err (λ error. "failed to serialize JSON response: " <> error) (J.to_string value))
        string_into_raw

  unfoldable pub engine_create_table_json : Ptr → CString → Call S Ptr
  engine_create_table_json handle input_json = do
    clear_last_error
    found ← engine_handle_ref handle
    on_some B none found λ engine.
        on_ok B none (parse_json_input J.create_table_from_str input_json "input_json") λ parsed.
          on_ok B none (map_create_table_input (create_table_defaults parsed)) λ input. do
            answer ← ffi_block_on (B.create_table engine input)
            on_ok B none answer λ result. json_string_response (
                J.of_members
                  (("success", J.of_bool true) ∷ ("message", J.of_string result.message) ∷ []))

  unfoldable pub upsert_response : LanceDbUpsertResult → J.Value
  upsert_response result = J.of_members (
      ("success", J.of_bool true)
      ∷ ("message", J.of_string result.message)
      ∷ ("version", J.of_u64 result.version)
      ∷ ("input_rows", J.of_u64 result.input_rows)
      ∷ ("inserted_rows", J.of_u64 result.inserted_rows)
      ∷ ("updated_rows", J.of_u64 result.updated_rows)
      ∷ ("deleted_rows", J.of_u64 result.deleted_rows)
      ∷ [])

  unfoldable pub engine_vector_upsert : Ptr → CString → Option (List ℕ) → ℕ → Call S Ptr
  unfolding upsert_response
  engine_vector_upsert handle input_json source data_len = do
    clear_last_error
    found ← engine_handle_ref handle
    on_some B none found λ engine.
        on_ok B none (parse_json_input J.upsert_from_str input_json "input_json") λ parsed.
          on_ok B none (map_upsert_input (upsert_defaults parsed) source data_len) λ input. do
            answer ← ffi_block_on (B.vector_upsert engine input)
            on_ok B none answer λ result. json_string_response (upsert_response result)

  unfoldable pub upsert_pod : LanceDbUpsertResult → VldbLancedbUpsertResultPod
  upsert_pod result = record {
    version = result.version;
    input_rows = result.input_rows;
    inserted_rows = result.inserted_rows;
    updated_rows = result.updated_rows;
    deleted_rows = result.deleted_rows;
  }

  unfoldable pub engine_vector_upsert_raw :
      Ptr
      → CString
      → VldbLancedbFfiInputFormat
      → Option (List ℕ)
      → ℕ
      → Option (List CString)
      → ℕ
      → Bool
      → Call S (Status VldbLancedbUpsertResultPod)
  unfolding upsert_pod
  engine_vector_upsert_raw handle table_name input_format source data_len key_columns
        key_columns_len out_result_is_null =
      do
        clear_last_error
        found ← engine_handle_ref handle
        on_some B failed_status found λ engine.
            if out_result_is_null
            then fail_with B failed_status "out_result must not be null"
            else on_ok B failed_status
                (raw_upsert_input table_name input_format source data_len key_columns
                  key_columns_len)
                λ input. do
                  answer ← ffi_block_on (B.vector_upsert engine input)
                  on_ok B failed_status answer
                      λ result. pure (status_code success, some (upsert_pod result))

  unfoldable pub search_response : LanceDbSearchResult → VldbLancedbByteBuffer → J.Value
  search_response result buffer = J.of_members (
      ("success", J.of_bool true)
      ∷ ("message", J.of_string result.message)
      ∷ ("format", J.of_string (as_wire_name result.format))
      ∷ ("rows", J.of_u64 result.rows)
      ∷ ("byte_length", J.of_u64 buffer.len)
      ∷ [])

  -- A pointer, and the buffer that is written through `output_data`
  unfoldable pub with_buffer :
      VldbLancedbByteBuffer → Ptr → Call S (Ptr × Option VldbLancedbByteBuffer)
  with_buffer buffer response = pure (response, some buffer)

  unfoldable pub engine_vector_search :
      Ptr → CString → Bool → Call S (Ptr × Option VldbLancedbByteBuffer)
  unfolding search_response with_buffer
  engine_vector_search handle input_json output_data_is_null = do
    clear_last_error
    found ← engine_handle_ref handle
    on_some B (none, none) found
        λ engine.
          if output_data_is_null
          then fail_with B (none, none) "output_data must not be null"
          else on_ok B (none, none) (parse_json_input J.search_from_str input_json "input_json")
              λ parsed.
                on_ok B (none, none) (map_search_input (search_defaults parsed))
                  λ input. do
                    answer ← ffi_block_on (B.vector_search engine input)
                    on_ok B (none, none) answer
                        λ result. do
                          buffer ← allocate_byte_buffer result.bytes (capacity result.bytes)
                          response ← json_string_response (search_response result buffer)
                          with_buffer buffer response

  unfoldable pub search_meta :
      LanceDbSearchResult → VldbLancedbByteBuffer → VldbLancedbSearchResultMeta
  search_meta result buffer = record {
    format = ffi_output_format_code result.format;
    rows = result.rows;
    byte_length = buffer.len;
  }

  unfoldable pub engine_vector_search_f32 :
      Ptr
      → CString
      → Option (List F32)
      → ℕ
      → ℕ
      → CString
      → CString
      → VldbLancedbFfiOutputFormat
      → Bool
      → Bool
      → Call S (Status SearchOutput)
  unfolding search_meta
  engine_vector_search_f32 handle table_name vector_data vector_len limit filter vector_column
        output_format output_data_is_null out_result_is_null =
      do
        clear_last_error
        found ← engine_handle_ref handle
        on_some B failed_status found λ engine.
            if output_data_is_null
            then fail_with B failed_status "output_data must not be null"
            else if out_result_is_null
            then fail_with B failed_status "out_result must not be null"
            else on_ok B failed_status
                (flat_search_input table_name vector_data vector_len limit filter vector_column
                  output_format)
                λ input. do
                  answer ← ffi_block_on (B.vector_search engine input)
                  on_ok B failed_status answer λ result. do
                    buffer ← allocate_byte_buffer result.bytes (capacity result.bytes)
                    pure (
                      status_code success,
                      some
                          (record { output_data = buffer; out_result = search_meta result buffer }),
                    )

  unfoldable pub engine_delete_json : Ptr → CString → Call S Ptr
  engine_delete_json handle input_json = do
    clear_last_error
    found ← engine_handle_ref handle
    on_some B none found λ engine.
        on_ok B none (parse_json_input J.delete_from_str input_json "input_json") λ parsed. do
          answer ← ffi_block_on (
              B.delete engine
                (record { table_name = parsed.table_name; condition = parsed.condition }))
          on_ok B none answer λ result. json_string_response (
              J.of_members (
                ("success", J.of_bool true)
                ∷ ("message", J.of_string result.message)
                ∷ ("version", J.of_u64 result.version)
                ∷ ("deleted_rows", J.of_u64 result.deleted_rows)
                ∷ []))

  unfoldable pub engine_drop_table_json : Ptr → CString → Call S Ptr
  engine_drop_table_json handle input_json = do
    clear_last_error
    found ← engine_handle_ref handle
    on_some B none found λ engine.
        on_ok B none (parse_json_input J.drop_table_from_str input_json "input_json") λ parsed. do
          answer ← ffi_block_on (B.drop_table engine (record { table_name = parsed.table_name }))
          on_ok B none answer λ result. json_string_response (
              J.of_members
                (("success", J.of_bool true) ∷ ("message", J.of_string result.message) ∷ []))
