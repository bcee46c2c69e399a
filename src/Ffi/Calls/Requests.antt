-- ===== src/Ffi/Calls/Requests.antt =====
-- The functions that C calls as one: a request, its response, and whether the response says that it failed.
use vldb_lancedb.Ffi.Memory.{runtime_handle, Call, engine_handle, ◌>>=◌, pure, ◌>>◌}
use vldb_lancedb.Ffi.Calls.Tables.{
  Status, SearchOutput, engine_create_table_json, engine_vector_upsert, engine_vector_upsert_raw,
  engine_vector_search, engine_vector_search_f32, engine_delete_json, engine_drop_table_json,
}
use vldb_lancedb.Ffi.Calls.{
  State, runtime_create, runtime_open_default_engine, runtime_open_named_engine,
  runtime_database_path_for_name, runtime_destroy, engine_destroy, string_free, bytes_free,
}
use vldb_lancedb.Ffi.Memory.Reports.{is_null}
use vldb_lancedb.Ffi.Inputs.{FfiJson}
use vldb_lancedb.Prelude.{Bool, Option, List, some, not, ℕ, ◌≡◌, ◌==◌, none}
use vldb_lancedb.Ffi.Backend.{Backend}
use vldb_lancedb.Ffi.{
  VldbLancedbRuntimeOptions, Ptr, CString, VldbLancedbByteBuffer, VldbLancedbFfiInputFormat,
  VldbLancedbUpsertResultPod, VldbLancedbFfiOutputFormat,
}

pub data Request (F32 : Type 0) : Type 0 where
  create_runtime : VldbLancedbRuntimeOptions → Request F32
  open_default : Ptr → Request F32
  open_named : Ptr → CString → Request F32
  path_for_name : Ptr → CString → Request F32
  create_table : Ptr → CString → Request F32
  upsert : Ptr → CString → Option (List ℕ) → ℕ → Request F32
  upsert_raw :
      Ptr
      → CString
      → VldbLancedbFfiInputFormat
      → Option (List ℕ)
      → ℕ
      → Option (List CString)
      → ℕ
      → Bool
      → Request F32
  search_for : Ptr → CString → Bool → Request F32
  search_f32 :
      Ptr
      → CString
      → Option (List F32)
      → ℕ
      → ℕ
      → CString
      → CString
      → VldbLancedbFfiOutputFormat
      → Bool
      → Bool
      → Request F32
  delete_rows : Ptr → CString → Request F32
  drop_table : Ptr → CString → Request F32

-- What C gets back, the output pointers included
pub data Response : Type 0 where
  runtime_pointer engine_pointer text : Ptr → Response
  searched : Ptr × Option VldbLancedbByteBuffer → Response
  upserted : Status VldbLancedbUpsertResultPod → Response
  found : Status SearchOutput → Response

-- How C tells that a call failed
abbrev pub is_failure : Response → Bool
is_failure (runtime_pointer p) = is_null p
is_failure (engine_pointer p) = is_null p
is_failure (text p) = is_null p
is_failure (searched (p, buffer)) = is_null p
is_failure (upserted (status, result)) = not (status == 0)
is_failure (found (status, result)) = not (status == 0)

module _ (B : Backend) where
  open B use {Runtime, Engine, World}

  -- The handle is null, or the address of a live runtime or engine.
  abbrev pub IsRuntimeHandle : State B → Ptr → Type 0
  IsRuntimeHandle s none = Unit
  IsRuntimeHandle s (some address) =
      (runtime : Runtime) × (s.heap address ≡ some (runtime_handle runtime))

  abbrev pub IsEngineHandle : State B → Ptr → Type 0
  IsEngineHandle s none = Unit
  IsEngineHandle s (some address) =
      (engine : Engine) × (s.heap address ≡ some (engine_handle engine))

  abbrev pub HasLiveHandle : {F32 : Type 0} → State B → Request F32 → Type 0
  HasLiveHandle s (create_runtime options) = Unit
  HasLiveHandle s (open_default handle) = IsRuntimeHandle s handle
  HasLiveHandle s (open_named handle name) = IsRuntimeHandle s handle
  HasLiveHandle s (path_for_name handle name) = IsRuntimeHandle s handle
  HasLiveHandle s (create_table handle input) = IsEngineHandle s handle
  HasLiveHandle s (upsert handle input source data_len) = IsEngineHandle s handle
  HasLiveHandle s (upsert_raw handle name format source data_len keys keys_len no_result) =
      IsEngineHandle s handle
  HasLiveHandle s (search_for handle input no_output) = IsEngineHandle s handle
  HasLiveHandle s
        (search_f32 handle name vector vector_len limit filter column format no_output no_result) =
      IsEngineHandle s handle
  HasLiveHandle s (delete_rows handle input) = IsEngineHandle s handle
  HasLiveHandle s (drop_table handle input) = IsEngineHandle s handle

module _ (B : Backend) (J : FfiJson B.F32) (capacity : List ℕ → ℕ) where
  open B use {F32, Runtime, Engine, World}

  unfoldable pub respond : Request F32 → Call (State B) Response
  respond (create_runtime options) = do p ← runtime_create B options; pure (runtime_pointer p)
  respond (open_default handle) = do
    p ← runtime_open_default_engine B handle
    pure (engine_pointer p)
  respond (open_named handle name) = do
    p ← runtime_open_named_engine B handle name
    pure (engine_pointer p)
  respond (path_for_name handle name) = do
    p ← runtime_database_path_for_name B handle name
    pure (text p)
  respond (create_table handle input) = do
    p ← engine_create_table_json B J capacity handle input
    pure (text p)
  respond (upsert handle input source data_len) = do
    p ← engine_vector_upsert B J capacity handle input source data_len
    pure (text p)
  respond (upsert_raw handle name format source data_len keys keys_len no_result) = do
    r ←
        engine_vector_upsert_raw B J capacity handle name format source data_len keys keys_len
          no_result
    pure (upserted r)
  respond (search_for handle input no_output) = do
    r ← engine_vector_search B J capacity handle input no_output
    pure (searched r)
  respond
        (search_f32 handle name vector vector_len limit filter column format no_output no_result) =
      do
        r ←
            engine_vector_search_f32 B J capacity handle name vector vector_len limit filter column
              format no_output no_result
        pure (found r)
  respond (delete_rows handle input) = do
    p ← engine_delete_json B J capacity handle input
    pure (text p)
  respond (drop_table handle input) = do
    p ← engine_drop_table_json B J capacity handle input
    pure (text p)

  -- The functions by which C gives back what a response holds
  unfoldable pub dispose : Response → Call (State B) (Unit {0})
  dispose (runtime_pointer p) = runtime_destroy B p
  dispose (engine_pointer p) = engine_destroy B p
  dispose (text p) = string_free B p
  dispose (searched (p, none)) = string_free B p
  dispose (searched (p, some buffer)) = string_free B p >> bytes_free B buffer
  dispose (upserted result) = pure tt
  dispose (found (status, none)) = pure tt
  dispose (found (status, some output)) = bytes_free B output.output_data
