-- ===== src/Ffi/Calls/Contract/Entries.antt =====
-- src/ffi.rs: the error protocol and each function of the C interface.
use vldb_lancedb.Ffi.Options.{build_runtime_from_options}
use vldb_lancedb.Ffi.Calls.Contract.Rules.{
  Reports-on_ok, Reports-runtime, Reports-engine, Reports-open_engine, Reports-answer,
  Quiet-new_runtime, Reports-json, Reports-fail_with, Quiet-database_path,
}
use vldb_lancedb.Ffi.Memory.Reports.{
  IsHonest, is_null, Reports-if, Reports-bind, Reports-pure, Reports-alloc,
  Quiet-allocate_byte_buffer, Reports-string_into_raw, Reports-map,
}
use vldb_lancedb.Ffi.Calls.Requests.{IsRuntimeHandle, IsEngineHandle}
use vldb_lancedb.Ffi.Memory.{clear_last_error, ◌>>=◌}
use vldb_lancedb.Ffi.{
  status_code, Ptr, CString, VldbLancedbRuntimeOptions, VldbLancedbFfiInputFormat,
  VldbLancedbFfiOutputFormat, VldbLancedbUpsertResultPod,
}
use vldb_lancedb.Ffi.Calls.Tables.{
  engine_create_table_json, engine_vector_search_f32, engine_drop_table_json, engine_vector_upsert,
  engine_vector_upsert_raw, engine_delete_json, engine_vector_search, with_buffer, Status,
  SearchOutput, failed_status,
}
use vldb_lancedb.Ffi.Calls.{
  runtime_create, runtime_open_named_engine, runtime_database_path_for_name,
  runtime_open_default_engine, State,
}
use vldb_lancedb.Prelude.{List, ℕ, Bool, Option, not, ◌==◌, none, refl}
use vldb_lancedb.Ffi.Inputs.{FfiJson}
use vldb_lancedb.Ffi.Backend.{Backend}

module _ (B : Backend) (J : FfiJson B.F32) (capacity : List ℕ → ℕ) where
  open B use {F32, Runtime, Engine, World}

  pub IsHonest-runtime_create :
      (options : VldbLancedbRuntimeOptions) (s : State B)
      → IsHonest is_null (runtime_create B options s)
  unfolding runtime_create clear_last_error ◌>>=◌
  IsHonest-runtime_create options s =
      (Reports-on_ok B is_null none refl (build_runtime_from_options options) _ λ built.
          Reports-bind _ _ _ (Quiet-new_runtime B J capacity built) λ runtime. Reports-alloc _).at
        _ refl

  pub IsHonest-engine_create_table_json :
      (handle : Ptr) (input : CString) (s : State B)
      → IsEngineHandle B s handle
      → IsHonest is_null (engine_create_table_json B J capacity handle input s)
  unfolding engine_create_table_json
  IsHonest-engine_create_table_json handle input s live =
      Reports-engine B is_null none refl handle _ s live λ engine.
        Reports-on_ok B is_null none refl _ _ λ parsed.
          Reports-on_ok B is_null none refl _ _ λ mapped.
            Reports-answer B J capacity is_null none refl _ _ λ result. Reports-json B J capacity _

  pub IsHonest-runtime_open_default_engine :
      (handle : Ptr) (s : State B)
      → IsRuntimeHandle B s handle
      → IsHonest is_null (runtime_open_default_engine B handle s)
  unfolding runtime_open_default_engine
  IsHonest-runtime_open_default_engine handle s live =
      Reports-runtime B is_null none refl handle _ s live
        λ runtime. Reports-open_engine B J capacity runtime none

  pub IsHonest-runtime_open_named_engine :
      (handle : Ptr) (name : CString) (s : State B)
      → IsRuntimeHandle B s handle
      → IsHonest is_null (runtime_open_named_engine B handle name s)
  unfolding runtime_open_named_engine
  IsHonest-runtime_open_named_engine handle name s live =
      Reports-runtime B is_null none refl handle _ s live λ runtime.
        Reports-on_ok B is_null none refl _ _
          λ given. Reports-open_engine B J capacity runtime given

  pub IsHonest-runtime_database_path_for_name :
      (handle : Ptr) (name : CString) (s : State B)
      → IsRuntimeHandle B s handle
      → IsHonest is_null (runtime_database_path_for_name B handle name s)
  unfolding runtime_database_path_for_name
  IsHonest-runtime_database_path_for_name handle name s live =
      Reports-runtime B is_null none refl handle _ s live λ runtime.
        Reports-on_ok B is_null none refl _ _ λ given.
          Reports-bind _ _ _ (Quiet-database_path B J capacity runtime given)
            λ path. Reports-on_ok B is_null none refl path _ Reports-string_into_raw

  pub IsHonest-engine_vector_upsert :
      (handle : Ptr) (input : CString) (source : Option (List ℕ)) (data_len : ℕ) (s : State B)
      → IsEngineHandle B s handle
      → IsHonest is_null (engine_vector_upsert B J capacity handle input source data_len s)
  unfolding engine_vector_upsert
  IsHonest-engine_vector_upsert handle input source data_len s live =
      Reports-engine B is_null none refl handle _ s live λ engine.
        Reports-on_ok B is_null none refl _ _ λ parsed.
          Reports-on_ok B is_null none refl _ _ λ mapped.
            Reports-answer B J capacity is_null none refl _ _ λ result. Reports-json B J capacity _

  pub IsHonest-engine_delete_json :
      (handle : Ptr) (input : CString) (s : State B)
      → IsEngineHandle B s handle
      → IsHonest is_null (engine_delete_json B J capacity handle input s)
  unfolding engine_delete_json
  IsHonest-engine_delete_json handle input s live =
      Reports-engine B is_null none refl handle _ s live λ engine.
        Reports-on_ok B is_null none refl _ _ λ parsed.
          Reports-answer B J capacity is_null none refl _ _ λ result. Reports-json B J capacity _

  pub IsHonest-engine_drop_table_json :
      (handle : Ptr) (input : CString) (s : State B)
      → IsEngineHandle B s handle
      → IsHonest is_null (engine_drop_table_json B J capacity handle input s)
  unfolding engine_drop_table_json
  IsHonest-engine_drop_table_json handle input s live =
      Reports-engine B is_null none refl handle _ s live λ engine.
        Reports-on_ok B is_null none refl _ _ λ parsed.
          Reports-answer B J capacity is_null none refl _ _ λ result. Reports-json B J capacity _

  pub IsHonest-engine_vector_search :
      (handle : Ptr) (input : CString) (no_output : Bool) (s : State B)
      → IsEngineHandle B s handle
      → IsHonest (λ r. is_null r.0) (engine_vector_search B J capacity handle input no_output s)
  unfolding engine_vector_search with_buffer
  IsHonest-engine_vector_search handle input no_output s live =
      Reports-engine B (λ r. is_null r.0) (none, none) refl handle _ s live
        λ engine.
          Reports-if _ no_output _ _ (Reports-fail_with B (λ r. is_null r.0) (none, none) refl _) (
            Reports-on_ok B (λ r. is_null r.0) (none, none) refl _ _
              λ parsed.
                Reports-on_ok B (λ r. is_null r.0) (none, none) refl _ _
                  λ mapped.
                    Reports-answer B J capacity (λ r. is_null r.0) (none, none) refl _ _
                      λ result. Reports-bind _ _ _ (Quiet-allocate_byte_buffer _ _) λ buffer.
                        Reports-map is_null _ _ _ (λ p. refl) (Reports-json B J capacity _))

  pub IsHonest-engine_vector_upsert_raw :
      (handle : Ptr) (name : CString) (format : VldbLancedbFfiInputFormat)
      (source : Option (List ℕ)) (data_len : ℕ) (keys : Option (List CString)) (keys_len : ℕ)
      (no_result : Bool) (s : State B)
      → IsEngineHandle B s handle
      → IsHonest
          (λ r. not (r.0 == 0))
          (engine_vector_upsert_raw B J capacity handle name format source data_len keys keys_len
            no_result s)
  unfolding engine_vector_upsert_raw status_code
  IsHonest-engine_vector_upsert_raw handle name format source data_len keys keys_len no_result s
        live =
      Reports-engine B verdict failed_status refl handle _ s live λ engine.
        Reports-if _ no_result _ _ (Reports-fail_with B verdict failed_status refl _) (
          Reports-on_ok B verdict failed_status refl _ _ λ mapped.
            Reports-answer B J capacity verdict failed_status refl _ _
              λ result. Reports-pure _ _ refl)
    where
      verdict : Status VldbLancedbUpsertResultPod → Bool
      verdict r = not (r.0 == 0)

  pub IsHonest-engine_vector_search_f32 :
      (handle : Ptr) (name : CString) (vector : Option (List F32)) (vector_len limit : ℕ)
      (filter column : CString) (format : VldbLancedbFfiOutputFormat) (no_output no_result : Bool)
      (s : State B)
      → IsEngineHandle B s handle
      → IsHonest
          (λ r. not (r.0 == 0))
          (engine_vector_search_f32 B J capacity handle name vector vector_len limit filter column
            format no_output no_result s)
  unfolding engine_vector_search_f32 status_code
  IsHonest-engine_vector_search_f32 handle name vector vector_len limit filter column format
        no_output no_result s live =
      Reports-engine B verdict failed_status refl handle _ s live λ engine.
        Reports-if _ no_output _ _ (Reports-fail_with B verdict failed_status refl _) (
          Reports-if _ no_result _ _ (Reports-fail_with B verdict failed_status refl _) (
            Reports-on_ok B verdict failed_status refl _ _ λ mapped.
              Reports-answer B J capacity verdict failed_status refl _ _ λ result.
                Reports-bind _ _ _ (Quiet-allocate_byte_buffer _ _)
                  λ buffer. Reports-pure _ _ refl))
    where
      verdict : Status SearchOutput → Bool
      verdict r = not (r.0 == 0)
