-- ===== src/Ffi/Calls/Disposal/Entries.antt =====
-- src/ffi.rs: what each function of the C interface hands out.
use vldb_lancedb.Ffi.Calls.Requests.{dispose, searched, found}
use vldb_lancedb.Ffi.Calls.Disposal.Rules.{
  Owns-runtime, Owns-engine, Owns-on_ok, Still-database_path, Owns-answer, Owns-string_into_raw,
  Still-clear_last_error, Still-new_runtime, Owns-engine_handle, Owns-runtime_handle,
  Owns-fail_with, Owns-allocate_byte_buffer,
}
use vldb_lancedb.Ffi.Memory.Owns.{Owns, Owns-bind, Owns-if, Owns-both, Owns-pure, Owns-map}
use vldb_lancedb.Ffi.{
  Ptr, CString, VldbLancedbRuntimeOptions, VldbLancedbFfiInputFormat, VldbLancedbFfiOutputFormat,
}
use vldb_lancedb.Ffi.Memory.{pure, Call}
use vldb_lancedb.Ffi.Calls.{
  runtime_database_path_for_name, runtime_open_named_engine, runtime_open_default_engine,
  runtime_create, open_engine, runtime_destroy, string_free, engine_destroy, State, bytes_free,
}
use vldb_lancedb.Ffi.Calls.Tables.{
  engine_drop_table_json, engine_vector_upsert, engine_vector_upsert_raw, engine_delete_json,
  engine_create_table_json, json_string_response, engine_vector_search_f32, engine_vector_search,
  failed_status, with_buffer,
}
use vldb_lancedb.Prelude.{List, ℕ, length, Option, ◌≤◌, none, String, ◌≡◌, some, Bool, refl}
use vldb_lancedb.Ffi.Inputs.{FfiJson}
use vldb_lancedb.Ffi.Backend.{Backend}

module _ (B : Backend) (J : FfiJson B.F32) (capacity : List ℕ → ℕ) where
  open B use {F32, Runtime, Engine, World}

  abbrev frees : Ptr → Call (State B) (Unit {0})
  frees = string_free B

  none_held : (t : State B) → string_free B none t ≡ some (tt, t)
  unfolding string_free pure
  none_held t = refl

  no_runtime : (t : State B) → runtime_destroy B none t ≡ some (tt, t)
  unfolding runtime_destroy pure
  no_runtime t = refl

  no_engine : (t : State B) → engine_destroy B none t ≡ some (tt, t)
  unfolding engine_destroy pure
  no_engine t = refl

  Owns-json : (value : J.Value) → Owns (string_free B) (json_string_response B J capacity value)
  unfolding json_string_response
  Owns-json value = Owns-on_ok B frees none none_held _ _ λ text. Owns-string_into_raw B text

  pub Owns-runtime_create :
      (options : VldbLancedbRuntimeOptions) → Owns (runtime_destroy B) (runtime_create B options)
  unfolding runtime_create
  Owns-runtime_create options = Owns-bind _ _ _ (Still-clear_last_error B) λ _.
      Owns-on_ok B _ none no_runtime _ _ λ built.
        Owns-bind _ _ _ (Still-new_runtime B built) λ runtime. Owns-runtime_handle B runtime

  Owns-open_engine :
      (runtime : Runtime) (name : Option String)
      → Owns (engine_destroy B) (open_engine B runtime name)
  unfolding open_engine
  Owns-open_engine runtime name =
      Owns-answer B _ none no_engine _ _ λ engine. Owns-engine_handle B engine

  pub Owns-runtime_open_default_engine :
      (handle : Ptr) → Owns (engine_destroy B) (runtime_open_default_engine B handle)
  unfolding runtime_open_default_engine
  Owns-runtime_open_default_engine handle =
      Owns-runtime B _ none no_engine handle _ λ runtime. Owns-open_engine runtime none

  pub Owns-runtime_open_named_engine :
      (handle : Ptr) (name : CString)
      → Owns (engine_destroy B) (runtime_open_named_engine B handle name)
  unfolding runtime_open_named_engine
  Owns-runtime_open_named_engine handle name =
      Owns-runtime B _ none no_engine handle _
        λ runtime. Owns-on_ok B _ none no_engine _ _ λ given. Owns-open_engine runtime given

  pub Owns-runtime_database_path_for_name :
      (handle : Ptr) (name : CString)
      → Owns (string_free B) (runtime_database_path_for_name B handle name)
  unfolding runtime_database_path_for_name
  Owns-runtime_database_path_for_name handle name =
      Owns-runtime B frees none none_held handle _ λ runtime.
        Owns-on_ok B frees none none_held _ _ λ given.
          Owns-bind _ _ _ (Still-database_path B runtime given)
            λ path. Owns-on_ok B frees none none_held path _ λ text. Owns-string_into_raw B text

  pub Owns-engine_create_table_json :
      (handle : Ptr) (input : CString)
      → Owns (string_free B) (engine_create_table_json B J capacity handle input)
  unfolding engine_create_table_json
  Owns-engine_create_table_json handle input = Owns-engine B frees none none_held handle _ λ engine.
      Owns-on_ok B frees none none_held _ _ λ parsed.
        Owns-on_ok B frees none none_held _ _
          λ mapped. Owns-answer B frees none none_held _ _ λ result. Owns-json _

  pub Owns-engine_vector_upsert :
      (handle : Ptr) (input : CString) (source : Option (List ℕ)) (data_len : ℕ)
      → Owns (string_free B) (engine_vector_upsert B J capacity handle input source data_len)
  unfolding engine_vector_upsert
  Owns-engine_vector_upsert handle input source data_len =
      Owns-engine B frees none none_held handle _ λ engine.
        Owns-on_ok B frees none none_held _ _ λ parsed.
          Owns-on_ok B frees none none_held _ _
            λ mapped. Owns-answer B frees none none_held _ _ λ result. Owns-json _

  pub Owns-engine_delete_json :
      (handle : Ptr) (input : CString)
      → Owns (string_free B) (engine_delete_json B J capacity handle input)
  unfolding engine_delete_json
  Owns-engine_delete_json handle input = Owns-engine B frees none none_held handle _ λ engine.
      Owns-on_ok B frees none none_held _ _
        λ parsed. Owns-answer B frees none none_held _ _ λ result. Owns-json _

  pub Owns-engine_drop_table_json :
      (handle : Ptr) (input : CString)
      → Owns (string_free B) (engine_drop_table_json B J capacity handle input)
  unfolding engine_drop_table_json
  Owns-engine_drop_table_json handle input = Owns-engine B frees none none_held handle _ λ engine.
      Owns-on_ok B frees none none_held _ _
        λ parsed. Owns-answer B frees none none_held _ _ λ result. Owns-json _

  -- A result without a buffer or a string
  abbrev nothing : {R : Type 0} → R → Call (State B) (Unit {0})
  nothing r = pure tt

  untouched : (t : State B) → pure tt t ≡ some (tt, t)
  unfolding pure
  untouched t = refl

  pub Owns-engine_vector_upsert_raw :
      (handle : Ptr) (name : CString) (format : VldbLancedbFfiInputFormat)
      (source : Option (List ℕ)) (data_len : ℕ) (keys : Option (List CString)) (keys_len : ℕ)
      (no_result : Bool)
      → Owns nothing (
          engine_vector_upsert_raw B J capacity handle name format source data_len keys keys_len
            no_result)
  unfolding engine_vector_upsert_raw
  Owns-engine_vector_upsert_raw handle name format source data_len keys keys_len no_result =
      Owns-engine B nothing failed_status untouched handle _ λ engine.
        Owns-if nothing no_result _ _ (Owns-fail_with B nothing failed_status untouched _) (
          Owns-on_ok B nothing failed_status untouched _ _ λ mapped.
            Owns-answer B nothing failed_status untouched _ _
              λ result. Owns-pure nothing _ untouched)

  module _ (fits : (content : List ℕ) → length content ≤ capacity content) where
    pub Owns-engine_vector_search :
        (handle : Ptr) (input : CString) (no_output : Bool)
        → Owns
            (λ r. dispose B J capacity (searched r))
            (engine_vector_search B J capacity handle input no_output)
    unfolding engine_vector_search dispose with_buffer
    Owns-engine_vector_search handle input no_output =
        Owns-engine B _ (none, none) none_held handle _
          λ engine. Owns-if _ no_output _ _ (Owns-fail_with B _ (none, none) none_held _) (
            Owns-on_ok B _ (none, none) none_held _ _
              λ parsed.
                Owns-on_ok B _ (none, none) none_held _ _
                  λ mapped.
                    Owns-answer B _ (none, none) none_held _ _
                      λ result.
                        Owns-both (bytes_free B) frees _ _ _
                          (λ buffer response. (response, some buffer))
                          (Owns-allocate_byte_buffer B _ _ (fits _)) (λ buffer. Owns-json _)
                          λ buffer response t. refl)

    pub Owns-engine_vector_search_f32 :
        (handle : Ptr) (name : CString) (vector : Option (List F32)) (vector_len limit : ℕ)
        (filter column : CString) (format : VldbLancedbFfiOutputFormat) (no_output no_result : Bool)
        → Owns
            (λ r. dispose B J capacity (found r))
            (engine_vector_search_f32 B J capacity handle name vector vector_len limit filter column
              format no_output no_result)
    unfolding engine_vector_search_f32 dispose pure
    Owns-engine_vector_search_f32 handle name vector vector_len limit filter column format no_output
          no_result =
        Owns-engine B _ failed_status untouched handle _ λ engine.
          Owns-if _ no_output _ _ (Owns-fail_with B _ failed_status untouched _) (
            Owns-if _ no_result _ _ (Owns-fail_with B _ failed_status untouched _) (
              Owns-on_ok B _ failed_status untouched _ _ λ mapped.
                Owns-answer B _ failed_status untouched _ _ λ result.
                  Owns-map (bytes_free B) _ _ _ (λ buffer t. refl)
                    (Owns-allocate_byte_buffer B _ _ (fits _))))
