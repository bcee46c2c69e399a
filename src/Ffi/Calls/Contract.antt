-- ===== src/Ffi/Calls/Contract.antt =====
-- src/ffi.rs: the error protocol over all the functions that C calls.
pub mod Rules
pub mod Entries
use vldb_lancedb.Ffi.Calls.Contract.Entries.{
  IsHonest-runtime_create, IsHonest-runtime_open_default_engine, IsHonest-runtime_open_named_engine,
  IsHonest-runtime_database_path_for_name, IsHonest-engine_create_table_json,
  IsHonest-engine_vector_upsert, IsHonest-engine_vector_upsert_raw, IsHonest-engine_vector_search,
  IsHonest-engine_vector_search_f32, IsHonest-engine_delete_json, IsHonest-engine_drop_table_json,
}
use vldb_lancedb.Ffi.Memory.Reports.{IsHonest, IsHonest-map}
use vldb_lancedb.Ffi.Calls.{State}
use vldb_lancedb.Ffi.Memory.{◌>>=◌}
use vldb_lancedb.Ffi.Calls.Requests.{
  respond, Request, HasLiveHandle, is_failure, create_runtime, open_default, open_named,
  path_for_name, create_table, upsert, upsert_raw, search_for, search_f32, delete_rows, drop_table,
}
use vldb_lancedb.Prelude.{List, ℕ, refl}
use vldb_lancedb.Ffi.Inputs.{FfiJson}
use vldb_lancedb.Ffi.Backend.{Backend}

module _ (B : Backend) (J : FfiJson B.F32) (capacity : List ℕ → ℕ) where
  open B use {F32, Runtime, Engine, World}

  -- On a null or a live handle every function has an outcome, whatever message was set before; after it a
  -- message is set exactly if the pointer that is returned is null or the status is not success.
  pub IsHonest-respond :
      (request : Request F32) (s : State B)
      → HasLiveHandle B s request
      → IsHonest is_failure (respond B J capacity request s)
  unfolding respond ◌>>=◌
  IsHonest-respond (create_runtime options) s live =
      IsHonest-map _ _ _ (λ p. refl) _ (IsHonest-runtime_create B J capacity options s)
  IsHonest-respond (open_default handle) s live =
      IsHonest-map _ _ _ (λ p. refl) _
        (IsHonest-runtime_open_default_engine B J capacity handle s live)
  IsHonest-respond (open_named handle name) s live =
      IsHonest-map _ _ _ (λ p. refl) _
        (IsHonest-runtime_open_named_engine B J capacity handle name s live)
  IsHonest-respond (path_for_name handle name) s live =
      IsHonest-map _ _ _ (λ p. refl) _
        (IsHonest-runtime_database_path_for_name B J capacity handle name s live)
  IsHonest-respond (create_table handle input) s live =
      IsHonest-map _ _ _ (λ p. refl) _
        (IsHonest-engine_create_table_json B J capacity handle input s live)
  IsHonest-respond (upsert handle input source data_len) s live =
      IsHonest-map _ _ _ (λ p. refl) _
        (IsHonest-engine_vector_upsert B J capacity handle input source data_len s live)
  IsHonest-respond (upsert_raw handle name format source data_len keys keys_len no_result) s live =
      IsHonest-map _ _ _ (λ p. refl) _
        (IsHonest-engine_vector_upsert_raw B J capacity handle name format source data_len keys
          keys_len no_result s live)
  IsHonest-respond (search_for handle input no_output) s live =
      IsHonest-map _ _ _ (λ p. refl) _
        (IsHonest-engine_vector_search B J capacity handle input no_output s live)
  IsHonest-respond
        (search_f32 handle name vector vector_len limit filter column format no_output no_result) s
        live =
      IsHonest-map _ _ _ (λ p. refl) _
        (IsHonest-engine_vector_search_f32 B J capacity handle name vector vector_len limit filter
          column format no_output no_result s live)
  IsHonest-respond (delete_rows handle input) s live =
      IsHonest-map _ _ _ (λ p. refl) _
        (IsHonest-engine_delete_json B J capacity handle input s live)
  IsHonest-respond (drop_table handle input) s live =
      IsHonest-map _ _ _ (λ p. refl) _
        (IsHonest-engine_drop_table_json B J capacity handle input s live)
