-- ===== src/Ffi/Calls/Disposal.antt =====
-- src/ffi.rs: the memory of the C interface over all its functions, and what C frees after a call.
pub mod Rules
pub mod Entries
use vldb_lancedb.Ffi.Calls.Disposal.Entries.{
  Owns-runtime_create, Owns-runtime_open_default_engine, Owns-runtime_open_named_engine,
  Owns-runtime_database_path_for_name, Owns-engine_create_table_json, Owns-engine_vector_upsert,
  Owns-engine_vector_upsert_raw, Owns-engine_vector_search, Owns-engine_vector_search_f32,
  Owns-engine_delete_json, Owns-engine_drop_table_json,
}
use vldb_lancedb.Ffi.Calls.Contract.{IsHonest-respond}
use vldb_lancedb.Ffi.Memory.Reports.{IsHonest}
use vldb_lancedb.Ffi.Memory.Owns.{IsFresh, IsOwned, IsOwned-map}
use vldb_lancedb.Ffi.Memory.{◌>>=◌}
use vldb_lancedb.Ffi.Calls.{State}
use vldb_lancedb.Ffi.Calls.Requests.{
  Request, respond, dispose, Response, HasLiveHandle, create_runtime, is_failure, open_default,
  open_named, path_for_name, create_table, upsert, upsert_raw, search_for, search_f32, delete_rows,
  drop_table,
}
use vldb_lancedb.Prelude.{List, ℕ, length, ◌≤◌, Option, ◌≡◌, some, none, refl}
use vldb_lancedb.Ffi.Inputs.{FfiJson}
use vldb_lancedb.Ffi.Backend.{Backend}

module _ (B : Backend) (J : FfiJson B.F32) (capacity : List ℕ → ℕ)
    (fits : (content : List ℕ) → length content ≤ capacity content) where
  open B use {F32, Runtime, Engine, World}

  IsOwned-respond :
      (request : Request F32) (s : State B)
      → IsFresh s
      → IsOwned (dispose B J capacity) s.heap (respond B J capacity request s)
  unfolding respond dispose ◌>>=◌
  IsOwned-respond (create_runtime options) s fresh =
      IsOwned-map _ _ _ (λ p t. refl) _ _ ((Owns-runtime_create B J capacity options).at s fresh)
  IsOwned-respond (open_default handle) s fresh =
      IsOwned-map _ _ _ (λ p t. refl) _ _
        ((Owns-runtime_open_default_engine B J capacity handle).at s fresh)
  IsOwned-respond (open_named handle name) s fresh =
      IsOwned-map _ _ _ (λ p t. refl) _ _
        ((Owns-runtime_open_named_engine B J capacity handle name).at s fresh)
  IsOwned-respond (path_for_name handle name) s fresh =
      IsOwned-map _ _ _ (λ p t. refl) _ _
        ((Owns-runtime_database_path_for_name B J capacity handle name).at s fresh)
  IsOwned-respond (create_table handle input) s fresh =
      IsOwned-map _ _ _ (λ p t. refl) _ _
        ((Owns-engine_create_table_json B J capacity handle input).at s fresh)
  IsOwned-respond (upsert handle input source data_len) s fresh =
      IsOwned-map _ _ _ (λ p t. refl) _ _
        ((Owns-engine_vector_upsert B J capacity handle input source data_len).at s fresh)
  IsOwned-respond (upsert_raw handle name format source data_len keys keys_len no_result) s fresh =
      IsOwned-map _ _ _ (λ p t. refl) _ _
        ((Owns-engine_vector_upsert_raw B J capacity handle name format source data_len keys
            keys_len no_result).at
          s fresh)
  IsOwned-respond (search_for handle input no_output) s fresh =
      IsOwned-map _ _ _ (λ p t. refl) _ _
        ((Owns-engine_vector_search B J capacity fits handle input no_output).at s fresh)
  IsOwned-respond
        (search_f32 handle name vector vector_len limit filter column format no_output no_result) s
        fresh =
      IsOwned-map _ _ _ (λ p t. refl) _ _
        ((Owns-engine_vector_search_f32 B J capacity fits handle name vector vector_len limit filter
            column format no_output no_result).at
          s fresh)
  IsOwned-respond (delete_rows handle input) s fresh =
      IsOwned-map _ _ _ (λ p t. refl) _ _
        ((Owns-engine_delete_json B J capacity handle input).at s fresh)
  IsOwned-respond (drop_table handle input) s fresh =
      IsOwned-map _ _ _ (λ p t. refl) _ _
        ((Owns-engine_drop_table_json B J capacity handle input).at s fresh)

  settled :
      (request : Request F32) (s : State B) (o : Option (Response × State B))
      → IsHonest is_failure o
      → IsOwned (dispose B J capacity) s.heap o
      → (r : Response) × (s' : State B) × (t : State B) × (o ≡ some (r, s'))
        × (dispose B J capacity r s' ≡ some (tt, t))
        × (t.heap ≡ s.heap)
  settled request s none honest owned = absurd honest
  settled request s (some (r, s')) honest (fresh, frees) =
      let (t, freed, back) = frees s' refl in (r, s', t, refl, freed, back)

  -- Where the addresses from `next` on are free and a `Vec` has the capacity that its elements need, a
  -- function on a null or a live handle has a response, C can free what the response holds, and the heap is
  -- then the one from before the call: nothing leaks, and nothing else was freed.
  pub respond-dispose :
      (request : Request F32) (s : State B)
      → IsFresh s
      → HasLiveHandle B s request
      → (r : Response) × (s' : State B) × (t : State B) × (respond B J capacity request s
          ≡ some (r, s'))
        × (dispose B J capacity r s' ≡ some (tt, t))
        × (t.heap ≡ s.heap)
  respond-dispose request s fresh live =
      settled request s (respond B J capacity request s)
        (IsHonest-respond B J capacity request s live) (IsOwned-respond request s fresh)
