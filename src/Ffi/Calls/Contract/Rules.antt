-- ===== src/Ffi/Calls/Contract/Rules.antt =====
-- src/ffi.rs: the error protocol and the steps that the functions of the C interface share.
use vldb_lancedb.Ffi.Calls.Requests.{IsRuntimeHandle, IsEngineHandle}
use vldb_lancedb.Ffi.{Ptr}
use vldb_lancedb.Ffi.CText.{cstring_new-sanitize_message}
use vldb_lancedb.Ffi.Worker.{ffi_block_on}
use vldb_lancedb.Engine.Options.{LanceDbEngineOptions}
use vldb_lancedb.Ffi.Memory.Reports.{
  Reports, is_null, Quiet, Reports-string_into_raw, Reports-bind, Reports-alloc, Quiet-ffi_block_on,
  IsHonest,
}
use vldb_lancedb.Manager.{DatabaseRuntimeConfig}
use vldb_lancedb.Ffi.Memory.{
  clear_last_error, Call, engine_handle_ref, set_last_error, runtime_handle_ref, pure, read_heap,
  runtime_at, ◌>>=◌, engine_at, engine_handle, ◌>>◌,
}
use vldb_lancedb.Ffi.Calls.Tables.{json_string_response}
use vldb_lancedb.Ffi.Calls.{
  new_runtime, fail_with, database_path, on_ok, open_engine, State, on_some,
}
use vldb_lancedb.Ffi.Inputs.{FfiJson}
use vldb_lancedb.Prelude.{
  Bool, ◌≡◌, List, ℕ, true, Result, Option, String, ok, none, err, refl, some,
}
use vldb_lancedb.Ffi.Backend.{Backend, Job}

module _ (B : Backend) {R : Type 0} (failed : R → Bool) (value : R)
    (bad : failed value ≡ true) where
  open B use {Runtime, Engine, World}

  abbrev Honest : Call (State B) R → Type 0
  Honest m = Reports failed m

  pub Reports-fail_with : (message : String) → Honest (fail_with B value message)
  unfolding fail_with set_last_error pure ◌>>=◌
  Reports-fail_with message = record { at = λ s h. rw (cstring_new-sanitize_message message, bad) }

  pub Reports-on_ok :
      {A : Type 0} (result : Result A String) (next : A → Call (State B) R)
      → ((a : A) → Honest (next a))
      → Honest (on_ok B value result next)
  unfolding on_ok
  Reports-on_ok (ok a) next k = k a
  Reports-on_ok (err message) next k = Reports-fail_with message

  pub Reports-engine :
      (handle : Ptr) (next : Engine → Call (State B) R) (s : State B)
      → IsEngineHandle B s handle
      → ((engine : Engine) → Honest (next engine))
      → IsHonest failed (
          (clear_last_error >> (engine_handle_ref handle >>= λ found. on_some B value found next))
            s)
  unfolding clear_last_error engine_handle_ref read_heap engine_at on_some set_last_error pure ◌>>=◌
  Reports-engine none next s live k =
      rw (cstring_new-sanitize_message "engine handle must not be null", bad)
  Reports-engine (some address) next s (engine, at) k = rw at ((k engine).at _ refl)

  pub Reports-runtime :
      (handle : Ptr) (next : Runtime → Call (State B) R) (s : State B)
      → IsRuntimeHandle B s handle
      → ((runtime : Runtime) → Honest (next runtime))
      → IsHonest failed (
          (clear_last_error >> (runtime_handle_ref handle >>= λ found. on_some B value found next))
            s)
  unfolding clear_last_error runtime_handle_ref read_heap runtime_at on_some set_last_error pure
      ◌>>=◌
  Reports-runtime none next s live k =
      rw (cstring_new-sanitize_message "runtime handle must not be null", bad)
  Reports-runtime (some address) next s (runtime, at) k = rw at ((k runtime).at _ refl)

module _ (B : Backend) (J : FfiJson B.F32) (capacity : List ℕ → ℕ) where
  open B use {F32, Runtime, Engine, World}

  pub Quiet-new_runtime :
      (built : DatabaseRuntimeConfig × LanceDbEngineOptions) → Quiet (new_runtime B built)
  unfolding new_runtime
  Quiet-new_runtime built = record { at = λ s h. h }

  pub Quiet-database_path :
      (runtime : Runtime) (name : Option String) → Quiet (database_path B runtime name)
  unfolding database_path
  Quiet-database_path runtime name = record { at = λ s h. h }

  pub Reports-json : (value : J.Value) → Reports is_null (json_string_response B J capacity value)
  unfolding json_string_response
  Reports-json value = Reports-on_ok B is_null none refl _ _ Reports-string_into_raw

  -- The job of a call runs on the worker, and its answer is turned into a result.
  pub Reports-answer :
      {A R : Type 0} (failed : R → Bool) (value : R) (bad : failed value ≡ true) (job : Job World A)
      (next : A → Call (State B) R)
      → ((a : A) → Reports failed (next a))
      → Reports failed (ffi_block_on job >>= λ answer. on_ok B value answer next)
  Reports-answer failed value bad job next k =
      Reports-bind _ _ _ (Quiet-ffi_block_on job)
        λ answer. Reports-on_ok B failed value bad answer next k

  pub Reports-open_engine :
      (runtime : Runtime) (name : Option String) → Reports is_null (open_engine B runtime name)
  unfolding open_engine
  Reports-open_engine runtime name =
      Reports-answer is_null none refl _ _ λ engine. Reports-alloc (engine_handle engine)
