-- ===== src/Ffi/Calls/Disposal/Rules.antt =====
-- src/ffi.rs: what the steps of the C interface hand out.
use vldb_lancedb.Engine.Options.{LanceDbEngineOptions}
use vldb_lancedb.Ffi.{Ptr, VldbLancedbByteBuffer}
use vldb_lancedb.Manager.{DatabaseRuntimeConfig}
use vldb_lancedb.Ffi.Memory.Owns.{
  Still, Owns, Still-bind, Owns-pure, Owns-alloc, Owns-bind, Owns-map,
}
use vldb_lancedb.Prelude.{
  List, ℕ, String, Option, ◌≡◌, refl, length, ◌≤◌, some, none, Result, ok, err, Bool-cases, ◌==◌,
  inl, inr, false, arith, true,
}
use vldb_lancedb.Ffi.Calls.{
  engine_destroy, runtime_destroy, database_path, new_runtime, string_free, State, free_runtime,
  free_engine, free_string, fail_with, on_ok, bytes_free, on_some, free_at, free_bytes,
}
use vldb_lancedb.Ffi.Memory.{
  engine_handle_ref, string_into_raw, runtime_handle_ref, set_last_error, runtime_at, engine_at,
  raw_of, Call, clear_last_error, read_heap, undefined, pure, Object, ◌>>=◌, runtime_handle, alloc,
  ◌>>◌, engine_handle, allocate_byte_buffer, c_string, bytes, continue,
}
use vldb_lancedb.Ffi.Worker.{ffi_block_on, dispatch, run_job, ffi_runtime_worker}
use vldb_lancedb.Ffi.Backend.{Backend, Job}

module _ (B : Backend) where
  open B use {Runtime, Engine, World}

  Still-set_last_error :
      (message : String)
      → Still {World = World} (set_last_error {Runtime = Runtime} {Engine = Engine} message)
  unfolding set_last_error
  Still-set_last_error message = record { at = λ s. (refl, refl) }

  pub Still-clear_last_error :
      Still {World = World} (clear_last_error {Runtime = Runtime} {Engine = Engine})
  unfolding clear_last_error
  Still-clear_last_error = record { at = λ s. (refl, refl) }

  pub Still-new_runtime :
      (built : DatabaseRuntimeConfig × LanceDbEngineOptions) → Still (new_runtime B built)
  unfolding new_runtime
  Still-new_runtime built = record { at = λ s. (refl, refl) }

  pub Still-database_path :
      (runtime : Runtime) (name : Option String) → Still (database_path B runtime name)
  unfolding database_path
  Still-database_path runtime name = record { at = λ s. (refl, refl) }

  Still-dispatch :
      {A : Type 0} (failed : Option String) (job : Job World A)
      → Still {Runtime = Runtime} {Engine = Engine} (dispatch failed job)
  unfolding dispatch run_job pure
  Still-dispatch (some message) job = record { at = λ s. (refl, refl) }
  Still-dispatch none job = record { at = λ s. (refl, refl) }

  pub Still-ffi_block_on :
      {A : Type 0} (job : Job World A)
      → Still {Runtime = Runtime} {Engine = Engine} (ffi_block_on job)
  unfolding ffi_block_on ffi_runtime_worker
  Still-ffi_block_on job =
      Still-bind _ _ (record { at = λ s. (refl, refl) }) λ failed. Still-dispatch failed job

  Still-engine_at :
      (object : Option (Object Runtime Engine)) → Still {World = World} (engine_at object)
  unfolding engine_at undefined pure
  Still-engine_at none = record { at = λ s. tt }
  Still-engine_at (some (runtime_handle runtime)) = record { at = λ s. tt }
  Still-engine_at (some (engine_handle engine)) = record { at = λ s. (refl, refl) }
  Still-engine_at (some (c_string value)) = record { at = λ s. tt }
  Still-engine_at (some (bytes content capacity)) = record { at = λ s. tt }

  Still-runtime_at :
      (object : Option (Object Runtime Engine)) → Still {World = World} (runtime_at object)
  unfolding runtime_at undefined pure
  Still-runtime_at none = record { at = λ s. tt }
  Still-runtime_at (some (runtime_handle runtime)) = record { at = λ s. (refl, refl) }
  Still-runtime_at (some (engine_handle engine)) = record { at = λ s. tt }
  Still-runtime_at (some (c_string value)) = record { at = λ s. tt }
  Still-runtime_at (some (bytes content capacity)) = record { at = λ s. tt }

  pub Still-engine_handle_ref :
      (handle : Ptr)
      → Still (engine_handle_ref {Runtime = Runtime} {Engine = Engine} {World = World} handle)
  unfolding engine_handle_ref read_heap pure
  Still-engine_handle_ref none =
      Still-bind _ _ (Still-set_last_error _) λ _. record { at = λ s. (refl, refl) }
  Still-engine_handle_ref (some address) =
      Still-bind _ _ (record { at = λ s. (refl, refl) }) λ object. Still-engine_at object

  pub Still-runtime_handle_ref :
      (handle : Ptr)
      → Still (runtime_handle_ref {Runtime = Runtime} {Engine = Engine} {World = World} handle)
  unfolding runtime_handle_ref read_heap pure
  Still-runtime_handle_ref none =
      Still-bind _ _ (Still-set_last_error _) λ _. record { at = λ s. (refl, refl) }
  Still-runtime_handle_ref (some address) =
      Still-bind _ _ (record { at = λ s. (refl, refl) }) λ object. Still-runtime_at object

  -- A result is freed by `free`, and the result of a failure holds nothing.
  module _ {R : Type 0} (free : R → Call (State B) (Unit {0})) (value : R)
      (held : (t : State B) → free value t ≡ some (tt, t)) where
    pub Owns-fail_with : (message : String) → Owns free (fail_with B value message)
    unfolding fail_with
    Owns-fail_with message =
        Owns-bind free _ _ (Still-set_last_error message) λ _. Owns-pure free value held

    pub Owns-on_ok :
        {A : Type 0} (result : Result A String) (next : A → Call (State B) R)
        → ((a : A) → Owns free (next a))
        → Owns free (on_ok B value result next)
    unfolding on_ok
    Owns-on_ok (ok a) next k = k a
    Owns-on_ok (err message) next k = Owns-fail_with message

    Owns-on_some :
        {A : Type 0} (found : Option A) (next : A → Call (State B) R)
        → ((a : A) → Owns free (next a))
        → Owns free (on_some B value found next)
    unfolding on_some
    Owns-on_some (some a) next k = k a
    Owns-on_some none next k = Owns-pure free value held

    pub Owns-answer :
        {A : Type 0} (job : Job World A) (next : A → Call (State B) R)
        → ((a : A) → Owns free (next a))
        → Owns free (ffi_block_on job >>= λ answer. on_ok B value answer next)
    Owns-answer job next k =
        Owns-bind free _ _ (Still-ffi_block_on job) λ answer. Owns-on_ok answer next k

    pub Owns-engine :
        (handle : Ptr) (next : Engine → Call (State B) R)
        → ((engine : Engine) → Owns free (next engine))
        → Owns free
            (clear_last_error >> (engine_handle_ref handle >>= λ found. on_some B value found next))
    Owns-engine handle next k =
        Owns-bind free _ _ Still-clear_last_error λ _.
          Owns-bind free _ _ (Still-engine_handle_ref handle) λ found. Owns-on_some found next k

    pub Owns-runtime :
        (handle : Ptr) (next : Runtime → Call (State B) R)
        → ((runtime : Runtime) → Owns free (next runtime))
        → Owns free (
            clear_last_error >> (runtime_handle_ref handle >>= λ found. on_some B value found next))
    Owns-runtime handle next k =
        Owns-bind free _ _ Still-clear_last_error λ _.
          Owns-bind free _ _ (Still-runtime_handle_ref handle) λ found. Owns-on_some found next k

  pub Owns-runtime_handle :
      (runtime : Runtime) → Owns (runtime_destroy B) (alloc (runtime_handle runtime))
  unfolding runtime_destroy read_heap free_runtime ◌>>=◌
  Owns-runtime_handle runtime = Owns-alloc _ _ λ address t e. rw e refl

  pub Owns-engine_handle :
      (engine : Engine) → Owns (engine_destroy B) (alloc (engine_handle engine))
  unfolding engine_destroy read_heap free_engine ◌>>=◌
  Owns-engine_handle engine = Owns-alloc _ _ λ address t e. rw e refl

  Owns-raw_of : (value : Option String) → Owns (string_free B) (raw_of value)
  unfolding raw_of string_free read_heap free_string pure ◌>>=◌
  Owns-raw_of none = Owns-pure _ _ λ t. refl
  Owns-raw_of (some value) = Owns-alloc _ _ λ address t e. rw e refl

  pub Owns-string_into_raw : (value : String) → Owns (string_free B) (string_into_raw value)
  unfolding string_into_raw
  Owns-string_into_raw value = Owns-raw_of _

  -- A `Vec` has at least the capacity that its elements need.
  pub Owns-allocate_byte_buffer :
      (content : List ℕ) (capacity : ℕ)
      → length content ≤ capacity
      → Owns (bytes_free B) (allocate_byte_buffer content capacity)
  unfolding allocate_byte_buffer bytes_free free_at read_heap free_bytes pure ◌>>=◌
  Owns-allocate_byte_buffer content capacity fits = elim (Bool-cases (length content == 0)) [
    | inl e ↦ rw e (Owns-pure _ _ λ t. refl)
    | inr e ↦ rw e (
        Owns-map (λ p. free_at B (buffer p) p) _ _ buffer (λ p t. refl)
          (Owns-alloc _ _ λ address t at.
            rw (nonzero e, at, continue, same (length content), same capacity) refl))
  ]
    where
      nonzero : (length content == 0) ≡ false → (capacity == 0) ≡ false
      nonzero e = ground (arith, fits, e)

      same : (n : ℕ) → (n == n) ≡ true
      same n = ground arith

      buffer : Ptr → VldbLancedbByteBuffer
      buffer p = record { address = p; len = length content; cap = capacity }
