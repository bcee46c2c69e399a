-- ===== src/Ffi/Calls.antt =====
-- src/ffi.rs: the functions that C calls, without the prefix `vldb_lancedb_`. An output pointer is given by
-- whether it is null; what is written through it is part of the result.
pub mod Tables
pub mod Requests
pub mod Contract
pub mod Disposal
pub mod Equivalence
use vldb_lancedb.Ffi.Options.{build_runtime_from_options}
use vldb_lancedb.Ffi.Worker.{ffi_block_on}
use vldb_lancedb.Ffi.CText.{normalize_non_zero, required_c_string, optional_c_string}
use vldb_lancedb.Engine.Options.{LanceDbEngineOptions, default_options}
use vldb_lancedb.Manager.{DatabaseRuntimeConfig}
use vldb_lancedb.Ffi.Memory.{
  Ffi, Call, pure, ◌>>=◌, c_string, runtime_handle, clear_last_error, read_heap, set_last_error,
  engine_handle, bytes, runtime_handle_ref, alloc, string_into_raw, undefined, ◌>>◌, Object,
  release,
}
use vldb_lancedb.Prelude.{
  Option, ℕ, String, Result, none, some, ok, err, if◌then◌else◌, ◌==◌, length, ◌&&◌,
}
use vldb_lancedb.Ffi.{VldbLancedbRuntimeOptions, Ptr, VldbLancedbByteBuffer, CString}
use Prim.Native.Nat.{ℕ}
use Prim.Native.String.{String}
use vldb_lancedb.Ffi.Backend.{Backend}

module _ (B : Backend) where
  open B use {F32, Runtime, Engine, World}

  abbrev pub State : Type 0
  State = Ffi Runtime Engine World

  -- `set_last_error(message); return value`
  unfoldable pub fail_with : {R : Type 0} → R → String → Call State R
  fail_with value message = do set_last_error message; pure value

  -- `match result { Ok(a) => ..., Err(message) => { set_last_error(message); value } }`
  unfoldable pub on_ok : {A R : Type 0} → R → Result A String → (A → Call State R) → Call State R
  on_ok value (ok a) next = next a
  on_ok value (err message) next = fail_with value message

  -- `let Some(a) = option else { return value }`
  unfoldable pub on_some : {A R : Type 0} → R → Option A → (A → Call State R) → Call State R
  on_some value none next = pure value
  on_some value (some a) next = next a

  unfoldable pub new_runtime : DatabaseRuntimeConfig × LanceDbEngineOptions → Call State Runtime
  new_runtime (config, options) s =
      let (runtime, world) = B.new_runtime config options s.world in
      some (runtime, record s { world = world })

  unfoldable pub runtime_create : VldbLancedbRuntimeOptions → Call State Ptr
  runtime_create options = do
    clear_last_error
    on_ok none (build_runtime_from_options options)
        λ built. do runtime ← new_runtime built; alloc (runtime_handle runtime)

  unfoldable pub open_engine : Runtime → Option String → Call State Ptr
  open_engine runtime database_name = do
    opened ← ffi_block_on (B.open_named_engine runtime database_name)
    on_ok none opened λ engine. alloc (engine_handle engine)

  unfoldable pub runtime_open_default_engine : Ptr → Call State Ptr
  runtime_open_default_engine handle = do
    clear_last_error
    found ← runtime_handle_ref handle
    on_some none found λ runtime. open_engine runtime none

  unfoldable pub runtime_open_named_engine : Ptr → CString → Call State Ptr
  runtime_open_named_engine handle database_name = do
    clear_last_error
    found ← runtime_handle_ref handle
    on_some none found λ runtime.
        on_ok none (optional_c_string database_name "database_name")
          λ name. open_engine runtime name

  unfoldable pub database_path : Runtime → Option String → Call State (Result String String)
  database_path runtime name s = some (B.database_path_for_name runtime name s.world, s)

  unfoldable pub runtime_database_path_for_name : Ptr → CString → Call State Ptr
  runtime_database_path_for_name handle database_name = do
    clear_last_error
    found ← runtime_handle_ref handle
    on_some none found λ runtime.
        on_ok none (optional_c_string database_name "database_name")
          λ name. do path ← database_path runtime name; on_ok none path string_into_raw

  -- What an address must hold for it to be freed; anything else is undefined behaviour.
  unfoldable pub free_runtime : ℕ → Option (Object Runtime Engine) → Call State (Unit {0})
  free_runtime address (some (runtime_handle runtime)) = release address
  free_runtime address _ = undefined

  unfoldable pub free_engine : ℕ → Option (Object Runtime Engine) → Call State (Unit {0})
  free_engine address (some (engine_handle engine)) = release address
  free_engine address _ = undefined

  unfoldable pub free_string : ℕ → Option (Object Runtime Engine) → Call State (Unit {0})
  free_string address (some (c_string text)) = release address
  free_string address _ = undefined

  -- `Vec::from_raw_parts` wants the length and the capacity that the `Vec` had.
  unfoldable pub free_bytes :
      VldbLancedbByteBuffer → ℕ → Option (Object Runtime Engine) → Call State (Unit {0})
  free_bytes buffer address (some (bytes content capacity)) =
      if (length content == buffer.len) && (capacity == buffer.cap)
      then release address
      else undefined
  free_bytes buffer address _ = undefined

  unfoldable pub runtime_destroy : Ptr → Call State (Unit {0})
  runtime_destroy none = pure tt
  runtime_destroy (some address) = do object ← read_heap address; free_runtime address object

  unfoldable pub engine_destroy : Ptr → Call State (Unit {0})
  engine_destroy none = pure tt
  engine_destroy (some address) = do object ← read_heap address; free_engine address object

  unfoldable pub string_free : Ptr → Call State (Unit {0})
  string_free none = pure tt
  string_free (some address) = do object ← read_heap address; free_string address object

  unfoldable pub free_at : VldbLancedbByteBuffer → Ptr → Call State (Unit {0})
  free_at buffer none = pure tt
  free_at buffer (some address) =
      if buffer.cap == 0
      then pure tt
      else do object ← read_heap address; free_bytes buffer address object

  unfoldable pub bytes_free : VldbLancedbByteBuffer → Call State (Unit {0})
  bytes_free buffer = free_at buffer buffer.address

  -- The pointer is into the thread's buffer, given by the text there.
  unfoldable pub last_error_message : Call State (Option String)
  last_error_message s = some (s.last_error, s)

  unfoldable pub engine_is_null : Ptr → ℕ
  engine_is_null none = 1
  engine_is_null (some address) = 0

  unfoldable pub runtime_is_null : Ptr → ℕ
  runtime_is_null none = 1
  runtime_is_null (some address) = 0
