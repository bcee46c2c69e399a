-- ===== src/Ffi/Memory.antt =====
-- src/ffi.rs: the memory that the C interface hands out, the error message of the calling thread, and the
-- worker. A call that reads or frees what is not there has no outcome: that is undefined behaviour.
pub mod Reports
pub mod Owns
use vldb_lancedb.Ffi.CText.{cstring_new, sanitize_message}
use vldb_lancedb.Ffi.{VldbLancedbByteBuffer, Ptr}
use vldb_lancedb.Prelude.{Option, String, ℕ, List, some, none, if◌then◌else◌, ◌==◌, length, suc}
use Prim.Native.Nat.{ℕ}
use Prim.Native.String.{String}

-- What an address holds; a buffer is a leaked `Vec` with its capacity.
pub data Object (Runtime Engine : Type 0) : Type 0 where
  runtime_handle : Runtime → Object Runtime Engine
  engine_handle : Engine → Object Runtime Engine
  c_string : String → Object Runtime Engine
  bytes : List ℕ → ℕ → Object Runtime Engine

-- How `ffi_runtime_worker` can fail to start.
pub data Startup : Type 0 where
  started : Startup
  spawn_failed build_failed : String → Startup
  no_signal : Startup

-- `next` is above every address in use. `startup` is what the first start of the worker will meet, and
-- `worker` what it met, once it was tried.
pub record Ffi (Runtime Engine World : Type 0) : Type 0 where
  pub heap : ℕ → Option (Object Runtime Engine)
  pub next : ℕ
  pub last_error : Option String
  pub startup : Startup
  pub worker : Option Startup
  pub world : World

-- A call of the interface in a state of any type
abbrev pub Call : Type 0 → Type 0 → Type 0
Call S A = S → Option (A × S)

module _ {S A : Type 0} where
  unfoldable pub pure : A → Call S A
  pure a s = some (a, s)

  -- Undefined behaviour
  unfoldable pub undefined : Call S A
  undefined s = none

module _ {S A B : Type 0} where
  abbrev pub continue : Option (A × S) → (A → Call S B) → Option (B × S)
  continue none f = none
  continue (some (a, s)) f = f a s

  infixl 10 ◌>>=◌ ◌>>◌
  unfoldable pub ◌>>=◌ : Call S A → (A → Call S B) → Call S B
  ◌>>=◌ m f s = continue (m s) f

  abbrev pub ◌>>◌ : Call S A → Call S B → Call S B
  m >> n = m >>= λ _. n

module _ {Runtime Engine World : Type 0} where
  -- `Box::into_raw`, `CString::into_raw` and `mem::forget`: a new address that holds the object
  unfoldable pub alloc : Object Runtime Engine → Call (Ffi Runtime Engine World) Ptr
  alloc object s = some (
    some s.next,
    record s { heap = λ a. if a == s.next then some object else s.heap a; next = suc s.next },
  )

  -- The drop of what an address holds
  unfoldable pub release : ℕ → Call (Ffi Runtime Engine World) (Unit {0})
  release address s = some (tt, record s { heap = λ a. if a == address then none else s.heap a })

  unfoldable pub read_heap : ℕ → Call (Ffi Runtime Engine World) (Option (Object Runtime Engine))
  read_heap address s = some (s.heap address, s)

  unfoldable pub set_last_error : String → Call (Ffi Runtime Engine World) (Unit {0})
  set_last_error message s =
      some (tt, record s { last_error = cstring_new (sanitize_message message) })

  unfoldable pub clear_last_error : Call (Ffi Runtime Engine World) (Unit {0})
  clear_last_error s = some (tt, record s { last_error = none })

  -- The contents of a live handle; any other address is undefined behaviour.
  unfoldable pub runtime_at :
      Option (Object Runtime Engine) → Call (Ffi Runtime Engine World) (Option Runtime)
  runtime_at (some (runtime_handle runtime)) = pure (some runtime)
  runtime_at _ = undefined

  unfoldable pub engine_at :
      Option (Object Runtime Engine) → Call (Ffi Runtime Engine World) (Option Engine)
  engine_at (some (engine_handle engine)) = pure (some engine)
  engine_at _ = undefined

  unfoldable pub runtime_handle_ref : Ptr → Call (Ffi Runtime Engine World) (Option Runtime)
  runtime_handle_ref none = do set_last_error "runtime handle must not be null"; pure none
  runtime_handle_ref (some address) = do object ← read_heap address; runtime_at object

  unfoldable pub engine_handle_ref : Ptr → Call (Ffi Runtime Engine World) (Option Engine)
  engine_handle_ref none = do set_last_error "engine handle must not be null"; pure none
  engine_handle_ref (some address) = do object ← read_heap address; engine_at object

  -- `string_into_raw`
  unfoldable pub raw_of : Option String → Call (Ffi Runtime Engine World) Ptr
  raw_of none = pure none
  raw_of (some text) = alloc (c_string text)

  unfoldable pub string_into_raw : String → Call (Ffi Runtime Engine World) Ptr
  string_into_raw value = raw_of (cstring_new (sanitize_message value))

  -- `allocate_byte_buffer`; the capacity of the `Vec` is the allocator's choice.
  unfoldable pub allocate_byte_buffer :
      List ℕ → ℕ → Call (Ffi Runtime Engine World) VldbLancedbByteBuffer
  allocate_byte_buffer content capacity =
      if length content == 0 then pure (record { address = none; len = 0; cap = 0 }) else do
        address ← alloc (bytes content capacity)
        pure (record { address = address; len = length content; cap = capacity })
