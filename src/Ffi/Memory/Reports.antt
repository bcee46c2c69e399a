-- ===== src/Ffi/Memory/Reports.antt =====
-- src/ffi.rs: the error protocol of the C interface, by the message that a call leaves and what it returns.
use vldb_lancedb.Ffi.Backend.{Job}
use vldb_lancedb.Ffi.CText.{cstring_new-sanitize_message}
use vldb_lancedb.Ffi.{Ptr}
use vldb_lancedb.Ffi.Worker.{ffi_block_on, ffi_runtime_worker, dispatch, run_job}
use vldb_lancedb.Ffi.Memory.{
  string_into_raw, alloc, pure, allocate_byte_buffer, ◌>>=◌, Call, raw_of, Object, Ffi, continue,
}
use vldb_lancedb.Prelude.{
  Bool, Option, List, ◌≡◌, true, ℕ, none, if◌then◌else◌, String, some, false, is_some,
}

abbrev pub is_null : Ptr → Bool
is_null none = true
is_null (some address) = false

-- The call has an outcome, and a message is set after it exactly if the returned value says that it failed.
abbrev pub IsHonest :
    {R Runtime Engine World : Type 0} → (R → Bool) → Option (R × Ffi Runtime Engine World) → Type 0
IsHonest failed none = ⊥
IsHonest failed (some (r, s)) = is_some s.last_error ≡ failed r

abbrev pub IsQuiet :
    {A Runtime Engine World : Type 0} → Option (A × Ffi Runtime Engine World) → Type 0
IsQuiet none = ⊥
IsQuiet (some (a, s)) = s.last_error ≡ none

module _ {Runtime Engine World A : Type 0} where
  -- From a state without a message, the call is honest.
  pub record Reports (failed : A → Bool) (m : Call (Ffi Runtime Engine World) A) : Type 0 where
    pub at : (s : Ffi Runtime Engine World) → s.last_error ≡ none → IsHonest failed (m s)

  -- The call has an outcome, and leaves no message where there was none.
  pub record Quiet (m : Call (Ffi Runtime Engine World) A) : Type 0 where
    pub at : (s : Ffi Runtime Engine World) → s.last_error ≡ none → IsQuiet (m s)

  pub Reports-pure : (failed : A → Bool) (a : A) → failed a ≡ false → Reports failed (pure a)
  unfolding pure
  Reports-pure failed a e = record { at = λ s h. rw (h, e) }

  pub Quiet-pure : (a : A) → Quiet (pure a)
  unfolding pure
  Quiet-pure a = record { at = λ s h. h }

  pub Quiet-if :
      (b : Bool) (m n : Call (Ffi Runtime Engine World) A)
      → Quiet m
      → Quiet n
      → Quiet (if b then m else n)
  Quiet-if true m n km kn = km
  Quiet-if false m n km kn = kn

  pub Reports-if :
      (failed : A → Bool) (b : Bool) (m n : Call (Ffi Runtime Engine World) A)
      → Reports failed m
      → Reports failed n
      → Reports failed (if b then m else n)
  Reports-if failed true m n km kn = km
  Reports-if failed false m n km kn = kn

module _ {Runtime Engine World A B : Type 0} where
  pub Reports-bind :
      (failed : B → Bool) (m : Call (Ffi Runtime Engine World) A)
      (f : A → Call (Ffi Runtime Engine World) B)
      → Quiet m
      → ((a : A) → Reports failed (f a))
      → Reports failed (m >>= f)
  unfolding ◌>>=◌
  Reports-bind failed m f km kf = record { at = λ s h. go (m s) (km.at s h) }
    where
      go : (o : Option (A × Ffi Runtime Engine World)) → IsQuiet o → IsHonest failed (continue o f)
      go none q = absurd q
      go (some (a, s)) q = (kf a).at s q

  pub Quiet-bind :
      (m : Call (Ffi Runtime Engine World) A) (f : A → Call (Ffi Runtime Engine World) B)
      → Quiet m
      → ((a : A) → Quiet (f a))
      → Quiet (m >>= f)
  unfolding ◌>>=◌
  Quiet-bind m f km kf = record { at = λ s h. go (m s) (km.at s h) }
    where
      go : (o : Option (A × Ffi Runtime Engine World)) → IsQuiet o → IsQuiet (continue o f)
      go none q = absurd q
      go (some (a, s)) q = (kf a).at s q

  -- A result that is honest stays so when it is passed on with the same verdict.
  pub IsHonest-map :
      (failed : A → Bool) (failed' : B → Bool) (g : A → B)
      → ((a : A) → failed' (g a) ≡ failed a)
      → (o : Option (A × Ffi Runtime Engine World)) → IsHonest failed o
      → IsHonest failed' (continue o (λ a. pure (g a)))
  unfolding pure
  IsHonest-map failed failed' g same none q = absurd q
  IsHonest-map failed failed' g same (some (a, s)) q = rw (same a) q

  pub Reports-map :
      (failed : A → Bool) (failed' : B → Bool) (m : Call (Ffi Runtime Engine World) A) (g : A → B)
      → ((a : A) → failed' (g a) ≡ failed a)
      → Reports failed m
      → Reports failed' (m >>= λ a. pure (g a))
  unfolding ◌>>=◌
  Reports-map failed failed' m g same km = record {
    at = λ s h. IsHonest-map failed failed' g same (m s) (km.at s h);
  }

module _ {Runtime Engine World : Type 0} where
  pub Quiet-alloc : (object : Object Runtime Engine) → Quiet {World = World} (alloc object)
  unfolding alloc
  Quiet-alloc object = record { at = λ s h. h }

  pub Reports-alloc :
      (object : Object Runtime Engine) → Reports {World = World} is_null (alloc object)
  unfolding alloc
  Reports-alloc object = record { at = λ s h. rw h }

  pub Reports-string_into_raw :
      (value : String)
      → Reports {Runtime = Runtime} {Engine = Engine} {World = World} is_null
          (string_into_raw value)
  unfolding string_into_raw raw_of
  Reports-string_into_raw value = rw (cstring_new-sanitize_message value) (Reports-alloc _)

  pub Quiet-allocate_byte_buffer :
      (content : List ℕ) (capacity : ℕ)
      → Quiet {Runtime = Runtime} {Engine = Engine} {World = World}
          (allocate_byte_buffer content capacity)
  unfolding allocate_byte_buffer
  Quiet-allocate_byte_buffer content capacity =
      Quiet-if _ _ _ (Quiet-pure _) (Quiet-bind _ _ (Quiet-alloc _) λ address. Quiet-pure _)

  Quiet-dispatch :
      {A : Type 0} (failed : Option String) (job : Job World A)
      → Quiet {Runtime = Runtime} {Engine = Engine} (dispatch failed job)
  unfolding dispatch run_job
  Quiet-dispatch (some message) job = Quiet-pure _
  Quiet-dispatch none job = record { at = λ s h. h }

  pub Quiet-ffi_block_on :
      {A : Type 0} (job : Job World A)
      → Quiet {Runtime = Runtime} {Engine = Engine} (ffi_block_on job)
  unfolding ffi_block_on ffi_runtime_worker
  Quiet-ffi_block_on job =
      Quiet-bind _ _ (record { at = λ s h. h }) λ failed. Quiet-dispatch failed job
