-- ===== src/Ffi/Memory/Owns.antt =====
-- src/ffi.rs: who owns the memory of the C interface, the heap before a call and what its result holds.
use mathlib.Core.Path.{fun_ext}
use vldb_lancedb.Ffi.{Ptr}
use vldb_lancedb.Prelude.{
  ℕ, ◌≤◌, Bool, Option, ◌≡◌, none, some, if◌then◌else◌, true, ◌∙◌, sym, arith, false, ◌==◌,
  Bool-cases, inl, inr, refl,
}
use vldb_lancedb.Ffi.Memory.{Call, Ffi, ◌>>=◌, pure, continue, ◌>>◌, Object, alloc, release}
use Prim.Native.Nat.{ℕ}

-- `next` is above every address in use.
abbrev pub IsFresh : {Runtime Engine World : Type 0} → Ffi Runtime Engine World → Type 0
IsFresh s = (address : ℕ) → s.next ≤ address → s.heap address ≡ none

-- From the heap `heap` with the next address `next`, nothing was allocated or freed.
abbrev pub IsStill :
    {A Runtime Engine World : Type 0}
    → (ℕ → Option (Object Runtime Engine))
    → ℕ
    → Option (A × Ffi Runtime Engine World)
    → Type 0
IsStill heap next none = Unit
IsStill heap next (some (a, s)) = (s.heap ≡ heap) × (s.next ≡ next)

-- In any state with the heap that the call left, freeing the result has an outcome, and the heap is then
-- the one from before the call.
abbrev pub IsOwned :
    {A Runtime Engine World : Type 0}
    → (A → Call (Ffi Runtime Engine World) (Unit {0}))
    → (ℕ → Option (Object Runtime Engine))
    → Option (A × Ffi Runtime Engine World)
    → Type 0
IsOwned free heap none = Unit
IsOwned {Runtime = Runtime} {Engine = Engine} {World = World} free heap (some (a, s)) =
    IsFresh s
    × ((t : Ffi Runtime Engine World)
        → t.heap ≡ s.heap
        → (t' : Ffi Runtime Engine World) × (free a t ≡ some (tt, t')) × (t'.heap ≡ heap))

module _ {Runtime Engine World A : Type 0} where
  pub record Still (m : Call (Ffi Runtime Engine World) A) : Type 0 where
    pub at : (s : Ffi Runtime Engine World) → IsStill s.heap s.next (m s)

  pub record Owns (free : A → Call (Ffi Runtime Engine World) (Unit {0}))
      (m : Call (Ffi Runtime Engine World) A) : Type 0 where
    pub at : (s : Ffi Runtime Engine World) → IsFresh s → IsOwned free s.heap (m s)

  pub Owns-pure :
      (free : A → Call (Ffi Runtime Engine World) (Unit {0})) (a : A)
      → ((t : Ffi Runtime Engine World) → free a t ≡ some (tt, t))
      → Owns free (pure a)
  unfolding pure
  Owns-pure free a frees = record { at = λ s fresh. (fresh, λ t e. (t, frees t, e)) }

  pub Owns-if :
      (free : A → Call (Ffi Runtime Engine World) (Unit {0})) (b : Bool)
      (m n : Call (Ffi Runtime Engine World) A)
      → Owns free m
      → Owns free n
      → Owns free (if b then m else n)
  Owns-if free true m n km kn = km
  Owns-if free false m n km kn = kn

module _ {Runtime Engine World A B : Type 0} where
  pub Owns-bind :
      (free : B → Call (Ffi Runtime Engine World) (Unit {0}))
      (m : Call (Ffi Runtime Engine World) A) (f : A → Call (Ffi Runtime Engine World) B)
      → Still m
      → ((a : A) → Owns free (f a))
      → Owns free (m >>= f)
  unfolding ◌>>=◌
  Owns-bind free m f km kf = record { at = λ s fresh. go s fresh (m s) (km.at s) }
    where
      go :
          (s : Ffi Runtime Engine World)
          → IsFresh s
          → (o : Option (A × Ffi Runtime Engine World)) → IsStill s.heap s.next o
          → IsOwned free s.heap (continue o f)
      go s fresh none q = tt
      go s fresh (some (a, s')) (same, next) =
          rw (sym same)
            ((kf a).at s' (λ address le. rw same (fresh address (omega (arith, le, next)))))

  pub Still-bind :
      (m : Call (Ffi Runtime Engine World) A) (f : A → Call (Ffi Runtime Engine World) B)
      → Still m
      → ((a : A) → Still (f a))
      → Still (m >>= f)
  unfolding ◌>>=◌
  Still-bind m f km kf = record { at = λ s. go s (m s) (km.at s) }
    where
      go :
          (s : Ffi Runtime Engine World) (o : Option (A × Ffi Runtime Engine World))
          → IsStill s.heap s.next o
          → IsStill s.heap s.next (continue o f)
      go s none q = tt
      go s (some (a, s')) (same, next) = rw (sym same, sym next) ((kf a).at s')

  pub IsOwned-map :
      (free : A → Call (Ffi Runtime Engine World) (Unit {0}))
      (free' : B → Call (Ffi Runtime Engine World) (Unit {0})) (g : A → B)
      → ((a : A) (t : Ffi Runtime Engine World) → free' (g a) t ≡ free a t)
      → (heap : ℕ → Option (Object Runtime Engine)) (o : Option (A × Ffi Runtime Engine World))
      → IsOwned free heap o
      → IsOwned free' heap (continue o (λ a. pure (g a)))
  unfolding pure
  IsOwned-map free free' g same heap none q = tt
  IsOwned-map free free' g same heap (some (a, s)) (fresh, frees) =
      (fresh, λ t e. let (t', freed, back) = frees t e in (t', same a t ∙ freed, back))

  pub Owns-map :
      (free : A → Call (Ffi Runtime Engine World) (Unit {0}))
      (free' : B → Call (Ffi Runtime Engine World) (Unit {0}))
      (m : Call (Ffi Runtime Engine World) A) (g : A → B)
      → ((a : A) (t : Ffi Runtime Engine World) → free' (g a) t ≡ free a t)
      → Owns free m
      → Owns free' (m >>= λ a. pure (g a))
  unfolding ◌>>=◌
  Owns-map free free' m g same km = record {
    at = λ s fresh. IsOwned-map free free' g same s.heap (m s) (km.at s fresh);
  }

module _ {Runtime Engine World A B C : Type 0} where
  -- What two steps hand out is freed by freeing the second, then the first.
  pub Owns-both :
      (free : A → Call (Ffi Runtime Engine World) (Unit {0}))
      (free' : B → Call (Ffi Runtime Engine World) (Unit {0}))
      (both : C → Call (Ffi Runtime Engine World) (Unit {0}))
      (m : Call (Ffi Runtime Engine World) A) (f : A → Call (Ffi Runtime Engine World) B)
      (pack : A → B → C)
      → Owns free m
      → ((a : A) → Owns free' (f a))
      → ((a : A) (b : B) (t : Ffi Runtime Engine World) → both (pack a b) t ≡ (free' b >> free a) t)
      → Owns both (m >>= λ a. f a >>= λ b. pure (pack a b))
  unfolding ◌>>=◌ pure
  Owns-both free free' both m f pack km kf same = record {
    at = λ s fresh. outer s.heap (m s) (km.at s fresh);
  }
    where
      inner :
          (heap : ℕ → Option (Object Runtime Engine)) (a : A) (s : Ffi Runtime Engine World)
          → IsOwned free heap (some (a, s))
          → (o : Option (B × Ffi Runtime Engine World)) → IsOwned free' s.heap o
          → IsOwned both heap (continue o (λ b. pure (pack a b)))
      inner heap a s q none q' = tt
      inner heap a s q (some (b, s')) (fresh, frees) = (
        fresh,
        λ t e.
            (let (u, freed, back) = frees t e in
              let (v, freed', back') = q.1 u back in
              (v, same a b t ∙ rw (freed, continue) freed', back')),
      )

      outer :
          (heap : ℕ → Option (Object Runtime Engine)) (o : Option (A × Ffi Runtime Engine World))
          → IsOwned free heap o
          → IsOwned both heap (continue o (λ a. f a >>= λ b. pure (pack a b)))
      outer heap none q = tt
      outer heap (some (a, s)) q = inner heap a s q (f a s) ((kf a).at s q.0)

release-alloc :
    {Runtime Engine : Type 0} (heap : ℕ → Option (Object Runtime Engine))
    (object : Object Runtime Engine) (n : ℕ)
    → heap n ≡ none
    → (λ a. if a == n then none else if a == n then some object else heap a) ≡ heap
release-alloc heap object n h =
    fun_ext λ a. elim (Bool-cases (a == n)) [ inl e ↦ ground (arith, h) | inr e ↦ rw e refl ]

module _ {Runtime Engine World : Type 0} where
  pub Owns-alloc :
      (object : Object Runtime Engine) (free : Ptr → Call (Ffi Runtime Engine World) (Unit {0}))
      → ((address : ℕ) (t : Ffi Runtime Engine World)
          → t.heap address ≡ some object
          → free (some address) t ≡ release address t)
      → Owns free (alloc object)
  unfolding alloc release
  Owns-alloc object free frees = record {
    at = λ s fresh. (
      λ a le. ground (arith, fresh a (omega (arith, le))),
      λ t e. (
        _,
        frees s.next t (rw e (ground arith)),
        rw e (release-alloc s.heap object s.next (fresh s.next (omega arith))),
      ),
    );
  }
