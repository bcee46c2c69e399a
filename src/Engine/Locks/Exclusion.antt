-- ===== src/Engine/Locks/Exclusion.antt =====
-- Requests in their table sections, under any interleaving. A reader-writer lock of tokio grants a write
-- guard when no other guard of the same lock is out, and a read guard when no write guard is; that
-- is the premise of each step. The coordinator's map, shared by all, decides which lock that is.
use vldb_lancedb.Prelude.Dict.{lookup}
use vldb_lancedb.Text.{trim}
use vldb_lancedb.Engine.Locks.{
  new_coordinator, TableAccessCoordinator, IsSound, lock_for-IsSound, IsSound-new, lock_for_stored,
  lock_for, lock_for_keeps,
}
use vldb_lancedb.Prelude.{ℕ, String, List, All, ◌≡◌, ◌∷◌, ◌++◌, [], some, ap}

pub data Mode : Type 0 where
  read write : Mode

pub record Guard : Type 0 where
  pub table_name : String
  pub lock : ℕ
  pub mode : Mode

pub record System : Type 0 where
  pub coordinator : TableAccessCoordinator
  pub guards : List Guard

abbrev pub new_system : System
new_system = record { coordinator = new_coordinator; guards = [] }

-- Two guards of one lock are both for reading.
abbrev pub MayShare : ℕ → Mode → Guard → Type 0
MayShare lock mode g = g.lock ≡ lock → (mode ≡ read) × (g.mode ≡ read)

abbrev grant : System → String → Mode → System
grant s table_name mode =
    let (c, lock) = lock_for s.coordinator table_name in
    record {
      coordinator = c;
      guards = record { table_name = table_name; lock = lock; mode = mode } ∷ s.guards;
    }

-- `acquire_read` and `acquire_write`, and the drop of a guard, wherever it stands among the guards.
pub data Step (s : System) : System → Type 0 where
  acquire :
      (table_name : String) (mode : Mode)
      → All (MayShare (lock_for s.coordinator table_name).1 mode) s.guards
      → Step s (grant s table_name mode)
  release :
      (front : List Guard) (g : Guard) (back : List Guard)
      → s.guards ≡ front ++ (g ∷ back)
      → Step s (record s { guards = front ++ back })

pub data Reach : System → Type 0 where
  start : Reach new_system
  later : {s t : System} → Reach s → Step s t → Reach t

-- The lock of a guard is the one that the map holds for its trimmed name.
abbrev IsHeld : TableAccessCoordinator → Guard → Type 0
IsHeld c g = lookup (trim g.table_name) c.locks ≡ some g.lock

abbrev Exclusive : List Guard → Type 0
Exclusive [] = Unit
Exclusive (g ∷ gs) = All (MayShare g.lock g.mode) gs × Exclusive gs

record IsConsistent (s : System) : Type 0 where
  sound : IsSound s.coordinator
  held : All (IsHeld s.coordinator) s.guards
  exclusive : Exclusive s.guards

All-IsHeld-lock_for :
    (c : TableAccessCoordinator) (name : String) (gs : List Guard)
    → All (IsHeld c) gs
    → All (IsHeld (lock_for c name).0) gs
All-IsHeld-lock_for c name [] h = tt
All-IsHeld-lock_for c name (g ∷ gs) h =
    (lock_for_keeps c name (trim g.table_name) g.lock h.0, All-IsHeld-lock_for c name gs h.1)

All-remove {ℓ} :
    (P : Guard → Type ℓ) (front : List Guard) (g : Guard) (back : List Guard)
    → All P (front ++ (g ∷ back))
    → All P (front ++ back)
All-remove P [] g back h = h.1
All-remove P (x ∷ front) g back h = (h.0, All-remove P front g back h.1)

Exclusive-remove :
    (front : List Guard) (g : Guard) (back : List Guard)
    → Exclusive (front ++ (g ∷ back))
    → Exclusive (front ++ back)
Exclusive-remove [] g back h = h.1
Exclusive-remove (x ∷ front) g back h =
    (All-remove (MayShare x.lock x.mode) front g back h.0, Exclusive-remove front g back h.1)

Step-IsConsistent : {s t : System} → Step s t → IsConsistent s → IsConsistent t
Step-IsConsistent {s} (acquire name mode free) v = record {
  sound = lock_for-IsSound s.coordinator name v.sound;
  held =
      (lock_for_stored s.coordinator name, All-IsHeld-lock_for s.coordinator name s.guards v.held);
  exclusive = (free, v.exclusive);
}
Step-IsConsistent {s} (release front g back e) v = record {
  sound = v.sound;
  held = All-remove (IsHeld s.coordinator) front g back (rw e at v.held);
  exclusive = Exclusive-remove front g back (rw e at v.exclusive);
}

Reach-IsConsistent : {s : System} → Reach s → IsConsistent s
Reach-IsConsistent start = record { sound = IsSound-new; held = tt; exclusive = tt }
Reach-IsConsistent (later r st) = Step-IsConsistent st (Reach-IsConsistent r)

-- Two guards on names that are equal up to the blanks around them are both for reading.
abbrev pub MayShareTable : Guard → Guard → Type 0
MayShareTable a b = trim a.table_name ≡ trim b.table_name → (a.mode ≡ read) × (b.mode ≡ read)

abbrev pub ExclusiveTables : List Guard → Type 0
ExclusiveTables [] = Unit
ExclusiveTables (g ∷ gs) = All (MayShareTable g) gs × ExclusiveTables gs

All-MayShareTable :
    (c : TableAccessCoordinator) (g : Guard) (gs : List Guard)
    → IsHeld c g
    → All (IsHeld c) gs
    → All (MayShare g.lock g.mode) gs
    → All (MayShareTable g) gs
All-MayShareTable c g [] h hs e = tt
All-MayShareTable c g (x ∷ gs) h hs e = (
  λ same. e.0 (cc (h, hs.0, ap (λ k. lookup k c.locks) same)),
  All-MayShareTable c g gs h hs.1 e.1,
)

ExclusiveTables-of :
    (c : TableAccessCoordinator) (gs : List Guard)
    → All (IsHeld c) gs
    → Exclusive gs
    → ExclusiveTables gs
ExclusiveTables-of c [] h e = tt
ExclusiveTables-of c (g ∷ gs) h e =
    (All-MayShareTable c g gs h.0 h.1 e.0, ExclusiveTables-of c gs h.1 e.1)

-- In every reachable state, of two guards on one table name, blanks around it ignored, neither is for
-- writing: a writer of a table is alone with it, however its name was spelled and however the
-- requests were interleaved.
pub Reach-ExclusiveTables : {s : System} → Reach s → ExclusiveTables s.guards
Reach-ExclusiveTables {s} r =
    let v = Reach-IsConsistent r in ExclusiveTables-of s.coordinator s.guards v.held v.exclusive
