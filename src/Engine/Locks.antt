-- ===== src/Engine/Locks.antt =====
-- src/engine.rs: `TableAccessCoordinator`. A lock object is known by a number; the map gives each
-- normalised table name its object.
pub mod Exclusion
use vldb_lancedb.Text.{trim}
use vldb_lancedb.Engine.Tables.{normalize_table_name}
use vldb_lancedb.Prelude.Dict.{lookup-nil, Dict, lookup, insert, lookup-insert}
use vldb_lancedb.Prelude.{
  refl, [], String, ◌≡◌, Option, ℕ, some, ◌↔◌, arith, ◌<◌, suc, none, eq_iff, ap,
}

pub record TableAccessCoordinator : Type 0 where
  pub locks : Dict ℕ
  pub next_lock : ℕ

-- `TableAccessCoordinator::default`
abbrev pub new_coordinator : TableAccessCoordinator
new_coordinator = record { locks = []; next_lock = 0 }

-- `entry(key).or_insert_with(new)`
unfoldable pub entry_or_insert :
    String → TableAccessCoordinator → Option ℕ → TableAccessCoordinator × ℕ
entry_or_insert key c (some lock) = (c, lock)
entry_or_insert key c none =
    (record { locks = insert key c.next_lock c.locks; next_lock = suc c.next_lock }, c.next_lock)

unfoldable pub lock_for : TableAccessCoordinator → String → TableAccessCoordinator × ℕ
lock_for c table_name =
    let key = normalize_table_name table_name in entry_or_insert key c (lookup key c.locks)

-- Every lock object in the map is older than the next, and no two names share one.
pub record IsSound (c : TableAccessCoordinator) : Type 0 where
  pub old : (k : String) (lock : ℕ) → lookup k c.locks ≡ some lock → lock < c.next_lock
  pub own :
      (k j : String) (lock : ℕ)
      → lookup k c.locks ≡ some lock
      → lookup j c.locks ≡ some lock
      → k ≡ j

pub IsSound-new : IsSound new_coordinator
IsSound-new = record {
  old = λ k lock h. absurd (cc (lookup-nil {V = ℕ} k));
  own = λ k j lock h i. absurd (cc (lookup-nil {V = ℕ} k));
}

entry_or_insert-IsSound :
    (key : String) (c : TableAccessCoordinator) (found : Option ℕ)
    → lookup key c.locks ≡ found
    → IsSound c
    → IsSound (entry_or_insert key c found).0
unfolding entry_or_insert
entry_or_insert-IsSound key c (some lock) e v = v
entry_or_insert-IsSound key c none e v = record {
  old = λ k lock h.
      ground (arith, lookup-insert key k c.next_lock c.locks, eq_iff key k, v.old k lock);
  own = λ k j lock h i. ground (
    arith,
    lookup-insert key k c.next_lock c.locks,
    lookup-insert key j c.next_lock c.locks,
    eq_iff key k,
    eq_iff key j,
    v.old k lock,
    v.old j lock,
    v.own k j lock,
  );
}

pub lock_for-IsSound :
    (c : TableAccessCoordinator) (name : String) → IsSound c → IsSound (lock_for c name).0
unfolding lock_for
lock_for-IsSound c name v = entry_or_insert-IsSound _ c _ refl v

entry_or_insert-lookup :
    (key j : String) (c : TableAccessCoordinator) (found : Option ℕ) (lock : ℕ)
    → lookup key c.locks ≡ found
    → lookup j c.locks ≡ some lock
    → lookup j (entry_or_insert key c found).0.locks ≡ some lock
unfolding entry_or_insert
entry_or_insert-lookup key j c (some other) lock e h = h
entry_or_insert-lookup key j c none lock e h =
    ground (arith, lookup-insert key j c.next_lock c.locks, eq_iff key j)

-- A lock object that is in the map stays there under its name.
pub lock_for_keeps :
    (c : TableAccessCoordinator) (name j : String) (lock : ℕ)
    → lookup j c.locks ≡ some lock
    → lookup j (lock_for c name).0.locks ≡ some lock
unfolding lock_for
lock_for_keeps c name j lock h = entry_or_insert-lookup _ j c _ lock refl h

entry_or_insert_stored :
    (key : String) (c : TableAccessCoordinator) (found : Option ℕ)
    → lookup key c.locks ≡ found
    → lookup key (entry_or_insert key c found).0.locks ≡ some (entry_or_insert key c found).1
unfolding entry_or_insert
entry_or_insert_stored key c (some lock) e = e
entry_or_insert_stored key c none e =
    ground (arith, lookup-insert key key c.next_lock c.locks, eq_iff key key)

-- The object that is returned is the one that the map holds for the trimmed name.
pub lock_for_stored :
    (c : TableAccessCoordinator) (name : String)
    → lookup (trim name) (lock_for c name).0.locks ≡ some (lock_for c name).1
unfolding lock_for normalize_table_name
lock_for_stored c name = entry_or_insert_stored _ c _ refl

-- Two names get one lock object exactly when they are equal up to blanks around them.
pub lock_for_same_iff :
    (c : TableAccessCoordinator) (a b : String)
    → IsSound c
    → ((lock_for c a).1 ≡ (lock_for (lock_for c a).0 b).1) ↔ (trim a ≡ trim b)
lock_for_same_iff c a b v =
    let c' : TableAccessCoordinator = (lock_for c a).0 in
    let c'' : TableAccessCoordinator = (lock_for c' b).0 in
    let sound = lock_for-IsSound c' b (lock_for-IsSound c a v) in
    let first = lock_for_keeps c' b (trim a) (lock_for c a).1 (lock_for_stored c a) in
    let second = lock_for_stored c' b in
    (
      λ same. sound.own (trim a) (trim b) (lock_for c a).1 first (rw same second),
      λ same. cc (first, second, ap (λ k. lookup k c''.locks) same),
    )
