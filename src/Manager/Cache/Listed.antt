-- ===== src/Manager/Cache/Listed.antt =====
-- src/manager.rs: what `cached_database_keys` lists while requests open databases in any order.
use vldb_lancedb.Prelude.{[], ◌∷◌, arith}
use vldb_lancedb.Manager.{DatabaseRuntimeConfig}
use vldb_lancedb.Manager.Cache.Opens.{
  System, Step, hits, Reach, misses, later, connects, fails, enters, new_system, start,
}
use vldb_lancedb.Manager.Cache.Listing.{
  times_listed, cached_database_keys, keys_of, IsSorted, IsSorted-sort_keys, times_listed-sort_keys,
}
use vldb_lancedb.External.Storage.{Storage}
use vldb_lancedb.Prelude.Dict.{Dict, insert, lookup, lookup-insert}
use vldb_lancedb.Manager.Cache.{enter, entry_or_insert, DatabaseManager}
use vldb_lancedb.Prelude.{
  refl, String, Option, ◌≡◌, some, none, if◌then◌else◌, is_some, ◌=ₛ◌, Bool-cases, inl, ◌+◌, ◌∙◌,
  sym, eq_iff, inr,
}

-- Each key of the cache stands once in its entries.
abbrev IsExact : {V : Type 0} → Dict V → Type 0
IsExact d =
    (key : String) → times_listed key (keys_of d) ≡ (if is_some (lookup key d) then 1 else 0)

times_listed-insert :
    {V : Type 0} (key other : String) (v : V) (d : Dict V)
    → lookup other d ≡ none
    → times_listed key (keys_of (insert other v d))
      ≡ (if other =ₛ key then 1 else 0) + times_listed key (keys_of d)
unfolding times_listed keys_of insert lookup
times_listed-insert key other v [] h = refl
times_listed-insert key other v ((first, value) ∷ d) h = elim (Bool-cases (first =ₛ other)) [
  | inl e ↦ absurd (cc (rw e at h))
  | inr e ↦ rw e (omega (arith, times_listed-insert key other v d (rw e at h)))
]

module _ {Connection : Type 0} where
  IsExact-entry_or_insert :
      (key : String) (c : Connection) (m : DatabaseManager Connection) (found : Option Connection)
      → lookup key m.connections ≡ found
      → IsExact m.connections
      → IsExact (entry_or_insert key c m found).1.connections
  unfolding entry_or_insert
  IsExact-entry_or_insert key c m (some entry) e h = h
  IsExact-entry_or_insert key c m none e h = λ other. elim (Bool-cases (key =ₛ other)) [
    | inl same ↦
        rw
          (
            times_listed-insert other key c m.connections e,
            lookup-insert key other c m.connections,
            same,
            h other,
            sym ((eq_iff key other).0 same),
            e,
          )
          refl
    | inr apart ↦
        rw
          (
            times_listed-insert other key c m.connections e,
            lookup-insert key other c m.connections,
            apart,
            h other,
          )
          (omega arith)
  ]

  IsExact-enter :
      (key : String) (c : Connection) (m : DatabaseManager Connection)
      → IsExact m.connections
      → IsExact (enter key c m).1.connections
  unfolding enter
  IsExact-enter key c m h = IsExact-entry_or_insert key c m _ refl h

module _ {Connection : Type 0} (S : Storage Connection) where
  Step-IsExact :
      {s t : System Connection S.World}
      → Step S s t
      → IsExact s.manager.connections
      → IsExact t.manager.connections
  Step-IsExact (hits name c h) v = v
  Step-IsExact (misses name key path h) v = v
  Step-IsExact (connects front key path back c w e h) v = v
  Step-IsExact (fails front key path back x w e h) v = v
  Step-IsExact {s} (enters front key c back e) v = IsExact-enter key c s.manager v

  Reach-IsExact :
      {config : DatabaseRuntimeConfig} {world : S.World} {s : System Connection S.World}
      → Reach S (new_system S config world) s
      → IsExact s.manager.connections
  unfolding times_listed keys_of lookup
  Reach-IsExact start = λ key. refl
  Reach-IsExact (later r st) = Step-IsExact st (Reach-IsExact r)

  -- However opens are interleaved, the listing of the keys is in order, and it has each key that the cache
  -- holds a connection for once and no other.
  pub Reach-cached_database_keys :
      (config : DatabaseRuntimeConfig) (world : S.World) (s : System Connection S.World)
      → Reach S (new_system S config world) s
      → IsSorted (cached_database_keys s.manager)
        × ((key : String)
            → times_listed key (cached_database_keys s.manager)
              ≡ (if is_some (lookup key s.manager.connections) then 1 else 0))
  unfolding cached_database_keys
  Reach-cached_database_keys config world s r = (
    IsSorted-sort_keys (keys_of s.manager.connections),
    λ key. times_listed-sort_keys key (keys_of s.manager.connections) ∙ Reach-IsExact r key,
  )
