-- ===== src/Manager/Cache/Repeats.antt =====
-- src/manager.rs: `open_named` when no other open runs meanwhile.
use vldb_lancedb.Manager.Keys.{normalize_database_key-Collision}
use vldb_lancedb.Manager.Cache.Opens.{enter_stored, look-cached, look-missing}
use vldb_lancedb.Prelude.Dict.{lookup}
use vldb_lancedb.Manager.{
  BoxError, normalize_database_key, database_path_for_name, join_database_root,
}
use vldb_lancedb.External.Storage.{Storage}
use vldb_lancedb.Prelude.{
  Option, String, ◌≡◌, Result, some, ok, none, refl, >>=-eq-ok, err, sym, ◌∙◌,
}
use vldb_lancedb.Manager.Cache.{
  entry_or_insert, open_named, DatabaseManager, look, enter, look_up, Look, after_look, cached,
  missing, open_connection, finish,
}

module _ {Connection : Type 0} where
  entry_or_insert-config :
      (key : String) (c : Connection) (m : DatabaseManager Connection) (found : Option Connection)
      → (entry_or_insert key c m found).1.config ≡ m.config
  unfolding entry_or_insert
  entry_or_insert-config key c m none = refl
  entry_or_insert-config key c m (some d) = refl

  -- What an open leaves in the cache, by its result
  abbrev pub IsKept :
      Option String
      → DatabaseManager Connection
      → Result Connection BoxError
      → DatabaseManager Connection
      → Type 0
  IsKept name m (ok c) m' =
      (lookup (normalize_database_key name) m'.connections ≡ some c) × (m'.config ≡ m.config)
  IsKept name m (err e) m' = m' ≡ m

module _ {Connection : Type 0} (S : Storage Connection) where
  finish-IsKept :
      (name : Option String) (m : DatabaseManager Connection)
      (opened : Result Connection BoxError × S.World)
      → let (r, m', w') = finish S (normalize_database_key name) m opened in IsKept name m r m'
  unfolding enter
  finish-IsKept name m (ok d, w) = (
    enter_stored (normalize_database_key name) d m,
    entry_or_insert-config (normalize_database_key name) d m _,
  )
  finish-IsKept name m (err x, w) = refl

  after_look-IsKept :
      (m : DatabaseManager Connection) (name : Option String) (w : S.World)
      (found : Result (Look Connection) BoxError)
      → look m name ≡ found
      → let (r, m', w') = after_look S m w found in IsKept name m r m'
  after_look-IsKept m name w (err e) h = refl
  after_look-IsKept m name w (ok (cached c)) h = (look-cached m name c h, refl)
  after_look-IsKept m name w (ok (missing key path)) h =
      rw (look-missing m name key path h) (finish-IsKept name m (open_connection S m.config path w))

  -- An open that fails leaves the manager as it was; one that succeeds leaves its connection under the
  -- key of the name.
  pub open_named-IsKept :
      (m : DatabaseManager Connection) (name : Option String) (w : S.World)
      → let (r, m', w') = open_named S m name w in IsKept name m r m'
  unfolding open_named
  open_named-IsKept m name w = after_look-IsKept m name w (look m name) refl

  look-of_path :
      (m m' : DatabaseManager Connection) (name : Option String) (c : Connection)
      → ((l : Look Connection) × (look m name ≡ ok l))
      → IsKept name m (ok c) m'
      → look m' name ≡ ok (cached c)
  unfolding look look_up
  look-of_path m m' name c (l, h) (stored, same) =
      let (path, found, h1) = >>=-eq-ok (database_path_for_name m.config name) _ h in
      rw (same, found, stored)

  after_look-ok :
      (m : DatabaseManager Connection) (w : S.World) (found : Result (Look Connection) BoxError)
      (c : Connection)
      → (after_look S m w found).0 ≡ ok c
      → (l : Look Connection) × (found ≡ ok l)
  after_look-ok m w (ok l) c h = (l, refl)
  after_look-ok m w (err e) c h = cc

  -- After an open that succeeded, the same open succeeds with the same connection, and neither the
  -- file system nor lancedb is called again.
  pub open_named_again :
      (m : DatabaseManager Connection) (name : Option String) (w : S.World) (c : Connection)
      → (open_named S m name w).0 ≡ ok c
      → (w' : S.World)
      → open_named S (open_named S m name w).1 name w' ≡ (ok c, (open_named S m name w).1, w')
  unfolding open_named
  open_named_again m name w c h w' =
      let (l, found) = after_look-ok m w (look m name) c h in
      rw (look-of_path m _ name c (l, found) (rw h at (open_named-IsKept m name w)))

  -- A request of a path whose key is not in the cache connects to the path.
  open_named-first :
      (m : DatabaseManager Connection) (name : Option String) (path : String) (w : S.World)
      → lookup (normalize_database_key name) m.connections ≡ none
      → database_path_for_name m.config name ≡ ok path
      → (open_named S m name w).0 ≡ (open_connection S m.config path w).0
  unfolding open_named look look_up enter entry_or_insert
  open_named-first m name path w absent located =
      rw (located, absent) (go (open_connection S m.config path w))
    where
      go :
          (o : Result Connection BoxError × S.World)
          → (finish S (normalize_database_key name) m o).0 ≡ o.0
      go (ok c, w') = rw absent refl
      go (err e, w') = refl

  -- Where a database root is configured, a database that is named "default" has a path of its own under the
  -- root, and a request of it alone, without a database opened before, connects to that path. But after the
  -- default database was opened, the request gets the connection of the default database, which is on the
  -- configured default path; nothing is called, and the path of the name is never opened.
  pub open_named-Collision :
      (m : DatabaseManager Connection) (root : String) (w : S.World) (c : Connection)
      → m.config.db_root ≡ some root
      → ((key : String) → lookup key m.connections ≡ none)
      → (open_named S m none w).0 ≡ ok c
      → (database_path_for_name m.config (some "default") ≡ ok (join_database_root root "default"))
        × ((open_named S m (some "default") w).0
            ≡ (open_connection S m.config (join_database_root root "default") w).0)
        × ((open_connection S m.config m.config.default_db_path w).0 ≡ ok c)
        × ((w' : S.World)
            → open_named S (open_named S m none w).1 (some "default") w'
              ≡ (ok c, (open_named S m none w).1, w'))
  unfolding open_named look look_up
  open_named-Collision m root w c rooted fresh h =
      let (key, named, default) = normalize_database_key-Collision m.config root rooted in
      let found : Look Connection =
        look_up (normalize_database_key (some "default")) (join_database_root root "default")
          (lookup (normalize_database_key (some "default")) m.connections) in
      let kept = rw h at (open_named-IsKept m none w) in
      (
        named,
        open_named-first m (some "default") _ w (fresh _) named,
        sym (open_named-first m none _ w (fresh _) default) ∙ h,
        λ w'.
            rw
              (look-of_path m (open_named S m none w).1 (some "default") c (found, rw named refl)
                (rw key kept.0, kept.1))
              refl,
      )
