-- ===== src/Manager/Cache.antt =====
-- src/manager.rs: `DatabaseManager`, its cache of connections and `open_named`. The lock of the cache is
-- held for `look` and for `enter`, never across the calls of the file system and of lancedb between them.
pub mod Opens
pub mod Repeats
pub mod Listing
pub mod Listed
use vldb_lancedb.Text.{contains}
use vldb_lancedb.Prelude.Dict.{Dict, lookup, insert}
use vldb_lancedb.Manager.{
  database_path_for_name, DatabaseRuntimeConfig, BoxError, normalize_database_key, other_error,
}
use vldb_lancedb.External.Storage.{Storage}
use vldb_lancedb.Prelude.{◌>>=◌, String, Option, Result, some, [], none, if◌then◌else◌, err, ok}

pub record DatabaseManager (Connection : Type 0) : Type 0 where
  pub config : DatabaseRuntimeConfig
  pub connections : Dict Connection

-- What the first half of `open_named` finds
pub data Look (Connection : Type 0) : Type 0 where
  cached : Connection → Look Connection
  missing : (database_key target_path : String) → Look Connection

module _ {Connection : Type 0} where
  -- `DatabaseManager::new`
  abbrev pub new_manager : DatabaseRuntimeConfig → DatabaseManager Connection
  new_manager config = record { config = config; connections = [] }

  unfoldable pub look_up : String → String → Option Connection → Look Connection
  look_up database_key target_path none = missing database_key target_path
  look_up database_key target_path (some connection) = cached connection

  -- `open_named` up to its first use of the file system
  unfoldable pub look :
      DatabaseManager Connection → Option String → Result (Look Connection) BoxError
  unfolding look_up
  look m database_name =
      let database_key = normalize_database_key database_name in
      do
        target_path ← database_path_for_name m.config database_name
        ok (look_up database_key target_path (lookup database_key m.connections))

  unfoldable pub entry_or_insert :
      String
      → Connection
      → DatabaseManager Connection
      → Option Connection
      → Connection × DatabaseManager Connection
  entry_or_insert database_key connection m (some entry) = (entry, m)
  entry_or_insert database_key connection m none =
      (connection, record m { connections = insert database_key connection m.connections })

  -- `entry(database_key).or_insert_with(...)`, the end of `open_named`
  unfoldable pub enter :
      String → Connection → DatabaseManager Connection → Connection × DatabaseManager Connection
  unfolding entry_or_insert
  enter database_key connection m =
      entry_or_insert database_key connection m (lookup database_key m.connections)

module _ {Connection : Type 0} (S : Storage Connection) where
  abbrev and_then :
      {A B : Type 0}
      → Result A String × S.World
      → (A → S.World → Result B BoxError × S.World)
      → Result B BoxError × S.World
  and_then (ok a, w) f = f a w
  and_then (err text, w) f = (err (other_error text), w)

  -- `create_dir_all` for a path that is no URI
  unfoldable pub prepare : String → S.World → Result (Unit {0}) String × S.World
  prepare target_path w =
      if contains "://" target_path then (ok tt, w) else S.create_dir_all target_path w

  -- The middle of `open_named`: the directory and the connection
  unfoldable pub open_connection :
      DatabaseRuntimeConfig → String → S.World → Result Connection BoxError × S.World
  unfolding prepare
  open_connection config target_path w = and_then (prepare target_path w) λ _ w'.
      and_then (S.connect target_path config.read_consistency_interval_ms w')
        λ connection w''. (ok connection, w'')

  abbrev pub Outcome : Type 0
  Outcome = Result Connection BoxError × DatabaseManager Connection × S.World

  abbrev pub finish :
      String → DatabaseManager Connection → Result Connection BoxError × S.World → Outcome
  finish database_key m (ok connection, w) =
      let (entry, m') = enter database_key connection m in (ok entry, m', w)
  finish database_key m (err e, w) = (err e, m, w)

  abbrev pub after_look :
      DatabaseManager Connection → S.World → Result (Look Connection) BoxError → Outcome
  after_look m w (err e) = (err e, m, w)
  after_look m w (ok (cached connection)) = (ok connection, m, w)
  after_look m w (ok (missing database_key target_path)) =
      finish database_key m (open_connection m.config target_path w)

  -- `open_named` when no other open runs meanwhile
  unfoldable pub open_named : DatabaseManager Connection → Option String → S.World → Outcome
  unfolding look open_connection enter
  open_named m database_name w = after_look m w (look m database_name)

  -- `open_default`
  abbrev pub open_default : DatabaseManager Connection → S.World → Outcome
  open_default m w = open_named m none w
