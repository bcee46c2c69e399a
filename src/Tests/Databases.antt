-- ===== src/Tests/Databases.antt =====
-- Names, paths, keys and the cache of databases, the table locks and the permits.
use vldb_lancedb.Manager.Cache.Repeats.{open_named-Collision}
use vldb_lancedb.Manager.Cache.Listed.{Reach-cached_database_keys}
use vldb_lancedb.Runtime.Engines.{open_named_engine_again}
use vldb_lancedb.Manager.Cache.Listing.{
  IsSorted, cached_database_keys, sort_keys, times_listed, insert_key, leb_text, keys_of,
}
use vldb_lancedb.Runtime.{open_named_engine, LanceDbRuntime, new_engine, Arcs, LanceDbEngine}
use vldb_lancedb.Engine.Tables.{normalize_table_name}
use vldb_lancedb.Engine.Locks.Exclusion
use vldb_lancedb.Engine.Locks
use vldb_lancedb.Manager.Keys.{database_path_for_name_iff, database_path_for_name-Contained}
use vldb_lancedb.Prelude.Dict.{lookup, insert}
use vldb_lancedb.Text.FilePath.{
  components, split_from, components_of, is_absolute, part_components, later_components, join,
  ends_with_separator, normal,
}
use vldb_lancedb.Manager.Names.{IsSegment}
use vldb_lancedb.Tests.Stubs.{options_stub, storage_stub, config_stub, arcs_stub}
use vldb_lancedb.Prelude.{
  ◌≡◌, some, ◌∷◌, ℕ, none, ok, ◌↔◌, [], String, refl, err, ◌++◌, if◌then◌else◌, is_some, ◌≢◌, arith,
}
use vldb_lancedb.Engine.Locks.{lock_for, new_coordinator, lock_for_same_iff, IsSound-new}
use vldb_lancedb.Engine.Limiter.{new_limiter, Reach-crowd, Reach-permits}
use vldb_lancedb.Engine.Options.{permits}
use vldb_lancedb.Manager.Cache.{
  open_named, look, look_up, new_manager, enter, entry_or_insert, open_connection, prepare,
}
use vldb_lancedb.Manager.Cache.Opens.{System, AllAgree, Reach-AllAgree}
use vldb_lancedb.Manager.{
  normalize_database_key, validate_database_name, filter_name, is_one_normal,
  database_path_for_name, join_database_root, path_of_normalized, looks_like_uri, invalid_input,
}
use vldb_lancedb.Text.{
  trim, contains_char, trim_start, trim_end, cons_unless_blank, is_whitespace, contains,
  strip_prefix,
}
use vldb_lancedb.Manager.Cache.Opens
use vldb_lancedb.Engine.Limiter

database_path_for_name_iff_example :
    ((path : String) × (database_path_for_name config_stub (some " memory ") ≡ ok path))
    ↔ (IsSegment (trim " memory ") × (root : String) × (config_stub.db_root ≡ some root))
unfolding trim trim_start trim_end cons_unless_blank is_whitespace
database_path_for_name_iff_example = database_path_for_name_iff config_stub " memory " refl

rejects_test :
    validate_database_name ".." ≡ err (invalid_input "database `..` must be a single path segment")
unfolding validate_database_name contains_char is_one_normal components split_from components_of
    is_absolute part_components later_components
rejects_test = refl

named_path_test :
    database_path_for_name config_stub (some " memory ") ≡ ok "/srv/vldb/databases/memory"
unfolding validate_database_name contains_char is_one_normal components split_from components_of
    is_absolute part_components later_components trim trim_start trim_end cons_unless_blank
    is_whitespace database_path_for_name filter_name path_of_normalized join_database_root
    looks_like_uri contains strip_prefix join ends_with_separator
named_path_test = refl

database_path_for_name-Contained_example :
    components "/srv/vldb/databases/memory"
    ≡ components "/srv/vldb/databases" ++ (normal (trim " memory ") ∷ [])
unfolding validate_database_name contains_char is_one_normal components split_from components_of
    is_absolute part_components later_components trim trim_start trim_end cons_unless_blank
    is_whitespace database_path_for_name filter_name path_of_normalized join_database_root
    looks_like_uri contains strip_prefix join ends_with_separator
database_path_for_name-Contained_example =
    database_path_for_name-Contained config_stub " memory " "/srv/vldb/databases"
      "/srv/vldb/databases/memory" refl refl refl refl

open_named-Collision_example :
    (database_path_for_name config_stub (some "default")
      ≡ ok (join_database_root "/srv/vldb/databases" "default"))
    × ((open_named storage_stub (new_manager config_stub) (some "default") 0).0
        ≡ (open_connection storage_stub config_stub
            (join_database_root "/srv/vldb/databases" "default")
            0).0)
    × ((open_connection storage_stub config_stub "/srv/vldb/default" 0).0 ≡ ok 0)
    × ((w' : ℕ)
        → open_named storage_stub
            (open_named storage_stub (new_manager config_stub) none 0).1
            (some "default")
            w'
          ≡ (ok 0, (open_named storage_stub (new_manager config_stub) none 0).1, w'))
unfolding open_named look look_up enter entry_or_insert lookup insert normalize_database_key
    filter_name database_path_for_name path_of_normalized open_connection prepare contains
    strip_prefix
open_named-Collision_example =
    open_named-Collision storage_stub (new_manager config_stub) "/srv/vldb/databases" 0 0 refl
      (λ key. refl) refl

-- Two requests miss, both connect, and both are answered with the connection that is entered first.
abbrev raced : System ℕ ℕ
raced = record {
  manager = record { config = config_stub; connections = ("default", 1) ∷ [] };
  world = 2;
  waiting = [];
  connected = [];
  answers = ("default", 1) ∷ ("default", 1) ∷ [];
}

racing : Opens.Reach storage_stub (Opens.new_system storage_stub config_stub 0) raced
unfolding look look_up enter entry_or_insert lookup insert normalize_database_key filter_name
    database_path_for_name path_of_normalized open_connection prepare contains strip_prefix
racing =
    Opens.Reach.later
      (Opens.Reach.later
        (Opens.Reach.later
          (Opens.Reach.later
            (Opens.Reach.later
              (Opens.Reach.later Opens.Reach.start
                (Opens.Step.misses none "default" "/srv/vldb/default" refl))
              (Opens.Step.misses none "default" "/srv/vldb/default" refl))
            (Opens.Step.connects [] "default" "/srv/vldb/default"
              (("default", "/srv/vldb/default") ∷ []) 0 1 refl refl))
          (Opens.Step.connects [] "default" "/srv/vldb/default" [] 1 2 refl refl))
        (Opens.Step.enters [] "default" 1 (("default", 0) ∷ []) refl))
      (Opens.Step.enters [] "default" 0 [] refl)

Reach-AllAgree_example : AllAgree {Connection = ℕ} (("default", 1) ∷ ("default", 1) ∷ [])
Reach-AllAgree_example = Reach-AllAgree storage_stub config_stub racing

Reach-crowd_example :
    Limiter.Reach
      (new_limiter options_stub)
      (record { available = permits options_stub; holding = 0; inside = 100 })
Reach-crowd_example = Reach-crowd options_stub 100

-- Two readers of one table, spelled in two ways
abbrev two_readers : Exclusion.System
two_readers = record {
  coordinator = record { locks = ("demo", 0) ∷ []; next_lock = 1 };
  guards =
      record { table_name = " demo"; lock = 0; mode = Exclusion.Mode.read }
      ∷ record { table_name = "demo"; lock = 0; mode = Exclusion.Mode.read }
      ∷ [];
}

two_reads : Exclusion.Reach two_readers
unfolding lock_for Locks.entry_or_insert lookup insert trim trim_start trim_end cons_unless_blank
    is_whitespace normalize_table_name
two_reads =
    Exclusion.Reach.later
      (Exclusion.Reach.later Exclusion.Reach.start
        (Exclusion.Step.acquire "demo" Exclusion.Mode.read tt))
      (Exclusion.Step.acquire " demo" Exclusion.Mode.read (λ same. (refl, refl), tt))

Reach-ExclusiveTables_example : Exclusion.ExclusiveTables two_readers.guards
Reach-ExclusiveTables_example = Exclusion.Reach-ExclusiveTables two_reads

Reach-cached_database_keys_example :
    IsSorted (cached_database_keys raced.manager)
    × ((key : String)
        → times_listed key (cached_database_keys raced.manager)
          ≡ (if is_some (lookup key raced.manager.connections) then 1 else 0))
Reach-cached_database_keys_example =
    Reach-cached_database_keys storage_stub config_stub 0 raced racing

abbrev runtime_stub : LanceDbRuntime ℕ
runtime_stub = record { manager = new_manager config_stub; engine_options = options_stub }

abbrev arcs_after : Arcs
arcs_after = (open_named_engine storage_stub runtime_stub none 0 arcs_stub).3

abbrev first_engine : LanceDbEngine ℕ
first_engine = (new_engine 0 options_stub arcs_stub).0

open_named_engine_again_example :
    (second : LanceDbEngine ℕ) × (after : Arcs) × (open_named_engine storage_stub
        (open_named_engine storage_stub runtime_stub none 0 arcs_stub).1
        none
        5
        arcs_after
      ≡ (ok second, (open_named_engine storage_stub runtime_stub none 0 arcs_stub).1, 5, after))
    × (second.db ≡ first_engine.db)
    × (second.table_access ≢ first_engine.table_access)
    × (second.concurrency_limiter ≢ first_engine.concurrency_limiter)
    × (after.coordinators second.table_access ≡ new_coordinator)
    × (after.limiters second.concurrency_limiter ≡ new_limiter options_stub)
    × (after.coordinators first_engine.table_access
        ≡ arcs_after.coordinators first_engine.table_access)
    × (after.limiters first_engine.concurrency_limiter
        ≡ arcs_after.limiters first_engine.concurrency_limiter)
unfolding open_named look look_up enter entry_or_insert lookup insert normalize_database_key
    filter_name database_path_for_name path_of_normalized open_connection prepare contains
    strip_prefix open_named_engine new_engine
open_named_engine_again_example =
    open_named_engine_again storage_stub runtime_stub none 0 arcs_stub first_engine refl 5
      arcs_after (omega arith)

keys_in_order_test :
    cached_database_keys {Connection = ℕ}
      (record { config = config_stub; connections = ("notes", 1) ∷ (("default", 0) ∷ []) })
    ≡ "default" ∷ ("notes" ∷ [])
unfolding cached_database_keys sort_keys insert_key leb_text keys_of
keys_in_order_test = refl
