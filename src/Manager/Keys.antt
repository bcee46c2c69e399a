-- ===== src/Manager/Keys.antt =====
-- src/manager.rs: which requests get a path, and which of them share a key of the cache.
use vldb_lancedb.Manager.Containment.{components-join}
use vldb_lancedb.Manager.Names.{IsSegment, validate_database_name_iff}
use vldb_lancedb.Text.FilePath.{
  components, normal, split_from, components_of, is_absolute, part_components, later_components,
  join,
}
use vldb_lancedb.Text.{
  trim, is_empty, trim_start, trim_end, cons_unless_blank, is_whitespace, contains_char,
}
use vldb_lancedb.Prelude.{
  Option, String, ◌≡◌, ◌≢◌, some, false, ap, ok, none, refl, ◌↔◌, ◌++◌, >>=-eq-ok, ◌∷◌, ok_or, [],
  sym, ok_or-eq-ok, arith,
}
use vldb_lancedb.Manager.{
  join_database_root, normalize_database_key, database_path_for_name, key_of, filter_name,
  DatabaseRuntimeConfig, path_of_normalized, looks_like_uri, validate_database_name, is_one_normal,
}

-- A request of a name that is not blank gets a path exactly when the name, trimmed, is a single path
-- segment and a database root is configured.
pub database_path_for_name_iff :
    (config : DatabaseRuntimeConfig) (name : String)
    → is_empty (trim name) ≡ false
    → ((path : String) × (database_path_for_name config (some name) ≡ ok path))
      ↔ (IsSegment (trim name) × (root : String) × (config.db_root ≡ some root))
unfolding database_path_for_name filter_name path_of_normalized
database_path_for_name_iff config name solid = (
  λ h.
      let (u, valid, h1) = >>=-eq-ok (validate_database_name (trim name)) _ (rw solid at h.1) in
      let (root, found, h2) = >>=-eq-ok (ok_or config.db_root _) _ h1 in
      (
        (validate_database_name_iff (trim name)).0 valid,
        root,
        ok_or-eq-ok config.db_root _ root found,
      ),
  λ v.
      let (segment, root, found) = v in
      (
        join_database_root root (trim name),
        rw (solid, (validate_database_name_iff (trim name)).1 segment, found),
      ),
)

-- Under a local root, the path of a named database has the components of the root and then its
-- trimmed name: no name leads out of the root or deeper than one level into it.
pub database_path_for_name-Contained :
    (config : DatabaseRuntimeConfig) (name root path : String)
    → is_empty (trim name) ≡ false
    → config.db_root ≡ some root
    → looks_like_uri root ≡ false
    → database_path_for_name config (some name) ≡ ok path
    → components path ≡ components root ++ (normal (trim name) ∷ [])
unfolding join_database_root database_path_for_name filter_name path_of_normalized
database_path_for_name-Contained config name root path solid root_eq local h =
    let (u, valid, h1) = >>=-eq-ok (validate_database_name (trim name)) _ (rw solid at h) in
    let segment = (validate_database_name_iff (trim name)).0 valid in
    let joined : join root (trim name) ≡ path = ground (arith, rw (root_eq, local) at h1) in
    rw (sym joined) (components-join root (trim name) segment)

key_of_inj : (a b : Option String) → key_of a ≡ key_of b → key_of a ≢ "default" → a ≡ b
key_of_inj none b same other = absurd (other refl)
key_of_inj (some a) none same other = absurd (other same)
key_of_inj (some a) (some b) same other = ap some same

-- Two requests with one key get one path, or one error, unless the key is "default".
pub normalize_database_key-Path :
    (config : DatabaseRuntimeConfig) (a b : Option String)
    → normalize_database_key a ≡ normalize_database_key b
    → normalize_database_key a ≢ "default"
    → database_path_for_name config a ≡ database_path_for_name config b
unfolding normalize_database_key database_path_for_name
normalize_database_key-Path config a b same other =
    ap (path_of_normalized config) (key_of_inj (filter_name a) (filter_name b) same other)

-- The name "default" has the key of the default database, and its path is the one under the root.
pub normalize_database_key-Collision :
    (config : DatabaseRuntimeConfig) (root : String)
    → config.db_root ≡ some root
    → (normalize_database_key (some "default") ≡ normalize_database_key none)
      × (database_path_for_name config (some "default") ≡ ok (join_database_root root "default"))
      × (database_path_for_name config none ≡ ok config.default_db_path)
unfolding normalize_database_key database_path_for_name filter_name path_of_normalized trim
    trim_start trim_end cons_unless_blank is_whitespace validate_database_name contains_char
    is_one_normal components split_from components_of is_absolute part_components later_components
normalize_database_key-Collision config root e = (refl, rw e, refl)
