-- ===== src/Config/Absolute.antt =====
-- src/config.rs: where the paths of the configuration lie, in an environment with absolute directories.
use vldb_lancedb.Text.FileName.{parent}
use vldb_lancedb.Text.Absolute.{is_absolute-join, is_absolute-parent}
use vldb_lancedb.Config.{Environment}
use mathlib.Core.Option.{some-injective}
use vldb_lancedb.Text.{is_empty, contains}
use vldb_lancedb.Text.FilePath.{is_absolute}
use vldb_lancedb.Config.Paths.{
  resolve_path_like_shell, resolve_log_dir, resolve_data_path, against, expand_tilde,
}
use vldb_lancedb.Config.Load.{
  config_arg, first_file, base_of, parse_config_arg, find_default_config_file, or_found, beside,
  current_dir, exe_dir,
}
use vldb_lancedb.Prelude.{
  Option, String, some, List, ◌≡◌, true, All, ok, Bool-cases, ◌∷◌, none, false, ◌⊎◌, inl, sym, inr,
  [], Result, refl, Option-cases, ◌=ₛ◌, ◌||◌, err, map_ok-eq-ok, map_err-eq-ok, drop, >>=-eq-ok,
  ok-injective, ◌++◌, All-append,
}

abbrev pub IsAbsoluteIf : Option String → Type 0
IsAbsoluteIf none = Unit
IsAbsoluteIf (some path) = is_absolute path ≡ true

-- The environment names its directories by absolute paths, as the operating system does.
pub record IsRooted (env : Environment) : Type 0 where
  pub dir : (path : String) → env.current_dir ≡ ok path → is_absolute path ≡ true
  pub exe : (path : String) → env.current_exe ≡ ok path → is_absolute path ≡ true

module _ (env : Environment) where
  is_absolute-resolve_path_like_shell :
      (raw base : String)
      → is_absolute base ≡ true
      → is_absolute (resolve_path_like_shell env raw base) ≡ true
  unfolding resolve_path_like_shell against
  is_absolute-resolve_path_like_shell raw base h =
      elim (Bool-cases (is_absolute (expand_tilde env raw))) [
        | inl e ↦ rw e e
        | inr e ↦ rw e (is_absolute-join base (expand_tilde env raw) h)
      ]

  pub resolve_data_path_lem :
      (raw base : String)
      → is_absolute base ≡ true
      → (contains "://" (resolve_data_path env raw base) ≡ true)
        ⊎ (is_absolute (resolve_data_path env raw base) ≡ true)
  unfolding resolve_data_path
  resolve_data_path_lem raw base h = elim (Bool-cases (contains "://" raw)) [
    | inl e ↦ rw e (inl e)
    | inr e ↦ rw e (inr (is_absolute-resolve_path_like_shell raw base h))
  ]

  pub is_absolute-resolve_log_dir :
      (dir db_path base : String)
      → is_absolute base ≡ true
      → (contains "://" db_path ≡ true) ⊎ (is_absolute db_path ≡ true)
      → is_absolute (resolve_log_dir env dir db_path base) ≡ true
  unfolding resolve_log_dir
  is_absolute-resolve_log_dir dir db_path base h placed = elim (Bool-cases (is_empty dir)) [
    | inr e ↦ rw e (is_absolute-resolve_path_like_shell dir base h)
    | inl e ↦ elim (Bool-cases (contains "://" db_path)) [
      | inl e' ↦ rw (e, e') (is_absolute-join base "vldb-lancedb-logs" h)
      | inr e' ↦ rw (e, e') (is_absolute-join db_path "logs" (local placed e'))
    ]
  ]
    where
      local :
          (contains "://" db_path ≡ true) ⊎ (is_absolute db_path ≡ true)
          → contains "://" db_path ≡ false
          → is_absolute db_path ≡ true
      local (inl u) n = cc
      local (inr a) n = a

  is_absolute-config_arg :
      (args : List String) (path : String)
      → IsRooted env
      → config_arg env args ≡ ok (some path)
      → is_absolute path ≡ true
  unfolding config_arg current_dir
  is_absolute-config_arg [] path rooted h = cc
  is_absolute-config_arg (arg ∷ []) path rooted h =
      elim (Bool-cases ((arg =ₛ "-config") || (arg =ₛ "--config"))) [
        | inl e ↦ absurd (cc (rw e at h))
        | inr e ↦ absurd (cc (rw e at h))
      ]
  is_absolute-config_arg (arg ∷ (next ∷ args)) path rooted h =
      elim (Bool-cases ((arg =ₛ "-config") || (arg =ₛ "--config"))) [
        | inl e ↦
            let (dir, found, same) = map_ok-eq-ok _ _ _ (rw e at h) in
            rw (sym (some-injective _ _ same)) (
              is_absolute-resolve_path_like_shell next dir
                (rooted.dir dir (map_err-eq-ok _ _ _ found)))
        | inr e ↦ is_absolute-config_arg (next ∷ args) path rooted (rw e at h)
      ]

  is_absolute-first_file :
      (paths : List String) (path : String)
      → All (λ p. is_absolute p ≡ true) paths
      → first_file env paths ≡ some path
      → is_absolute path ≡ true
  unfolding first_file
  is_absolute-first_file [] path all h = cc
  is_absolute-first_file (p ∷ paths) path (first, rest) h = elim (Bool-cases (env.is_file p)) [
    | inl e ↦ rw (sym (some-injective _ _ (rw e at h))) first
    | inr e ↦ is_absolute-first_file paths path rest (rw e at h)
  ]

  pub is_absolute-base_of :
      (dir : String) (source : Option String)
      → is_absolute dir ≡ true
      → IsAbsoluteIf source
      → is_absolute (base_of env dir source) ≡ true
  is_absolute-base_of dir none h s = h
  is_absolute-base_of dir (some path) h s = elim (Option-cases (parent path)) [
    | inl e ↦ rw e h
    | inr (p, e) ↦ rw e (is_absolute-parent path p s e)
  ]

  All-beside :
      (dir : Option String) → IsAbsoluteIf dir → All (λ p. is_absolute p ≡ true) (beside env dir)
  All-beside none h = tt
  All-beside (some dir) h = (is_absolute-join dir _ h, (is_absolute-join dir _ h, tt))

  IsAbsoluteIf-exe_dir :
      (exe : Result String String)
      → ((path : String) → exe ≡ ok path → is_absolute path ≡ true)
      → IsAbsoluteIf (exe_dir env exe)
  IsAbsoluteIf-exe_dir (err error) h = tt
  IsAbsoluteIf-exe_dir (ok path) h = go (parent path) refl
    where
      go : (p : Option String) → parent path ≡ p → IsAbsoluteIf p
      go none e = tt
      go (some p) e = is_absolute-parent path p (h path refl) e

  IsAbsoluteIf-first_file :
      (paths : List String)
      → All (λ p. is_absolute p ≡ true) paths
      → IsAbsoluteIf (first_file env paths)
  IsAbsoluteIf-first_file paths all = go (first_file env paths) refl
    where
      go : (p : Option String) → first_file env paths ≡ p → IsAbsoluteIf p
      go none e = tt
      go (some p) e = is_absolute-first_file paths p all e

  pub IsAbsoluteIf-or_found :
      (explicit found : Option String)
      → IsRooted env
      → parse_config_arg env ≡ ok explicit
      → IsAbsoluteIf found
      → IsAbsoluteIf (or_found env explicit found)
  unfolding parse_config_arg
  IsAbsoluteIf-or_found none found rooted h hf = hf
  IsAbsoluteIf-or_found (some path) found rooted h hf =
      is_absolute-config_arg (drop 1 env.args) path rooted h

  pub IsAbsoluteIf-find_default_config_file :
      {found : Option String}
      → IsRooted env
      → find_default_config_file env ≡ ok found
      → IsAbsoluteIf found
  unfolding find_default_config_file current_dir
  IsAbsoluteIf-find_default_config_file rooted h =
      let (dir, here, done) = >>=-eq-ok (current_dir env) _ h in
      rw (sym (ok-injective done)) (
        IsAbsoluteIf-first_file (beside env (exe_dir env env.current_exe) ++ beside env (some dir))
          (All-append _ _ _
            (All-beside (exe_dir env env.current_exe)
              (IsAbsoluteIf-exe_dir env.current_exe rooted.exe))
            (All-beside (some dir) (rooted.dir dir (map_err-eq-ok _ _ _ here)))))
