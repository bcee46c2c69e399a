-- ===== src/Logging/Days.antt =====
-- src/logging.rs: the names of the files of the days.
use vldb_lancedb.Text.{is_empty}
use Prim.Native.Char.{char}
use vldb_lancedb.Text.FileName.{file_stem, extension}
use vldb_lancedb.Text.FilePath.{join, is_absolute, ends_with_separator}
use vldb_lancedb.Logging.{build_dated_log_path, build_dated_log_file_name, dated_name}
use text.Mathlib.TextLemmas.{
  cons-append, nil-append, append-nil, append_cancel_left, append_cancel_right,
}
use vldb_lancedb.Prelude.{
  refl, String, Option, ◌<>◌, ◌≡◌, some, Bool-cases, inl, inr, none, sym, ◌∙◌, ◌||◌,
}

abbrev IsFramed : String → Type 0
IsFramed base_file_name =
    (prefix suffix : String) × ((date_key : String)
      → build_dated_log_file_name base_file_name date_key ≡ prefix <> ("_" <> (date_key <> suffix)))

dated_name_lem :
    (base : String) (stem extension : Option String)
    → (prefix suffix : String) × ((date_key : String)
        → dated_name base date_key stem extension ≡ prefix <> ("_" <> (date_key <> suffix)))
unfolding dated_name
dated_name_lem base (some stem) none = (stem, "", λ d. rw (append-nil d) refl)
dated_name_lem base none extension = (base, "", λ d. rw (append-nil d) refl)
dated_name_lem base (some stem) (some extension) = elim (Bool-cases (is_empty extension)) [
  | inl e ↦ (stem, "", λ d. rw (e, append-nil d) refl)
  | inr e ↦ (stem, "." <> extension, λ d. rw e refl)
]

IsFramed-build_dated_log_file_name : (base : String) → IsFramed base
unfolding build_dated_log_file_name
IsFramed-build_dated_log_file_name base = dated_name_lem base (file_stem base) (extension base)

-- Whether the name is absolute does not depend on the day.
is_absolute-append :
    (s t u : String) → is_absolute (s <> ("_" <> t)) ≡ is_absolute (s <> ("_" <> u))
unfolding is_absolute
is_absolute-append String.[] t u =
    rw
      (
        nil-append ("_" <> t),
        nil-append ("_" <> u),
        cons-append (char 0x5f tt) "" t,
        cons-append (char 0x5f tt) "" u,
      )
      refl
is_absolute-append (String.◌∷◌ c s) t u =
    rw (cons-append c s ("_" <> t), cons-append c s ("_" <> u)) refl

join_cancel_left :
    (dir s t : String) → is_absolute s ≡ is_absolute t → join dir s ≡ join dir t → s ≡ t
unfolding join
join_cancel_left dir s t same h = elim (Bool-cases (is_absolute s)) [
  | inl e ↦ rw (e, sym same ∙ e) at h
  | inr e ↦ elim (Bool-cases (is_empty dir || ends_with_separator dir)) [
    | inl e' ↦ append_cancel_left dir s t (rw (e, sym same ∙ e, e') at h)
    | inr e' ↦
        append_cancel_left "/" s t (append_cancel_left dir _ _ (rw (e, sym same ∙ e, e') at h))
  ]
]

-- Two days whose log files have one path are one day.
pub build_dated_log_path_inj :
    (dir base d e : String)
    → build_dated_log_path dir base d ≡ build_dated_log_path dir base e
    → d ≡ e
unfolding build_dated_log_path
build_dated_log_path_inj dir base d e h =
    let (prefix, suffix, frame) = IsFramed-build_dated_log_file_name base in
    let same =
      join_cancel_left dir _ _
        (rw (frame d, frame e) (is_absolute-append prefix (d <> suffix) (e <> suffix))) h in
    append_cancel_right d e suffix
      (append_cancel_left "_" _ _ (append_cancel_left prefix _ _ (rw (frame d, frame e) at same)))
