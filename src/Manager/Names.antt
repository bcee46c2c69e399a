-- ===== src/Manager/Names.antt =====
-- src/manager.rs: which names `validate_database_name` takes, and where the path of a named database lies.
use vldb_lancedb.Prelude.{
  String, ◌≡◌, ok, true, false, ◌<>◌, ◌++◌, ◌↔◌, arith, ◌≢◌, [], refl, Bool-cases, ◌∷◌, ap, eq_iff,
  inl, sym, inr, code, ◌==◌,
}
use vldb_lancedb.Text.{contains_char}
use vldb_lancedb.Manager.{validate_database_name, is_one_normal}
use vldb_lancedb.Text.FilePath.{
  components, is_absolute, components_of, part_components, split_from, later_components,
}
use text.Mathlib.TextLemmas.{append_assoc, append-nil, cons-append, nil-append}

pub split_from_of_no_separator :
    (part s : String) → contains_char b'/' s ≡ false → split_from part s ≡ (part <> s) ∷ []
unfolding contains_char split_from
split_from_of_no_separator part String.[] h = ap (λ t. t ∷ []) (sym (append-nil part))
split_from_of_no_separator part (String.◌∷◌ c s) h = elim (Bool-cases (code c == b'/')) [
  | inl e ↦ absurd (cc (rw e at h))
  | inr e ↦ rw (
    e,
    split_from_of_no_separator (part <> String.◌∷◌ c "") s (rw e at h),
    append_assoc part (String.◌∷◌ c "") s,
    cons-append c "" s,
    nil-append s,
  )
]

pub is_absolute_of_no_separator :
    (s : String) → contains_char b'/' s ≡ false → is_absolute s ≡ false
unfolding contains_char is_absolute
is_absolute_of_no_separator String.[] h = refl
is_absolute_of_no_separator (String.◌∷◌ c s) h = ground arith

-- A path without a separator has the components of its only part.
pub components_of_no_separator :
    (s : String) → contains_char b'/' s ≡ false → components s ≡ part_components true s ++ []
unfolding components components_of later_components
components_of_no_separator s h =
    rw (is_absolute_of_no_separator s h, split_from_of_no_separator "" s h, nil-append s)

is_one_normal-part_components :
    (s : String)
    → (is_one_normal (part_components true s ++ []) ≡ true) ↔ ((s ≢ "") × (s ≢ ".") × (s ≢ ".."))
unfolding is_one_normal part_components
is_one_normal-part_components s = ground (arith, eq_iff s "", eq_iff s ".", eq_iff s "..")

-- A single path segment: no separator of any platform, not empty, and neither "." nor "..".
pub record IsSegment (name : String) : Type 0 where
  pub no_slash : contains_char b'/' name ≡ false
  pub no_backslash : contains_char b'\\' name ≡ false
  pub proper : (name ≢ "") × (name ≢ ".") × (name ≢ "..")

-- `validate_database_name` accepts exactly the single path segments.
pub validate_database_name_iff :
    (name : String) → (validate_database_name name ≡ ok tt) ↔ IsSegment name
unfolding validate_database_name
validate_database_name_iff name = elim (Bool-cases (contains_char b'/' name)) [
  | inl e ↦ (λ h. absurd (cc (rw e at h)), λ v. absurd (cc (e, v.no_slash)))
  | inr e ↦
      let proper = is_one_normal-part_components name in
      let same = components_of_no_separator name e in
      (
        λ h. ground (arith, h, e, same, proper, IsSegment),
        λ v. ground (arith, v.no_backslash, v.proper, e, same, proper),
      )
]
