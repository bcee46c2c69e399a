-- ===== src/Text/Absolute.antt =====
-- Absolute paths under `join` and `parent`.
use vldb_lancedb.Text.{is_empty}
use vldb_lancedb.Text.FilePath.{join, is_absolute, split_from, ends_with_separator}
use vldb_lancedb.Text.FileName.{parent, parent_of, with_separators, trim_parts, but_last}
use text.Mathlib.TextLemmas.{cons-append}
use Prim.Native.Char.{char}
use mathlib.Core.Option.{some-injective}
use vldb_lancedb.Prelude.{
  refl, String, ◌≡◌, List, if◌then◌else◌, true, some, ◌<>◌, Bool-cases, is_nil, ◌∷◌, inl, inr, [],
  sym, ◌||◌,
}

is_absolute-append : (s t : String) → is_absolute s ≡ true → is_absolute (s <> t) ≡ true
unfolding is_absolute
is_absolute-append String.[] t h = cc
is_absolute-append (String.◌∷◌ c s) t h = rw (cons-append c s t) h

pub is_absolute-join :
    (base path : String) → is_absolute base ≡ true → is_absolute (join base path) ≡ true
unfolding join
is_absolute-join base path h = elim (Bool-cases (is_absolute path)) [
  | inl e ↦ rw e e
  | inr e ↦ elim (Bool-cases (is_empty base || ends_with_separator base)) [
    | inl e' ↦ rw (e, e') (is_absolute-append base path h)
    | inr e' ↦ rw (e, e') (is_absolute-append base ("/" <> path) h)
  ]
]

is_absolute-with_separators :
    (kept : List String) → is_absolute (if is_nil kept then "/" else with_separators kept) ≡ true
unfolding is_absolute with_separators
is_absolute-with_separators [] = refl
is_absolute-with_separators (part ∷ kept) =
    rw
      (
        cons-append (char 0x2f tt) "" part,
        cons-append (char 0x2f tt) ("" <> part) (with_separators kept),
      )
      refl

is_absolute-parent_of :
    (parts : List String) (p : String) → parent_of true parts ≡ some p → is_absolute p ≡ true
unfolding parent_of is_absolute with_separators
is_absolute-parent_of [] p h = cc
is_absolute-parent_of (first ∷ parts) p h = elim (Bool-cases (is_nil (trim_parts parts))) [
  | inl e ↦ absurd (cc (rw e at h))
  | inr e ↦
      rw (sym (some-injective _ _ (rw e at h)))
        (is_absolute-with_separators (trim_parts (but_last (trim_parts parts))))
]

pub is_absolute-parent :
    (path p : String) → is_absolute path ≡ true → parent path ≡ some p → is_absolute p ≡ true
unfolding parent
is_absolute-parent path p h e = is_absolute-parent_of (split_from "" path) p (rw h at e)
