-- ===== src/Manager/Containment.antt =====
-- src/manager.rs: the path of a named database under a local root.
use vldb_lancedb.Manager.Names.{
  split_from_of_no_separator, IsSegment, components_of_no_separator, is_absolute_of_no_separator,
}
use vldb_lancedb.Text.{contains_char, is_empty}
use vldb_lancedb.Prelude.{
  append-nil, append_assoc, Bool, List, String, ◌++◌, ◌∷◌, Char, ◌≡◌, code, ◌<>◌, true, [], ◌==◌,
  Bool-cases, sym, inl, inr, false, ap, refl, ◌∙◌, arith, eq_iff,
}
use vldb_lancedb.Text.FilePath.{
  later_components, is_absolute, ends_with_separator, split_from, components_of, components,
  part_components, join, normal,
}
use Prim.Native.Char.{char}
use text.Mathlib.TextLemmas.{append_assoc as text_append_assoc, cons-append, nil-append}

split_from_nonempty :
    (part s : String) → (p : String) × (ps : List String) × (split_from part s ≡ p ∷ ps)
unfolding split_from
split_from_nonempty part String.[] = (part, [], refl)
split_from_nonempty part (String.◌∷◌ c s) = elim (Bool-cases (code c == b'/')) [
  | inl e ↦ (part, split_from "" s, rw e)
  | inr e ↦ rw e (split_from_nonempty (part <> String.◌∷◌ c "") s)
]

-- A last part after a separator is a part of its own.
split_from_append :
    (part s name : String) (d : Char)
    → (code d == b'/') ≡ true
    → contains_char b'/' name ≡ false
    → split_from part (s <> String.◌∷◌ d name) ≡ split_from part s ++ (name ∷ [])
unfolding split_from
split_from_append part String.[] name d e h =
    rw (nil-append (String.◌∷◌ d name), e, split_from_of_no_separator "" name h, nil-append name)
split_from_append part (String.◌∷◌ c s) name d e h = elim (Bool-cases (code c == b'/')) [
  | inl i ↦ rw (cons-append c s (String.◌∷◌ d name), i, split_from_append "" s name d e h)
  | inr i ↦ rw (
    cons-append c s (String.◌∷◌ d name),
    i,
    split_from_append (part <> String.◌∷◌ c "") s name d e h,
  )
]

later_components-append :
    (xs ys : List String) → later_components (xs ++ ys) ≡ later_components xs ++ later_components ys
unfolding later_components
later_components-append [] ys = refl
later_components-append (x ∷ xs) ys = rw (
  later_components-append xs ys,
  append_assoc (part_components false x) (later_components xs) (later_components ys),
)

components_of-append :
    (absolute : Bool) (p : String) (ps ys : List String)
    → components_of absolute ((p ∷ ps) ++ ys)
      ≡ components_of absolute (p ∷ ps) ++ later_components ys
unfolding components_of
components_of-append true p ps ys = rw (later_components-append ps ys)
components_of-append false p ps ys = rw (
  later_components-append ps ys,
  append_assoc (part_components true p) (later_components ps) (later_components ys),
)

is_absolute-append :
    (s name : String) (d : Char)
    → is_absolute (s <> String.◌∷◌ d name) ≡ is_absolute (s <> String.◌∷◌ d "")
unfolding is_absolute
is_absolute-append String.[] name d =
    rw (nil-append (String.◌∷◌ d name), nil-append (String.◌∷◌ d ""))
is_absolute-append (String.◌∷◌ c s) name d =
    rw (cons-append c s (String.◌∷◌ d name), cons-append c s (String.◌∷◌ d ""))

-- What a last part after a separator adds to the components
components-append :
    (s name : String) (d : Char)
    → (code d == b'/') ≡ true
    → contains_char b'/' name ≡ false
    → components (s <> String.◌∷◌ d name)
      ≡ components_of (is_absolute (s <> String.◌∷◌ d "")) (split_from "" s)
        ++ later_components (name ∷ [])
unfolding components
components-append s name d e h =
    let (p, ps, parts) = split_from_nonempty "" s in
    rw (
      split_from_append "" s name d e h,
      is_absolute-append s name d,
      parts,
      components_of-append (is_absolute (s <> String.◌∷◌ d "")) p ps (name ∷ []),
    )

ends_with_separator_split :
    (s : String)
    → ends_with_separator s ≡ true
    → (t : String) × (d : Char) × ((code d == b'/') ≡ true) × (s ≡ t <> String.◌∷◌ d "")
unfolding ends_with_separator
ends_with_separator_split String.[] h = cc
ends_with_separator_split (String.◌∷◌ c String.[]) h = ("", c, h, sym (nil-append _))
ends_with_separator_split (String.◌∷◌ c (String.◌∷◌ c' s)) h =
    let (t, d, e, same) = ends_with_separator_split (String.◌∷◌ c' s) h in
    (String.◌∷◌ c t, d, e, ap (λ u. String.◌∷◌ c u) same ∙ sym (cons-append c t (String.◌∷◌ d "")))

is_absolute-snoc :
    (s : String) (d : Char)
    → is_empty s ≡ false
    → is_absolute (s <> String.◌∷◌ d "") ≡ is_absolute s
unfolding is_absolute
is_absolute-snoc String.[] d h = cc
is_absolute-snoc (String.◌∷◌ c s) d h = rw (cons-append c s (String.◌∷◌ d ""))

later_components-segment :
    (name : String) → IsSegment name → later_components (name ∷ []) ≡ normal name ∷ []
unfolding later_components part_components
later_components-segment name v =
    ground (arith, v.proper, eq_iff name "", eq_iff name ".", eq_iff name "..")

components-segment : (name : String) → IsSegment name → components name ≡ normal name ∷ []
unfolding part_components
components-segment name v =
    components_of_no_separator name v.no_slash
    ∙ ground (arith, v.proper, eq_iff name "", eq_iff name ".", eq_iff name "..")

joined_by_separator :
    (t name : String) (d : Char)
    → (code d == b'/') ≡ true
    → IsSegment name
    → components (t <> String.◌∷◌ d name) ≡ components (t <> String.◌∷◌ d "") ++ (normal name ∷ [])
unfolding contains_char later_components part_components
joined_by_separator t name d e v = rw (
  components-append t name d e v.no_slash,
  components-append t "" d e refl,
  later_components-segment name v,
  append-nil (components_of (is_absolute (t <> String.◌∷◌ d "")) (split_from "" t)),
)

joined_to_open :
    (root name : String) (d : Char)
    → (code d == b'/') ≡ true
    → is_empty root ≡ false
    → IsSegment name
    → components (root <> String.◌∷◌ d name) ≡ components root ++ (normal name ∷ [])
unfolding components
joined_to_open root name d e some_root v =
    components-append root name d e v.no_slash
    ∙ rw (is_absolute-snoc root d some_root, later_components-segment name v)

eq_nil : (s : String) → is_empty s ≡ true → s ≡ ""
eq_nil String.[] h = refl
eq_nil (String.◌∷◌ c s) h = cc

-- The path of a segment under a local root has the components of the root and then the segment,
-- whatever the root is: it stays inside the root, one level below it.
pub components-join :
    (root name : String)
    → IsSegment name
    → components (join root name) ≡ components root ++ (normal name ∷ [])
unfolding join components components_of split_from later_components part_components is_absolute
components-join root name v = elim (Bool-cases (is_empty root)) [
  | inl e ↦
      rw (eq_nil root e, is_absolute_of_no_separator name v.no_slash, nil-append name)
        (components-segment name v)
  | inr e ↦ elim (Bool-cases (ends_with_separator root)) [
    | inl i ↦
        let (t, d, slash, same) = ends_with_separator_split root i in
        rw
          (
            is_absolute_of_no_separator name v.no_slash,
            e,
            i,
            same,
            text_append_assoc t (String.◌∷◌ d "") name,
            cons-append d "" name,
            nil-append name,
          )
          (joined_by_separator t name d slash v)
    | inr i ↦
        rw
          (
            is_absolute_of_no_separator name v.no_slash,
            e,
            i,
            cons-append (char b'/' tt) "" name,
            nil-append name,
          )
          (joined_to_open root name (char b'/' tt) refl e v)
  ]
]
