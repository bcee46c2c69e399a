-- ===== src/Text/FileName.antt =====
-- What the program uses of Rust's `Path::file_name`, `file_stem`, `extension` and `parent` on Unix.
use vldb_lancedb.Text.FilePath.{Component, normal, components, split_from, is_absolute}
use vldb_lancedb.Text.{is_empty}
use vldb_lancedb.Prelude.{
  Bool, List, String, Option, none, some, ◌∷◌, [], if◌then◌else◌, ◌==◌, code, ◌=ₛ◌, ◌&&◌, ◌||◌,
  is_nil, ◌<>◌,
}

-- The name of the last component, if it is a plain one
unfoldable pub last_name : List Component → Option String
last_name [] = none
last_name (normal part ∷ []) = some part
last_name (component ∷ []) = none
last_name (component ∷ (next ∷ rest)) = last_name (next ∷ rest)

unfoldable pub file_name : String → Option String
unfolding last_name
file_name path = last_name (components path)

-- A text around its last dot
unfoldable pub rsplit_at_dot : String → Option (String × String)
rsplit_at_dot String.[] = none
rsplit_at_dot (String.◌∷◌ c s) = elim (rsplit_at_dot s) [
  | some (before, after) ↦ some (String.◌∷◌ c before, after)
  | none ↦ if code c == b'.' then some ("", s) else none
]

-- A name that begins with its only dot is all stem.
unfoldable pub stem_of : String → Option (String × String) → String
stem_of name none = name
stem_of name (some (before, after)) = if is_empty before then name else before

unfoldable pub extension_of : Option (String × String) → Option String
extension_of none = none
extension_of (some (before, after)) = if is_empty before then none else some after

unfoldable pub file_stem : String → Option String
unfolding file_name stem_of rsplit_at_dot
file_stem path = elim (file_name path) [
  | none ↦ none
  | some name ↦ some (stem_of name (rsplit_at_dot name))
]

unfoldable pub extension : String → Option String
unfolding file_name extension_of rsplit_at_dot
extension path = elim (file_name path) [
  | none ↦ none
  | some name ↦ extension_of (rsplit_at_dot name)
]

-- Without the parts at the end that are empty or "."
unfoldable pub trim_parts : List String → List String
trim_parts [] = []
trim_parts (part ∷ parts) =
    let rest = trim_parts parts in
    if is_nil rest && (is_empty part || part =ₛ ".") then [] else part ∷ rest

abbrev pub but_last : List String → List String
but_last [] = []
but_last (part ∷ []) = []
but_last (part ∷ (next ∷ parts)) = part ∷ but_last (next ∷ parts)

-- The parts with a separator before each
unfoldable pub with_separators : List String → String
with_separators [] = ""
with_separators (part ∷ parts) = ("/" <> part) <> with_separators parts

-- `Path::parent` over the parts of a path; the first part of an absolute path is empty.
unfoldable pub parent_of : Bool → List String → Option String
unfolding trim_parts with_separators
parent_of absolute [] = none
parent_of absolute (first ∷ parts) =
    let later = trim_parts parts in
    let kept = trim_parts (but_last later) in
    if absolute
    then (if is_nil later then none else some (if is_nil kept then "/" else with_separators kept))
    else if is_nil later
    then (if is_empty first then none else some "")
    else some (first <> with_separators kept)

unfoldable pub parent : String → Option String
unfolding parent_of
parent path = parent_of (is_absolute path) (split_from "" path)
