-- ===== src/Text/FilePath.antt =====
-- What the program uses of Rust's `Path` and `PathBuf` on Unix, where a path is a text with `/` between
-- its parts.
use vldb_lancedb.Text.{is_empty}
use vldb_lancedb.Prelude.{
  Bool, List, String, false, ◌∷◌, if◌then◌else◌, [], ◌++◌, true, ◌=ₛ◌, code, ◌||◌, ◌<>◌, ◌==◌,
}

pub data Component : Type 0 where
  root_dir cur_dir parent_dir : Component
  normal : String → Component

-- The parts between the separators, the part that is being read first
unfoldable pub split_from : String → String → List String
split_from part String.[] = part ∷ []
split_from part (String.◌∷◌ c s) =
    let closed = part ∷ split_from "" s in
    let longer = split_from (part <> String.◌∷◌ c "") s in if code c == b'/' then closed else longer

-- A part that is empty or "." is skipped, but for a "." at the very front.
unfoldable pub part_components : Bool → String → List Component
part_components front part =
    if part =ₛ ""
    then []
    else if part =ₛ "."
    then (if front then cur_dir ∷ [] else [])
    else if part =ₛ ".."
    then parent_dir ∷ []
    else normal part ∷ []

unfoldable pub later_components : List String → List Component
unfolding part_components
later_components [] = []
later_components (part ∷ parts) = part_components false part ++ later_components parts

unfoldable pub is_absolute : String → Bool
is_absolute String.[] = false
is_absolute (String.◌∷◌ c s) = code c == b'/'

-- `Path::components`
unfoldable pub components_of : Bool → List String → List Component
unfolding later_components
components_of absolute [] = []
components_of absolute (part ∷ parts) =
    if absolute
    then root_dir ∷ later_components parts
    else part_components true part ++ later_components parts

unfoldable pub components : String → List Component
unfolding components_of split_from is_absolute
components path = components_of (is_absolute path) (split_from "" path)

unfoldable pub ends_with_separator : String → Bool
ends_with_separator String.[] = false
ends_with_separator (String.◌∷◌ c String.[]) = code c == b'/'
ends_with_separator (String.◌∷◌ c (String.◌∷◌ d s)) = ends_with_separator (String.◌∷◌ d s)

-- `PathBuf::join`: an absolute path replaces the base.
unfoldable pub join : String → String → String
unfolding is_absolute ends_with_separator
join base path =
    if is_absolute path
    then path
    else if is_empty base || ends_with_separator base
    then base <> path
    else base <> ("/" <> path)
