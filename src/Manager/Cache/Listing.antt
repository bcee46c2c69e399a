-- ===== src/Manager/Cache/Listing.antt =====
-- src/manager.rs: `cached_database_keys`. Texts are ordered by their characters, which is the order of the
-- bytes of UTF-8.
use vldb_lancedb.Manager.Cache.{DatabaseManager}
use vldb_lancedb.Prelude.{
  List, String, Bool, ◌∷◌, ℕ, ◌≡◌, [], ◌∙◌, false, true, Bool-cases, if◌then◌else◌, inl, ltb, ap,
  ◌=ₛ◌, arith, code, ◌+◌, inr, ◌==◌, refl,
}
use vldb_lancedb.Prelude.Dict.{Dict}
use Prim.Native.String.{String}

unfoldable pub leb_text : String → String → Bool
leb_text String.[] t = true
leb_text (String.◌∷◌ c s) String.[] = false
leb_text (String.◌∷◌ c s) (String.◌∷◌ d t) =
    let rest = leb_text s t in
    if ltb (code c) (code d) then true else if code c == code d then rest else false

unfoldable pub insert_key : String → List String → List String
insert_key key [] = key ∷ []
insert_key key (first ∷ keys) =
    let rest = insert_key key keys in
    if leb_text key first then key ∷ (first ∷ keys) else first ∷ rest

unfoldable pub sort_keys : List String → List String
unfolding insert_key
sort_keys [] = []
sort_keys (key ∷ keys) = insert_key key (sort_keys keys)

unfoldable pub keys_of : {V : Type 0} → Dict V → List String
keys_of [] = []
keys_of ((key, value) ∷ entries) = key ∷ keys_of entries

unfoldable pub cached_database_keys :
    {Connection : Type 0} → DatabaseManager Connection → List String
unfolding sort_keys keys_of
cached_database_keys m = sort_keys (keys_of m.connections)

abbrev pub IsSorted : List String → Type 0
IsSorted [] = Unit
IsSorted (key ∷ []) = Unit
IsSorted (key ∷ (next ∷ keys)) = (leb_text key next ≡ true) × IsSorted (next ∷ keys)

leb_text_total : (s t : String) → leb_text s t ≡ false → leb_text t s ≡ true
unfolding leb_text
leb_text_total String.[] t h = cc
leb_text_total (String.◌∷◌ c s) String.[] h = refl
leb_text_total (String.◌∷◌ c s) (String.◌∷◌ d t) h = ground (arith, leb_text_total s t, h)

IsSorted-insert_after :
    (first key : String) (keys : List String)
    → leb_text first key ≡ true
    → IsSorted (first ∷ keys)
    → IsSorted (first ∷ insert_key key keys)
unfolding insert_key
IsSorted-insert_after first key [] le h = (le, tt)
IsSorted-insert_after first key (next ∷ keys) le h = elim (Bool-cases (leb_text key next)) [
  | inl e ↦ rw e (le, (e, h.1))
  | inr e ↦ rw e (h.0, IsSorted-insert_after next key keys (leb_text_total key next e) h.1)
]

IsSorted-insert_key :
    (key : String) (keys : List String) → IsSorted keys → IsSorted (insert_key key keys)
unfolding insert_key
IsSorted-insert_key key [] h = tt
IsSorted-insert_key key (first ∷ keys) h = elim (Bool-cases (leb_text key first)) [
  | inl e ↦ rw e (e, h)
  | inr e ↦ rw e (IsSorted-insert_after first key keys (leb_text_total key first e) h)
]

pub IsSorted-sort_keys : (keys : List String) → IsSorted (sort_keys keys)
unfolding sort_keys
IsSorted-sort_keys [] = tt
IsSorted-sort_keys (key ∷ keys) = IsSorted-insert_key key (sort_keys keys) (IsSorted-sort_keys keys)

-- How often a text is listed
unfoldable pub times_listed : String → List String → ℕ
times_listed key [] = 0
times_listed key (first ∷ keys) = (if first =ₛ key then 1 else 0) + times_listed key keys

times_listed-insert_key :
    (key other : String) (keys : List String)
    → times_listed key (insert_key other keys)
      ≡ (if other =ₛ key then 1 else 0) + times_listed key keys
unfolding times_listed insert_key
times_listed-insert_key key other [] = refl
times_listed-insert_key key other (first ∷ keys) = elim (Bool-cases (leb_text other first)) [
  | inl e ↦ rw e refl
  | inr e ↦ rw e (omega (arith, times_listed-insert_key key other keys))
]

pub times_listed-sort_keys :
    (key : String) (keys : List String) → times_listed key (sort_keys keys) ≡ times_listed key keys
unfolding sort_keys times_listed
times_listed-sort_keys key [] = refl
times_listed-sort_keys key (first ∷ keys) =
    times_listed-insert_key key first (sort_keys keys)
    ∙ ap (λ n. (if first =ₛ key then 1 else 0) + n) (times_listed-sort_keys key keys)
