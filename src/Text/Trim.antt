-- ===== src/Text/Trim.antt =====
-- The laws of `str::trim`: what it leaves does not begin in a blank, it is idempotent, and it is
-- empty exactly on blank texts.
use vldb_lancedb.Prelude.{
  Char, String, ◌≡◌, refl, ap, true, false, ◌↔◌, arith, Bool-cases, inl, inr, ◌∙◌,
}
use vldb_lancedb.Text.{is_whitespace, is_empty, trim_start, cons_unless_blank, trim_end, trim}

-- Every character is blank.
abbrev pub IsBlank : String → Type 0
IsBlank String.[] = Unit
IsBlank (String.◌∷◌ c s) = (is_whitespace c ≡ true) × IsBlank s

-- The first character, if there is one, is not blank.
abbrev pub HasSolidStart : String → Type 0
HasSolidStart String.[] = Unit
HasSolidStart (String.◌∷◌ c s) = is_whitespace c ≡ false

trim_start-HasSolidStart : (s : String) → HasSolidStart (trim_start s)
unfolding trim_start
trim_start-HasSolidStart String.[] = tt
trim_start-HasSolidStart (String.◌∷◌ c s) = elim (Bool-cases (is_whitespace c)) [
  | inl e ↦ rw e (trim_start-HasSolidStart s)
  | inr e ↦ rw e e
]

trim_start_of_HasSolidStart : (s : String) → HasSolidStart s → trim_start s ≡ s
unfolding trim_start
trim_start_of_HasSolidStart String.[] h = refl
trim_start_of_HasSolidStart (String.◌∷◌ c s) h = rw h

cons_unless_blank-HasSolidStart :
    (c : Char) (s : String) → is_whitespace c ≡ false → HasSolidStart (cons_unless_blank c s)
unfolding cons_unless_blank
cons_unless_blank-HasSolidStart c String.[] h = rw h h
cons_unless_blank-HasSolidStart c (String.◌∷◌ d s) h = h

trim_end-HasSolidStart : (s : String) → HasSolidStart s → HasSolidStart (trim_end s)
unfolding trim_end
trim_end-HasSolidStart String.[] h = tt
trim_end-HasSolidStart (String.◌∷◌ c s) h = cons_unless_blank-HasSolidStart c (trim_end s) h

trim_end-cons_unless_blank :
    (c : Char) (s : String)
    → trim_end s ≡ s
    → trim_end (cons_unless_blank c s) ≡ cons_unless_blank c s
unfolding trim_end cons_unless_blank
trim_end-cons_unless_blank c String.[] h = elim (Bool-cases (is_whitespace c)) [
  | inl e ↦ rw e
  | inr e ↦ rw (e, e)
]
trim_end-cons_unless_blank c (String.◌∷◌ d s) h = rw h

trim_end-trim_end : (s : String) → trim_end (trim_end s) ≡ trim_end s
unfolding trim_end
trim_end-trim_end String.[] = refl
trim_end-trim_end (String.◌∷◌ c s) = trim_end-cons_unless_blank c (trim_end s) (trim_end-trim_end s)

pub trim-HasSolidStart : (s : String) → HasSolidStart (trim s)
unfolding trim
trim-HasSolidStart s = trim_end-HasSolidStart (trim_start s) (trim_start-HasSolidStart s)

pub trim_idem : (s : String) → trim (trim s) ≡ trim s
unfolding trim
trim_idem s =
    ap trim_end (trim_start_of_HasSolidStart (trim s) (trim-HasSolidStart s))
    ∙ trim_end-trim_end (trim_start s)

pub trim_of_IsBlank : (s : String) → IsBlank s → trim s ≡ ""
unfolding trim trim_start
trim_of_IsBlank String.[] h = unfold trim_end in refl
trim_of_IsBlank (String.◌∷◌ c s) h = rw h.0 (trim_of_IsBlank s h.1)

cons_unless_blank-eq-nil :
    (c : Char) (s : String)
    → is_empty (cons_unless_blank c s) ≡ true
    → (is_whitespace c ≡ true) × (is_empty s ≡ true)
unfolding cons_unless_blank
cons_unless_blank-eq-nil c String.[] h = ground arith
cons_unless_blank-eq-nil c (String.◌∷◌ d s) h = cc

IsBlank-of_trim_end : (s : String) → is_empty (trim_end s) ≡ true → IsBlank s
unfolding trim_end
IsBlank-of_trim_end String.[] h = tt
IsBlank-of_trim_end (String.◌∷◌ c s) h =
    let (blank, rest) = cons_unless_blank-eq-nil c (trim_end s) h in
    (blank, IsBlank-of_trim_end s rest)

IsBlank-of_trim_start : (s : String) → IsBlank (trim_start s) → IsBlank s
unfolding trim_start
IsBlank-of_trim_start String.[] h = tt
IsBlank-of_trim_start (String.◌∷◌ c s) h = elim (Bool-cases (is_whitespace c)) [
  | inl e ↦ (e, IsBlank-of_trim_start s (rw e at h))
  | inr e ↦ rw e at h
]

-- The guard `s.trim().is_empty()` holds exactly on the blank texts.
pub is_empty-trim_iff : (s : String) → (is_empty (trim s) ≡ true) ↔ IsBlank s
unfolding trim
is_empty-trim_iff s = (
  λ h. IsBlank-of_trim_start s (IsBlank-of_trim_end (trim_start s) h),
  λ h. rw (trim_of_IsBlank s h),
)

trim_test : trim " \n demo x\t " ≡ "demo x"
unfolding trim trim_start trim_end cons_unless_blank is_whitespace
trim_test = refl
