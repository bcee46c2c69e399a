-- ===== src/Service/Preview.antt =====
-- src/service.rs: `preview_text`, which makes a text fit for one line of a log.
use Prim.Native.Char.{char}
use text.Mathlib.TextLemmas.{cons-append, nil-append}
use vldb_lancedb.Text.{is_whitespace, is_empty}
use vldb_lancedb.Prelude.{
  ℕ, List, String, ◌≡◌, ◌≤◌, ◌∷◌, All, suc, if◌then◌else◌, [], ◌<>◌, false, zero, arith, refl,
  Bool-cases, max, true, ◌+◌, code, ap, inl, inr,
}

-- The words of `split_whitespace`; the word that is being read comes first.
abbrev push_word : String → List String → List String
push_word word words = if is_empty word then words else word ∷ words

unfoldable pub words_from : String → String → List String
words_from word String.[] = push_word word []
words_from word (String.◌∷◌ c s) =
    let closed = push_word word (words_from "" s) in
    let longer = words_from (word <> String.◌∷◌ c "") s in
    if is_whitespace c then closed else longer

-- `join(" ")`
unfoldable pub join_words : List String → String
join_words [] = ""
join_words (word ∷ []) = word
join_words (word ∷ (next ∷ words)) = word <> (" " <> join_words (next ∷ words))

-- The loop over the characters, with the number of those that may still be pushed
unfoldable pub cut_at : ℕ → String → String
cut_at left String.[] = ""
cut_at zero (String.◌∷◌ c s) = "..."
cut_at (suc left) (String.◌∷◌ c s) = String.◌∷◌ c (cut_at left s)

unfoldable pub preview_text : String → ℕ → String
unfolding words_from join_words cut_at
preview_text value max_chars =
    let normalized = join_words (words_from "" value) in
    if is_empty normalized then "<empty>" else cut_at max_chars normalized

-- The number of characters
abbrev pub count : String → ℕ
count String.[] = 0
count (String.◌∷◌ c s) = suc (count s)

cut_at-count : (n : ℕ) (s : String) → count (cut_at n s) ≤ n + 3
unfolding cut_at
cut_at-count n String.[] = omega arith
cut_at-count zero (String.◌∷◌ c s) = omega arith
cut_at-count (suc n) (String.◌∷◌ c s) = omega (arith, cut_at-count n s)

cut_at_short : (n : ℕ) (s : String) → count s ≤ n → cut_at n s ≡ s
unfolding cut_at
cut_at_short n String.[] h = refl
cut_at_short zero (String.◌∷◌ c s) h = absurd (omega arith)
cut_at_short (suc n) (String.◌∷◌ c s) h = ap (λ t. String.◌∷◌ c t) (cut_at_short n s (omega arith))

preview_text_test :
    preview_text "table = demo\nfilter = id   > 1" 160 ≡ "table = demo filter = id > 1"
unfolding preview_text is_whitespace
preview_text_test = refl

blank_preview_test : preview_text " \n\t " 64 ≡ "<empty>"
unfolding preview_text is_whitespace
blank_preview_test = refl

-- Every blank of the text is a plain space, so that it has no line break.
abbrev pub IsLine : String → Type 0
IsLine String.[] = Unit
IsLine (String.◌∷◌ c s) = (is_whitespace c ≡ true → code c ≡ 0x20) × IsLine s

-- The text has no blank.
abbrev IsSolid : String → Type 0
IsSolid String.[] = Unit
IsSolid (String.◌∷◌ c s) = (is_whitespace c ≡ false) × IsSolid s

IsSolid-append : (s t : String) → IsSolid s → IsSolid t → IsSolid (s <> t)
IsSolid-append String.[] t hs ht = rw (nil-append t) ht
IsSolid-append (String.◌∷◌ c s) t hs ht = rw (cons-append c s t) (hs.0, IsSolid-append s t hs.1 ht)

IsLine-append : (s t : String) → IsSolid s → IsLine t → IsLine (s <> t)
IsLine-append String.[] t hs ht = rw (nil-append t) ht
IsLine-append (String.◌∷◌ c s) t hs ht =
    rw (cons-append c s t) (λ h. absurd (cc (h, hs.0)), IsLine-append s t hs.1 ht)

IsLine-of_IsSolid : (s : String) → IsSolid s → IsLine s
IsLine-of_IsSolid String.[] h = tt
IsLine-of_IsSolid (String.◌∷◌ c s) h = (λ e. absurd (cc (e, h.0)), IsLine-of_IsSolid s h.1)

push_word-IsSolid :
    (word : String) (words : List String)
    → IsSolid word
    → All IsSolid words
    → All IsSolid (push_word word words)
push_word-IsSolid String.[] words h hs = hs
push_word-IsSolid (String.◌∷◌ c s) words h hs = (h, hs)

words_from-IsSolid : (word s : String) → IsSolid word → All IsSolid (words_from word s)
unfolding words_from
words_from-IsSolid word String.[] h = push_word-IsSolid word [] h tt
words_from-IsSolid word (String.◌∷◌ c s) h = elim (Bool-cases (is_whitespace c)) [
  | inl e ↦ rw e (push_word-IsSolid word (words_from "" s) h (words_from-IsSolid "" s tt))
  | inr e ↦ rw e (
      words_from-IsSolid (word <> String.◌∷◌ c "") s
        (IsSolid-append word (String.◌∷◌ c "") h (e, tt)))
]

join_words-IsLine : (words : List String) → All IsSolid words → IsLine (join_words words)
unfolding join_words
join_words-IsLine [] h = tt
join_words-IsLine (word ∷ []) h = IsLine-of_IsSolid word h.0
join_words-IsLine (word ∷ (next ∷ words)) h =
    let rest = join_words (next ∷ words) in
    IsLine-append word (" " <> rest) h.0 (
      rw (cons-append (char 0x20 tt) "" rest, nil-append rest)
        (λ e. refl, join_words-IsLine (next ∷ words) h.1))

cut_at-IsLine : (n : ℕ) (s : String) → IsLine s → IsLine (cut_at n s)
unfolding cut_at is_whitespace
cut_at-IsLine n String.[] h = tt
cut_at-IsLine zero (String.◌∷◌ c s) h =
    (λ e. absurd (cc e), (λ e. absurd (cc e), (λ e. absurd (cc e), tt)))
cut_at-IsLine (suc n) (String.◌∷◌ c s) h = (h.0, cut_at-IsLine n s h.1)

IsLine-of_blank : IsLine "<empty>"
unfolding is_whitespace
IsLine-of_blank =
    IsLine-of_IsSolid "<empty>" (refl, (refl, (refl, (refl, (refl, (refl, (refl, tt)))))))

-- Whatever text is previewed, the preview has no line break, nor any other blank than plain spaces, and
-- at most three characters more than the maximum, or the seven of "<empty>".
pub preview_text-IsLine :
    (value : String) (n : ℕ)
    → IsLine (preview_text value n) × (count (preview_text value n) ≤ max (n + 3) 7)
unfolding preview_text
preview_text-IsLine value n =
    let line = join_words-IsLine (words_from "" value) (words_from-IsSolid "" value tt) in
    elim (Bool-cases (is_empty (join_words (words_from "" value)))) [
      | inl e ↦ rw e (IsLine-of_blank, omega arith)
      | inr e ↦ rw e (
        cut_at-IsLine n (join_words (words_from "" value)) line,
        omega (arith, cut_at-count n (join_words (words_from "" value))),
      )
    ]
