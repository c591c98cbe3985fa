-- ===== src/Sql/Like.antt =====
-- `ilike_contains` against the LIKE patterns of PostgreSQL with `ESCAPE '!'`.
use mathlib.Core.Path.{fun_ext}
use mathlib.Core.List.{append_assoc}
use sub2api_gate.Base.{
  ℕ, ◌≡◌, refl, ap, Bool, true, false, ◌&&◌, ◌||◌, Option, none, some, List, [], ◌∷◌, ◌++◌, map,
  arith, Text, codes, replace, take, if◌then◌else◌, nat_eqb, is_empty, member, nat_eq, zero, suc,
  ◌∙◌,
}
use sub2api_gate.Sql.{escape_like, like_pattern, ilike_contains}
use sub2api_gate.Sql.Literal.{replace-append, parse_literal, stored, parse_literal-sql_quote}

-- The parts of a pattern: `%`, `_`, and a character that stands for itself.
pub data Part : Type 0 where
  any_run any_one : Part
  exactly : ℕ → Part

abbrev prefix_part : Part → Option (List Part) → Option (List Part)
prefix_part p none = none
prefix_part p (some ps) = some (p ∷ ps)

-- The parts of a pattern text; an escape character at its end is an error.
pub parts : Text → Option (List Part)
parts [] = some []
parts (c ∷ []) =
    if nat_eqb c b'!'
    then none
    else if nat_eqb c b'%'
    then some (any_run ∷ [])
    else if nat_eqb c b'_'
    then some (any_one ∷ [])
    else some (exactly c ∷ [])
parts (c ∷ d ∷ t) = elim (nat_eqb c b'!') [
  | true ↦ prefix_part (exactly d) (parts t)
  | false ↦
      prefix_part
        (if nat_eqb c b'%' then any_run else if nat_eqb c b'_' then any_one else exactly c)
        (parts (d ∷ t))
]

-- Some suffix of a text, the whole text and the empty one included, passes a test.
pub some_suffix : (Text → Bool) → Text → Bool
some_suffix test [] = test []
some_suffix test (c ∷ s) = test (c ∷ s) || some_suffix test s

-- Two characters are one to `ILIKE`, by the case mapping of the database.
module _ (same : ℕ → ℕ → Bool) where
  pub matches_parts : List Part → Text → Bool
  unfolding some_suffix
  matches_parts [] s = is_empty s
  matches_parts (any_run ∷ ps) s = some_suffix (matches_parts ps) s
  matches_parts (any_one ∷ ps) [] = false
  matches_parts (any_one ∷ ps) (c ∷ s) = matches_parts ps s
  matches_parts (exactly p ∷ ps) [] = false
  matches_parts (exactly p ∷ ps) (c ∷ s) = same p c && matches_parts ps s

  -- `none` where the pattern is an error.
  unfoldable pub ilike : Text → Text → Option Bool
  unfolding parts matches_parts
  ilike pattern s = elim (parts pattern) [ none ↦ none | some ps ↦ some (matches_parts ps s) ]

  -- `s` begins with `t`, up to case.
  pub begins_with : Text → Text → Bool
  begins_with [] s = true
  begins_with (p ∷ t) [] = false
  begins_with (p ∷ t) (c ∷ s) = same p c && begins_with t s

  -- `t` stands somewhere in `s`, up to case.
  unfoldable pub contains_text : Text → Text → Bool
  unfolding begins_with some_suffix
  contains_text t s = some_suffix (begins_with t) s

like_char : ℕ → Text
like_char c =
    if nat_eqb c b'!'
    then codes "!!"
    else if nat_eqb c b'%'
    then codes "!%"
    else if nat_eqb c b'_'
    then codes "!_"
    else c ∷ []

like_char-eq :
    (c : ℕ)
    → replace b'_'
        (codes "!_")
        (replace b'%' (codes "!%") (if nat_eqb c b'!' then codes "!!" else c ∷ []))
      ≡ like_char c
unfolding like_char
like_char-eq c = ground arith

escape_like-cons : (c : ℕ) (t : Text) → escape_like (c ∷ t) ≡ like_char c ++ escape_like t
unfolding escape_like
escape_like-cons c t = simp replace-append (rw like_char-eq)

-- A character behind which something stands is read back as itself.
parts-like_char :
    (c : ℕ) (w : Text)
    → is_empty w ≡ false
    → parts (like_char c ++ w) ≡ prefix_part (exactly c) (parts w)
unfolding parts like_char
parts-like_char c [] h = cc
parts-like_char c (d ∷ t) h = ground arith

is_empty-percent : (t : Text) → is_empty (t ++ codes "%") ≡ false
is_empty-percent [] = refl
is_empty-percent (c ∷ t) = refl

abbrev text_then_run : Text → List Part
text_then_run t = map exactly t ++ any_run ∷ []

parts-escape_like : (t : Text) → parts (escape_like t ++ codes "%") ≡ some (text_then_run t)
unfolding escape_like
parts-escape_like [] = unfold parts in refl
parts-escape_like (c ∷ t) = rw (
  escape_like-cons c t,
  append_assoc (like_char c),
  parts-like_char c _ (is_empty-percent (escape_like t)),
  parts-escape_like t,
)

parts-percent : (w : Text) → is_empty w ≡ false → parts (b'%' ∷ w) ≡ prefix_part any_run (parts w)
unfolding parts
parts-percent [] h = cc
parts-percent (d ∷ t) h = refl

parts-like_pattern :
    (t : Text) (n : ℕ) → parts (like_pattern t n) ≡ some (any_run ∷ text_then_run (take n t))
unfolding like_pattern
parts-like_pattern t n =
    rw (parts-percent _ (is_empty-percent (escape_like (take n t))), parts-escape_like (take n t))

-- A character that is absent is absent from what the escaping makes of a text, and from its parts.
member-append :
    (c : ℕ) (s t : Text) → member c s ≡ false → member c t ≡ false → member c (s ++ t) ≡ false
member-append c [] t h k = k
member-append c (x ∷ s) t h k = ground (arith, member-append c s t)

member-take : (c n : ℕ) (t : Text) → member c t ≡ false → member c (take n t) ≡ false
member-take c zero t h = refl
member-take c (suc n) [] h = refl
member-take c (suc n) (x ∷ t) h = ground (arith, member-take c n t)

member-escape_like :
    (c : ℕ) (t : Text)
    → member c (codes "!%_") ≡ false
    → member c t ≡ false
    → member c (escape_like t) ≡ false
unfolding escape_like like_char
member-escape_like c [] h k = refl
member-escape_like c (x ∷ t) h k = rw (escape_like-cons x t) (
    member-append c (like_char x) (escape_like t) (ground arith)
      (member-escape_like c t h (ground arith)))

member-like_pattern :
    (c : ℕ) (t : Text) (n : ℕ)
    → member c (codes "!%_") ≡ false
    → member c t ≡ false
    → member c (like_pattern t n) ≡ false
unfolding like_pattern
member-like_pattern c t n h k = member-append c (codes "%") _ (ground arith) (
    member-append c (escape_like (take n t)) (codes "%")
      (member-escape_like c (take n t) h (member-take c n t k)) (ground arith))

replace_absent : (c : ℕ) (w t : Text) → member c t ≡ false → replace c w t ≡ t
replace_absent c w [] h = refl
replace_absent c w (x ∷ t) h = ground (arith, replace_absent c w t)

stored-like_pattern :
    (e : Bool) (t : Text) (n : ℕ)
    → member 0 t ≡ false
    → (e ≡ false → member b'\\' t ≡ false)
    → stored e (like_pattern t n) ≡ like_pattern t n
unfolding stored
stored-like_pattern true t n nul slash =
    replace_absent 0 [] (like_pattern t n) (member-like_pattern 0 t n refl nul)
stored-like_pattern false t n nul slash =
    rw
      (replace_absent b'\\' (codes "\\\\") (like_pattern t n)
        (member-like_pattern b'\\' t n refl (slash refl)))
      (replace_absent 0 [] (like_pattern t n) (member-like_pattern 0 t n refl nul))

module _ (same : ℕ → ℕ → Bool) where
  some_suffix-is_empty : (s : Text) → some_suffix (matches_parts same []) s ≡ true
  unfolding matches_parts
  some_suffix-is_empty [] = refl
  some_suffix-is_empty (c ∷ s) = some_suffix-is_empty s

  matches-text_then_run :
      (t s : Text) → matches_parts same (text_then_run t) s ≡ begins_with same t s
  unfolding matches_parts begins_with
  matches-text_then_run [] s = some_suffix-is_empty s
  matches-text_then_run (p ∷ t) [] = refl
  matches-text_then_run (p ∷ t) (c ∷ s) = rw (matches-text_then_run t s)

  ilike-like_pattern :
      (value : Text) (max_length : ℕ) (s : Text)
      → ilike same (like_pattern value max_length) s
        ≡ some (contains_text same (take max_length value) s)
  unfolding ilike contains_text
  ilike-like_pattern v n s =
      rw (parts-like_pattern v n, ilike)
        (ap (λ (f : Text → Bool). some (some_suffix f s))
          (fun_ext (matches-text_then_run (take n v))))

  -- The text of `ilike_contains` is read as one literal and ` ESCAPE '!'`, in either setting of
  -- `standard_conforming_strings`. The literal's value is a pattern that is never an error and that
  -- matches the texts that contain the value, cut to `max_length`, and no others: no character of
  -- the value acts as a wildcard. The value has no NUL character, and no backslash where the setting
  -- is on (`escapes` is false).
  pub ilike-ilike_contains :
      (escapes : Bool) (value : Text) (max_length : ℕ) (rest s : Text)
      → member 0 value ≡ false
      → (escapes ≡ false → member b'\\' value ≡ false)
      → (pattern : Text) × (parse_literal escapes (ilike_contains value max_length ++ rest)
          ≡ some (pattern, codes " ESCAPE '!'" ++ rest))
        × (ilike same pattern s ≡ some (contains_text same (take max_length value) s))
  unfolding ilike_contains
  ilike-ilike_contains e v n rest s nul slash = (
    like_pattern v n,
    rw append_assoc (
        parse_literal-sql_quote e (some (like_pattern v n)) none (codes " ESCAPE '!'" ++ rest) refl
        ∙ ap (λ (t : Text). some (t, codes " ESCAPE '!'" ++ rest))
            (stored-like_pattern e v n nul slash)),
    ilike-like_pattern v n s,
  )
