-- ===== src/Sql/Literal.antt =====
-- `sql_quote` against a reader of PostgreSQL string literals, for both readings of a backslash.
use mathlib.Core.List.{append_assoc, append-nil}
use sub2api_gate.Base.{
  ℕ, ◌≡◌, refl, sym, ◌∙◌, ap, Bool, true, false, ◌&&◌, not, Option, none, some, [], ◌∷◌, ◌++◌,
  arith, Text, codes, replace, if◌then◌else◌, nat_eqb, starts_with, is_empty, ◌+◌, ◌*◌, ◌<◌, ◌≢◌,
}
use sub2api_gate.Sql.{sql_quote, escape_literal, cut, value_text}

-- One more character of a literal that is being read.
abbrev pub push : ℕ → Option (Text × Text) → Option (Text × Text)
push c none = none
push c (some (t, rest)) = some (c ∷ t, rest)

-- Reads a string literal behind its opening quote: its value, and the text behind its closing
-- quote. With `escapes` a backslash begins an escape sequence, of which `\\` alone is accepted;
-- without it (`standard_conforming_strings = on`) a backslash stands for itself.
pub read_literal : Bool → Text → Option (Text × Text)
read_literal escapes [] = none
read_literal escapes (c ∷ []) = if nat_eqb c b'\'' then some ([], []) else none
read_literal escapes (c ∷ d ∷ t) = elim (nat_eqb c b'\'') [
  | true ↦ elim (nat_eqb d b'\'') [
    | true ↦ push c (read_literal escapes t)
    | false ↦ some ([], d ∷ t)
  ]
  | false ↦ elim (escapes && nat_eqb c b'\\') [
    | true ↦ elim (nat_eqb d b'\\') [ true ↦ push c (read_literal escapes t) | false ↦ none ]
    | false ↦ push c (read_literal escapes (d ∷ t))
  ]
]

-- A literal of a statement: its opening quote, and what `read_literal` makes of the rest.
unfoldable pub parse_literal : Bool → Text → Option (Text × Text)
unfolding read_literal
parse_literal escapes [] = none
parse_literal escapes (c ∷ t) = if nat_eqb c b'\'' then read_literal escapes t else none

-- What the database stores for a text: NUL is gone, and without escape sequences each backslash
-- is two.
unfoldable pub stored : Bool → Text → Text
stored true t = replace 0 [] t
stored false t = replace 0 [] (replace b'\\' (codes "\\\\") t)

pub replace-append : (c : ℕ) (w s t : Text) → replace c w (s ++ t) ≡ replace c w s ++ replace c w t
replace-append c w [] t = refl
replace-append c w (x ∷ s) t =
    rw (replace-append c w s t)
      (sym (append_assoc (if nat_eqb x c then w else x ∷ []) (replace c w s) (replace c w t)))

-- What `escape_literal` writes for one character.
escape_char : ℕ → Text
escape_char c =
    if nat_eqb c b'\\'
    then codes "\\\\"
    else if nat_eqb c b'\''
    then codes "''"
    else if nat_eqb c 0
    then []
    else c ∷ []

escape_char-eq :
    (c : ℕ)
    → replace 0 [] (replace b'\'' (codes "''") (if nat_eqb c b'\\' then codes "\\\\" else c ∷ []))
      ≡ escape_char c
unfolding escape_char
escape_char-eq c = ground arith

escape_literal-cons :
    (c : ℕ) (t : Text) → escape_literal (c ∷ t) ≡ escape_char c ++ escape_literal t
unfolding escape_literal
escape_literal-cons c t = simp replace-append (rw escape_char-eq)

-- The value that one character of the text has in the database.
stored_char : Bool → ℕ → Text
stored_char escapes c =
    if nat_eqb c 0 then [] else if not escapes && nat_eqb c b'\\' then codes "\\\\" else c ∷ []

stored-cons : (e : Bool) (c : ℕ) (t : Text) → stored e (c ∷ t) ≡ stored_char e c ++ stored e t
unfolding stored stored_char
stored-cons true c t = refl
stored-cons false c t = simp replace-append (ap (λ (h : Text). h ++ stored false t) (ground arith))

-- The characters of a literal, then its end.
abbrev closes : Text → Text
closes rest = b'\'' ∷ rest

read_literal-end :
    (e : Bool) (rest : Text)
    → starts_with (codes "'") rest ≡ false
    → read_literal e (closes rest) ≡ some ([], rest)
unfolding read_literal
read_literal-end e [] h = refl
read_literal-end e (d ∷ rest) h = ground arith

abbrev prepend : Text → Option (Text × Text) → Option (Text × Text)
prepend [] o = o
prepend (c ∷ w) o = push c (prepend w o)

-- Reading over what is written for one character, where something stands behind it.
read_literal-char :
    (e : Bool) (c : ℕ) (w : Text)
    → is_empty w ≡ false
    → read_literal e (escape_char c ++ w) ≡ prepend (stored_char e c) (read_literal e w)
unfolding read_literal escape_char stored_char
read_literal-char e c [] h = cc
read_literal-char true c (d ∷ t) h = ground arith
read_literal-char false c (d ∷ t) h = ground arith

is_empty-closes : (t rest : Text) → is_empty (t ++ closes rest) ≡ false
is_empty-closes [] rest = refl
is_empty-closes (c ∷ t) rest = refl

prepend-append :
    (w u : Text) (o : Option (Text × Text)) → prepend (w ++ u) o ≡ prepend w (prepend u o)
prepend-append [] u o = refl
prepend-append (c ∷ w) u o = rw (prepend-append w u o)

read_literal-escape :
    (e : Bool) (t rest : Text)
    → starts_with (codes "'") rest ≡ false
    → read_literal e (escape_literal t ++ closes rest) ≡ prepend (stored e t) (some ([], rest))
unfolding escape_literal stored
read_literal-escape true [] rest h = read_literal-end true rest h
read_literal-escape false [] rest h = read_literal-end false rest h
read_literal-escape e (c ∷ t) rest h = rw (
  escape_literal-cons c t,
  append_assoc (escape_char c),
  read_literal-char e c _ (is_empty-closes (escape_literal t) rest),
  read_literal-escape e t rest h,
  stored-cons e c t,
  prepend-append,
)

prepend-some : (t rest : Text) → prepend t (some ([], rest)) ≡ some (t, rest)
prepend-some [] rest = refl
prepend-some (c ∷ t) rest = rw (prepend-some t rest)

-- Whatever the value is, a statement that continues behind `sql_quote` is read as exactly one literal
-- and the continuation, in either setting of `standard_conforming_strings`; the continuation may
-- not begin with a quote. What the literal stands for is the value, cut to `max_length`, less its
-- NUL characters, and with each backslash doubled where the setting is on (`escapes` is false).
pub parse_literal-sql_quote :
    (escapes : Bool) (value : Option Text) (max_length : Option ℕ) (rest : Text)
    → starts_with (codes "'") rest ≡ false
    → parse_literal escapes (sql_quote value max_length ++ rest)
      ≡ some (stored escapes (cut max_length (value_text value)), rest)
unfolding parse_literal sql_quote
parse_literal-sql_quote e v n rest h =
    rw append_assoc (read_literal-escape e (cut n (value_text v)) rest h ∙ prepend-some _ rest)

unfoldable pub count_backslash : Text → ℕ
count_backslash [] = 0
count_backslash (c ∷ t) = (if nat_eqb c b'\\' then 1 else 0) + count_backslash t

count_backslash-append :
    (s t : Text) → count_backslash (s ++ t) ≡ count_backslash s + count_backslash t
unfolding count_backslash
count_backslash-append [] t = omega arith
count_backslash-append (c ∷ s) t = omega (arith, count_backslash-append s t)

count_backslash-stored_char :
    (c : ℕ) → count_backslash (stored_char false c) ≡ 2 * count_backslash (c ∷ [])
unfolding count_backslash stored_char
count_backslash-stored_char c = ground arith

count_backslash-cons :
    (c : ℕ) (t : Text) → count_backslash (c ∷ t) ≡ count_backslash (c ∷ []) + count_backslash t
count_backslash-cons c t = count_backslash-append (c ∷ []) t

count_backslash-stored : (t : Text) → count_backslash (stored false t) ≡ 2 * count_backslash t
unfolding stored
count_backslash-stored [] = unfold count_backslash in refl
count_backslash-stored (c ∷ t) = rw (stored-cons false c t) (
    omega (
      arith,
      count_backslash-append (stored_char false c) (stored false t),
      count_backslash-stored_char c,
      count_backslash-stored t,
      count_backslash-cons c t,
    ))

stored-ne : (t : Text) → 0 < count_backslash t → stored false t ≢ t
stored-ne t h e = omega (arith, count_backslash-stored t, ap count_backslash e)

-- Under `standard_conforming_strings = on`, PostgreSQL's default, no value that holds a backslash
-- is read back as it was.
pub backslash_is_not_kept :
    (t : Text)
    → 0 < count_backslash t
    → parse_literal false (sql_quote (some t) none) ≢ some (t, [])
unfolding sql_quote
backslash_is_not_kept t h e = stored-ne t h (cc (e, whole))
  where
    whole : parse_literal false (sql_quote (some t) none) ≡ some (stored false t, [])
    whole =
        rw (← append-nil (sql_quote (some t) none))
          (parse_literal-sql_quote false (some t) none [] refl)
