-- ===== src/Environment/RoundTrip.antt =====
-- Environments written as files, and as the records of `main`, are read back.
use mathlib.Core.List.{append-nil, append_assoc}
use sub2api_gate.Base.{
  ℕ, ◌≤◌, ◌≡◌, refl, ap, ◌∙◌, sym, Bool, true, false, not, ◌||◌, Bool-cases, inl, inr, List, [],
  ◌∷◌, ◌++◌, arith, text_eq, nat_eq, ◌==◌, Text, All, Distinct, Distinct-later, length,
  length-append, every, every-append, every_mono, member, ok, ◌>>=◌, is_upper, is_digit, split,
  split-append, strip_head, strip, is_visible_ascii, if◌then◌else◌, nat_eqb_iff,
}
use sub2api_gate.Environment.{
  Values, keys, is_key, is_value_char, is_file_byte, max_entries, max_line_characters, add_value,
  add_entry, add_line, add_lines, partition, is_skipped, parse_private_environment, decode,
  check_bytes, replace_crlf, emit_nul,
}
use sub2api_gate.Environment.Sound.{IsEntry, IsEnvironment, parse_private_environment-IsEnvironment}

-- A file for the values, one line for each.
abbrev pub render : Values → Text
render [] = []
render ((key, value) ∷ values) = (key ++ (b'=' ∷ value)) ++ (10 ∷ render values)

-- The same text with the other line ending.
abbrev pub with_crlf : Text → Text
with_crlf [] = []
with_crlf (c ∷ t) = if c == 10 then 13 ∷ 10 ∷ with_crlf t else c ∷ with_crlf t

abbrev avoids : ℕ → Text → Bool
avoids c t = every (λ x. not (x == c)) t

check_bytes_clean : (t : Text) → every is_file_byte t ≡ true → check_bytes false t ≡ ok tt
unfolding check_bytes
check_bytes_clean [] h = refl
check_bytes_clean (c ∷ t) h = elim (Bool-cases (c == 13)) [
  | inl return ↦ ground arith
  | inr other ↦ ground (arith, check_bytes_clean t)
]

replace_crlf_clean : (t : Text) → every is_file_byte t ≡ true → replace_crlf t ≡ t
unfolding replace_crlf
replace_crlf_clean [] h = refl
replace_crlf_clean (c ∷ t) h = ground (arith, replace_crlf_clean t)

decode_clean : (t : Text) → every is_file_byte t ≡ true → decode t ≡ ok t
unfolding decode
decode_clean t h = rw (check_bytes_clean t h, ◌>>=◌) (ap ok (replace_crlf_clean t h))

check_bytes-with_crlf :
    (t : Text) → every is_file_byte t ≡ true → check_bytes false (with_crlf t) ≡ ok tt
unfolding check_bytes
check_bytes-with_crlf [] h = refl
check_bytes-with_crlf (c ∷ t) h = elim (Bool-cases (c == 10)) [
  | inl newline ↦ rw newline (ground (arith, check_bytes-with_crlf t))
  | inr other ↦ elim (Bool-cases (c == 13)) [
    | inl return ↦ ground arith
    | inr visible ↦ rw (other, visible) (ground (arith, check_bytes-with_crlf t))
  ]
]

replace_crlf-with_crlf : (t : Text) → every is_file_byte t ≡ true → replace_crlf (with_crlf t) ≡ t
unfolding replace_crlf
replace_crlf-with_crlf [] h = refl
replace_crlf-with_crlf (c ∷ t) h = elim (Bool-cases (c == 10)) [
  | inl newline ↦ rw newline (ground (arith, replace_crlf-with_crlf t, nat_eqb_iff c 10))
  | inr other ↦ rw other (ground (arith, replace_crlf-with_crlf t))
]

decode-with_crlf : (t : Text) → every is_file_byte t ≡ true → decode (with_crlf t) ≡ ok t
unfolding decode
decode-with_crlf t h = rw (check_bytes-with_crlf t h, ◌>>=◌) (ap ok (replace_crlf-with_crlf t h))

-- A file whose lines end in carriage return and newline is read as the file whose lines end in
-- newline alone, for any text of the bytes that a file may hold.
pub parse_private_environment-with_crlf :
    (t : Text)
    → every is_file_byte t ≡ true
    → parse_private_environment (with_crlf t) ≡ parse_private_environment t
unfolding parse_private_environment
parse_private_environment-with_crlf t h =
    ap (λ r. r >>= λ source. add_lines (split 10 source) [])
      (decode-with_crlf t h ∙ sym (decode_clean t h))

key_not_skipped :
    (key value : Text) → is_key key ≡ true → is_skipped (key ++ (b'=' ∷ value)) ≡ false
unfolding is_key is_skipped
key_not_skipped [] value h = cc
key_not_skipped (c ∷ key) value h =
    let (left, (rest, both)) =
      strip_head c (key ++ (b'=' ∷ value)) (is_visible_ascii c (ground arith) (ground arith)) in
    rw (left, both) (ground arith)

partition-append :
    (c : ℕ) (before behind : Text)
    → avoids c before ≡ true
    → partition c (before ++ (c ∷ behind)) ≡ (before, true, behind)
unfolding partition
partition-append c [] behind h = rw ((nat_eqb_iff c c).1 refl) refl
partition-append c (x ∷ before) behind h = ground (arith, partition-append c before behind)

differs : (p : ℕ → Bool) (d c : ℕ) → p d ≡ true → p c ≡ false → not (d == c) ≡ true
differs p d c good bad = elim (Bool-cases (d == c)) [
  | inl same ↦ cc (ap p ((nat_eqb_iff d c).0 same))
  | inr other ↦ rw other refl
]

every-avoids :
    (p : ℕ → Bool) (c : ℕ) (t : Text) → every p t ≡ true → p c ≡ false → avoids c t ≡ true
every-avoids p c t h bad = every_mono p (λ d. not (d == c)) t (λ d good. differs p d c good bad) h

abbrev is_key_char : ℕ → Bool
is_key_char c = is_upper c || is_digit c || c == b'_'

key_chars : (key : Text) → is_key key ≡ true → every is_key_char key ≡ true
unfolding is_key
key_chars [] h = refl
key_chars (c ∷ key) h = ground arith

add_entry_new :
    (key value : Text) (values : Values)
    → IsEntry (key, value)
    → member key (keys values) ≡ false
    → length (values ++ (key, value) ∷ []) ≤ max_entries
    → add_entry (key, true, value) values ≡ ok (values ++ (key, value) ∷ [])
unfolding add_entry add_value
add_entry_new key value values h new room = ground (arith, h.key, h.permitted, h.literal)

add_line_new :
    (key value : Text) (values : Values)
    → IsEntry (key, value)
    → length (key ++ (b'=' ∷ value)) ≤ max_line_characters
    → member key (keys values) ≡ false
    → length (values ++ (key, value) ∷ []) ≤ max_entries
    → add_line (key ++ (b'=' ∷ value)) values ≡ ok (values ++ (key, value) ∷ [])
unfolding add_line
add_line_new key value values h short new room =
    let parts =
      partition-append b'=' key value
        (every-avoids is_key_char b'=' key (key_chars key h.key) refl) in
    ground
      (arith, key_not_skipped key value h.key, parts, add_entry_new key value values h new room)

-- Every line of the file for the values is short enough.
abbrev pub AreShort : Values → Type 0
AreShort values =
    All (λ (entry : Text × Text). length (entry.0 ++ (b'=' ∷ entry.1)) ≤ max_line_characters) values

keys-append : (xs ys : Values) → keys (xs ++ ys) ≡ keys xs ++ keys ys
keys-append [] ys = refl
keys-append ((k, v) ∷ xs) ys = rw (keys-append xs ys) refl

add_line_empty : (values : Values) → add_line [] values ≡ ok values
unfolding add_line is_skipped strip
add_line_empty values = refl

line_avoids : (key value : Text) → IsEntry (key, value) → avoids 10 (key ++ (b'=' ∷ value)) ≡ true
line_avoids key value h = ground (
  arith,
  every-append (λ d. not (d == 10)) key (b'=' ∷ value),
  every-avoids is_key_char 10 key (key_chars key h.key) refl,
  every-avoids is_value_char 10 value h.literal refl,
)

add_lines-render :
    (rest values : Values)
    → All IsEntry rest
    → AreShort rest
    → Distinct (keys (values ++ rest))
    → length (values ++ rest) ≤ max_entries
    → add_lines (split 10 (render rest)) values ≡ ok (values ++ rest)
unfolding add_lines split
add_lines-render [] values h short d few = rw (add_line_empty values, ◌>>=◌) (rw append-nil refl)
add_lines-render ((key, value) ∷ rest) values h short d few =
    ap (λ lines. add_lines lines values)
      (split-append 10 (key ++ (b'=' ∷ value)) (render rest) (line_avoids key value h.0))
    ∙ ap (λ r. r >>= λ v. add_lines (split 10 (render rest)) v)
        (add_line_new key value values h.0 short.0
          (Distinct-later (keys values) key (keys rest)
            (rw (keys-append values ((key, value) ∷ rest)) at d))
          (ground (
            arith,
            length-append values ((key, value) ∷ []),
            length-append values ((key, value) ∷ rest),
          )))
    ∙ add_lines-render rest (values ++ (key, value) ∷ []) h.1 short.1
        (rw (append_assoc values ((key, value) ∷ []) rest) d)
        (rw (append_assoc values ((key, value) ∷ []) rest) few)
    ∙ ap ok (append_assoc values ((key, value) ∷ []) rest)

line_clean :
    (key value : Text) → IsEntry (key, value) → every is_file_byte (key ++ (b'=' ∷ value)) ≡ true
line_clean key value h = ground (
  arith,
  every-append is_file_byte key (b'=' ∷ value),
  every_mono is_key_char is_file_byte key (λ c good. ground arith) (key_chars key h.key),
  every_mono is_value_char is_file_byte value (λ c good. ground arith) h.literal,
)

render_clean : (values : Values) → All IsEntry values → every is_file_byte (render values) ≡ true
render_clean [] h = refl
render_clean ((key, value) ∷ values) h = ground (
  arith,
  every-append is_file_byte (key ++ (b'=' ∷ value)) (10 ∷ render values),
  line_clean key value h.0,
  render_clean values h.1,
)

-- The file that has a line `KEY=value` for each entry of an environment, none longer than 8192
-- characters, is read back as that environment.
pub parse_private_environment-render :
    (values : Values)
    → IsEnvironment values
    → AreShort values
    → parse_private_environment (render values) ≡ ok values
unfolding parse_private_environment
parse_private_environment-render values h short =
    ap (λ r. r >>= λ source. add_lines (split 10 source) [])
      (decode_clean (render values) (render_clean values h.entries))
    ∙ add_lines-render values [] h.entries short h.distinct h.few

-- Keys and values by turns, as the reader of the records takes them.
abbrev pub pairs : List Text → Values
pairs (key ∷ value ∷ rest) = (key, value) ∷ pairs rest
pairs _ = []

pairs-emit_nul : (values : Values) → All IsEntry values → pairs (split 0 (emit_nul values)) ≡ values
unfolding emit_nul split
pairs-emit_nul [] h = refl
pairs-emit_nul ((key, value) ∷ values) h =
    ap pairs (
      split-append 0 key (value ++ (0 ∷ emit_nul values))
        (every-avoids is_key_char 0 key (key_chars key h.0.key) refl)
      ∙ ap (λ rest. key ∷ rest)
          (split-append 0 value (emit_nul values)
            (every-avoids is_value_char 0 value h.0.literal refl)))
    ∙ ap (λ rest. (key, value) ∷ rest) (pairs-emit_nul values h.1)

-- The records that `main` writes for a file that it accepts, cut at each zero byte, give the keys and
-- the values of the file again, in their order.
pub emit_nul-parse_private_environment :
    (payload : Text) (values : Values)
    → parse_private_environment payload ≡ ok values
    → pairs (split 0 (emit_nul values)) ≡ values
emit_nul-parse_private_environment payload values e =
    pairs-emit_nul values (parse_private_environment-IsEnvironment payload values e).entries
