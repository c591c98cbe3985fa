-- ===== src/Environment/Sound.antt =====
-- What the parser accepts: distinct keys of the permitted form, and literal values.
use sub2api_gate.Base.{
  ◌≤◌, ◌≡◌, refl, Bool, true, false, Bool-cases, inl, inr, List, [], ◌∷◌, ◌++◌, arith, text_eq,
  nat_eq, Text, All, All-append, Distinct, Distinct-snoc, length, every, member, ok, >>=-eq-ok, ltb,
  split,
}
use sub2api_gate.Environment.{
  Values, keys, is_key, is_forbidden_key, is_value_char, max_entries, add_value, add_entry,
  add_line, add_lines, partition, is_skipped, parse_private_environment, decode,
}

pub record IsEntry (entry : Text × Text) : Type 0 where
  pub key : is_key entry.0 ≡ true
  pub permitted : is_forbidden_key entry.0 ≡ false
  pub literal : every is_value_char entry.1 ≡ true

pub record IsEnvironment (values : Values) : Type 0 where
  pub entries : All IsEntry values
  pub distinct : Distinct (keys values)
  pub few : length values ≤ max_entries

pub keys-snoc :
    (values : Values) (key value : Text)
    → keys (values ++ (key, value) ∷ []) ≡ keys values ++ key ∷ []
keys-snoc [] key value = refl
keys-snoc ((k, v) ∷ values) key value = rw (keys-snoc values key value)

add_value-IsEnvironment :
    (key value : Text) (values values' : Values)
    → is_key key ≡ true
    → is_forbidden_key key ≡ false
    → member key (keys values) ≡ false
    → IsEnvironment values
    → add_value key value values ≡ ok values'
    → IsEnvironment values'
unfolding add_value
add_value-IsEnvironment key value values values' good permitted new h e =
    elim (Bool-cases (every is_value_char value)) [
      | inr bad ↦ cc (rw bad at e)
      | inl literal ↦ elim (Bool-cases (ltb max_entries (length (values ++ (key, value) ∷ [])))) [
        | inl full ↦ cc (rw (literal, full) at e)
        | inr room ↦
            let same : values ++ (key, value) ∷ [] ≡ values' = cc (rw (literal, room) at e) in
            rw (← same) (record {
              entries =
                  All-append IsEntry values ((key, value) ∷ []) h.entries
                    (record { key = good; permitted = permitted; literal = literal }, tt);
              distinct =
                  rw (keys-snoc values key value) (Distinct-snoc (keys values) key h.distinct new);
              few = ground arith;
            })
      ]
    ]

add_entry-IsEnvironment :
    (parts : Text × Bool × Text) (values values' : Values)
    → IsEnvironment values
    → add_entry parts values ≡ ok values'
    → IsEnvironment values'
unfolding add_entry
add_entry-IsEnvironment (key, separator, value) values values' h e =
    let passed : (is_key key ≡ true)
        × (is_forbidden_key key ≡ false)
        × (member key (keys values) ≡ false)
        × (add_value key value values ≡ ok values') =
      ground arith in
    add_value-IsEnvironment key value values values' passed.0 passed.1 passed.2 h passed.3

add_line-IsEnvironment :
    (line : Text) (values values' : Values)
    → IsEnvironment values
    → add_line line values ≡ ok values'
    → IsEnvironment values'
unfolding add_line
add_line-IsEnvironment line values values' h e = elim (Bool-cases (is_skipped line)) [
  | inl skipped ↦ let same : values ≡ values' = ground arith in rw (← same) h
  | inr given ↦ add_entry-IsEnvironment (partition b'=' line) values values' h (ground arith)
]

add_lines-IsEnvironment :
    (lines : List Text) (values values' : Values)
    → IsEnvironment values
    → add_lines lines values ≡ ok values'
    → IsEnvironment values'
unfolding add_lines
add_lines-IsEnvironment [] values values' h e = let same : values ≡ values' = cc in rw (← same) h
add_lines-IsEnvironment (line ∷ lines) values values' h e =
    let (next, first, later) = >>=-eq-ok (add_line line values) (λ v. add_lines lines v) e in
    add_lines-IsEnvironment lines next values' (add_line-IsEnvironment line values next h first)
      later

-- Whatever file the parser accepts, what it returns has distinct keys of the permitted form, none
-- of them reserved for Docker or Compose, values of literal visible characters, and at most 256 entries.
pub parse_private_environment-IsEnvironment :
    (payload : Text) (values : Values)
    → parse_private_environment payload ≡ ok values
    → IsEnvironment values
unfolding parse_private_environment
parse_private_environment-IsEnvironment payload values e =
    let (source, first, later) = >>=-eq-ok (decode payload) (λ s. add_lines (split 10 s) []) e in
    add_lines-IsEnvironment (split 10 source) [] values
      (record { entries = tt; distinct = tt; few = omega arith }) later
