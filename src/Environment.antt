-- ===== src/Environment.antt =====
-- The parser of private environment files (deploy/private_env.py): `_decode_private_environment`,
-- `_parse_private_environment` and the records that `main` writes.
pub mod Sound
pub mod RoundTrip
pub mod File
mod Tests
use sub2api_gate.Base.{
  ℕ, ◌*◌, Bool, true, false, not, ◌&&◌, ◌||◌, List, [], ◌∷◌, ◌++◌, map, nat_eq, text_eq, Text,
  codes, ◌==◌, member, every, exists, length, leb, ltb, is_empty, starts_with, strip, lstrip, split,
  is_upper, is_digit, if◌then◌else◌, Raised, value_error, Result, ok, err, ◌>>=◌, ◌>>◌,
}

abbrev pub max_file_bytes : ℕ
max_file_bytes = 128 * 1024

abbrev pub max_entries : ℕ
max_entries = 256

abbrev pub max_line_characters : ℕ
max_line_characters = 8192

-- `PrivateEnvironmentError`
abbrev pub invalid_file : Raised
invalid_file = value_error (codes "private environment file is invalid")

abbrev pub bad_separator : Raised
bad_separator = value_error (codes "private environment file contains an invalid line separator")

abbrev pub bad_byte : Raised
bad_byte =
    value_error (codes "private environment file must use visible ASCII and canonical line endings")

abbrev pub line_too_long : Raised
line_too_long = value_error (codes "private environment line is too long")

abbrev pub bad_value : Raised
bad_value = value_error (codes "private environment values must use literal visible ASCII")

abbrev pub too_many_entries : Raised
too_many_entries = value_error (codes "private environment file contains too many entries")

abbrev pub is_file_byte : ℕ → Bool
is_file_byte c = c == 10 || (leb 32 c && leb c 126)

-- The loop of `_decode_private_environment`; the flag says that the byte before was a carriage return.
unfoldable pub check_bytes : Bool → Text → Result (Unit {0})
check_bytes true [] = err bad_separator
check_bytes false [] = ok tt
check_bytes true (c ∷ t) =
    let rest = check_bytes false t in if c == 10 then rest else err bad_separator
check_bytes false (c ∷ t) =
    let rest = check_bytes (c == 13) t in
    if c == 13 then rest else if is_file_byte c then rest else err bad_byte

-- `payload.replace(b"\r\n", b"\n")`
unfoldable pub replace_crlf : Text → Text
replace_crlf [] = []
replace_crlf (c ∷ t) =
    let rest = replace_crlf t in if c == 13 && starts_with (10 ∷ []) t then rest else c ∷ rest

unfoldable pub decode : Text → Result Text
unfolding check_bytes replace_crlf
decode payload = check_bytes false payload >> ok (replace_crlf payload)

-- `line.partition(c)`: what is before the first `c`, whether there is one, and what is behind it.
unfoldable pub partition : ℕ → Text → Text × Bool × Text
partition c [] = ([], false, [])
partition c (x ∷ t) =
    let (before, found, behind) = partition c t in
    if x == c then ([], true, t) else (x ∷ before, found, behind)

-- `[A-Z][A-Z0-9_]*`
unfoldable pub is_key : Text → Bool
is_key [] = false
is_key (c ∷ t) = is_upper c && every (λ d. is_upper d || is_digit d || d == b'_') t

unfoldable pub is_forbidden_key : Text → Bool
is_forbidden_key key = starts_with (codes "COMPOSE_") key || starts_with (codes "DOCKER_") key

abbrev pub is_value_char : ℕ → Bool
is_value_char c = leb 0x21 c && leb c 0x7e && not (member c (codes "'\"\\#$"))

abbrev pub Values : Type 0
Values = List (Text × Text)

abbrev pub keys : Values → List Text
keys [] = []
keys ((key, value) ∷ values) = key ∷ keys values

-- A line that the loop passes over.
unfoldable pub is_skipped : Text → Bool
is_skipped line = is_empty (strip line) || starts_with (codes "#") (lstrip line)

-- `values[key] = value` with the tests around it.
unfoldable pub add_value : Text → Text → Values → Result Values
add_value key value values =
    if not (every is_value_char value)
    then err bad_value
    else if ltb max_entries (length (values ++ (key, value) ∷ []))
    then err too_many_entries
    else ok (values ++ (key, value) ∷ [])

unfoldable pub add_entry : Text × Bool × Text → Values → Result Values
unfolding add_value
add_entry (key, separator, value) values =
    if not separator || not (is_key key) || is_forbidden_key key || member key (keys values)
    then err invalid_file
    else add_value key value values

unfoldable pub add_line : Text → Values → Result Values
unfolding add_entry partition
add_line line values =
    if ltb max_line_characters (length line)
    then err line_too_long
    else if is_skipped line
    then ok values
    else add_entry (partition b'=' line) values

unfoldable pub add_lines : List Text → Values → Result Values
unfolding add_line
add_lines [] values = ok values
add_lines (line ∷ lines) values = do values' ← add_line line values; add_lines lines values'

unfoldable pub parse_private_environment : Text → Result Values
unfolding decode add_lines
parse_private_environment payload = do source ← decode payload; add_lines (split 10 source) []

-- What `main` writes: each key and each value, ended by a zero byte.
unfoldable pub emit_nul : Values → Text
emit_nul [] = []
emit_nul ((key, value) ∷ values) = key ++ (0 ∷ (value ++ (0 ∷ emit_nul values)))
