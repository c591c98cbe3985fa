-- ===== src/Sql.antt =====
-- SQL text built from values: `sql_quote` (sub2api-sync/sub2api_sync.py and usage_metadata.py, the
-- same function twice) and `ilike_contains` (sub2api-sync/usage_metadata.py).
pub mod Literal
pub mod Like
pub mod Tests
use sub2api_gate.Base.{ℕ, Option, none, some, List, [], ◌∷◌, ◌++◌, Text, codes, replace, take}

-- The text of a value: `None` is empty.
abbrev pub value_text : Option Text → Text
value_text none = []
value_text (some t) = t

-- `text[:max_length]`, where a length is given.
abbrev pub cut : Option ℕ → Text → Text
cut none t = t
cut (some n) t = take n t

-- The three `replace` calls of `sql_quote`: backslashes and quotes doubled, NUL removed.
unfoldable pub escape_literal : Text → Text
escape_literal t = replace 0 [] (replace b'\'' (codes "''") (replace b'\\' (codes "\\\\") t))

unfoldable pub sql_quote : Option Text → Option ℕ → Text
sql_quote value max_length =
    codes "'" ++ (escape_literal (cut max_length (value_text value)) ++ codes "'")

-- The escaping of `ilike_contains`: `!`, `%` and `_` behind a `!`.
unfoldable pub escape_like : Text → Text
escape_like t = replace b'_' (codes "!_") (replace b'%' (codes "!%") (replace b'!' (codes "!!") t))

-- The argument that `ilike_contains` gives to `sql_quote`.
unfoldable pub like_pattern : Text → ℕ → Text
like_pattern value max_length = codes "%" ++ (escape_like (take max_length value) ++ codes "%")

unfoldable pub ilike_contains : Text → ℕ → Text
ilike_contains value max_length =
    sql_quote (some (like_pattern value max_length)) none ++ codes " ESCAPE '!'"
