-- ===== src/Sql/Tests.antt =====
-- The SQL texts at concrete values.
use sub2api_gate.Base.{Text, ◌≡◌, ◌≢◌, refl, false, none, some, [], ◌++◌, arith, codes, nat_eqb}
use sub2api_gate.Sql.{
  sql_quote, escape_literal, escape_like, ilike_contains, like_pattern, cut, value_text,
}
use sub2api_gate.Sql.Literal.{
  parse_literal, stored, parse_literal-sql_quote, count_backslash, backslash_is_not_kept,
}
use sub2api_gate.Sql.Like.{ilike, contains_text, ilike-ilike_contains}

quoted : sql_quote (some (codes "it's \\ here")) (some 9) ≡ codes "'it''s \\\\ he'"
unfolding sql_quote escape_literal
quoted = refl

pattern_50 : ilike_contains (codes "50%_!") 120 ≡ codes "'%50!%!_!!%' ESCAPE '!'"
unfolding ilike_contains sql_quote escape_literal like_pattern escape_like
pattern_50 = refl

parse_literal-sql_quote_example :
    parse_literal false (sql_quote (some (codes "a' OR 1=1")) (some 100) ++ codes " LIMIT 1;")
    ≡ some
        (stored false (cut (some 100) (value_text (some (codes "a' OR 1=1")))), codes " LIMIT 1;")
parse_literal-sql_quote_example =
    parse_literal-sql_quote false (some (codes "a' OR 1=1")) (some 100) (codes " LIMIT 1;") refl

backslash_is_not_kept_example :
    parse_literal false (sql_quote (some (codes "pass\\word1")) none)
    ≢ some (codes "pass\\word1", [])
unfolding count_backslash
backslash_is_not_kept_example = backslash_is_not_kept (codes "pass\\word1") (omega arith)

ilike-ilike_contains_example :
    (pattern : Text) × (parse_literal false (ilike_contains (codes "a_b") 64 ++ [])
      ≡ some (pattern, codes " ESCAPE '!'" ++ []))
    × (ilike nat_eqb pattern (codes "xa_by")
        ≡ some (contains_text nat_eqb (codes "a_b") (codes "xa_by")))
ilike-ilike_contains_example =
    ilike-ilike_contains nat_eqb false (codes "a_b") 64 [] (codes "xa_by") refl (λ h. refl)
