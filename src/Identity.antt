-- ===== src/Identity.antt =====
-- Who a request is about (sub2api-sync/sub2api_sync.py): `sub2api_username`, `normalize_username`,
-- `payload_identity` and `default_email`.
pub mod Names
mod Tests
use sub2api_gate.Base.{
  ℕ, Bool, true, false, not, ◌&&◌, ◌||◌, List, [], ◌∷◌, ◌++◌, map, Text, codes, ◌==◌, text_eq,
  nat_eqb, leb, every, exists, length, take, keep, all_hex, is_digit, is_lower, is_empty, strip,
  text_or, if◌then◌else◌, value_error, Result, ok, err, ◌>>=◌, ◌>>◌,
}
use mathlib.Core.List.{reverse}
use sub2api_gate.Payload.{Python, Value, Fields, str, get, has, str_of, text_of}

-- A text against one test for each of its characters.
abbrev pub matches_tests : List (ℕ → Bool) → Text → Bool
matches_tests [] [] = true
matches_tests [] (c ∷ t) = false
matches_tests (p ∷ ps) [] = false
matches_tests (p ∷ ps) (c ∷ t) = p c && matches_tests ps t

abbrev pub is_dash : ℕ → Bool
is_dash c = nat_eqb c b'-'

abbrev pub hex3 : List (ℕ → Bool)
hex3 = all_hex ∷ all_hex ∷ all_hex ∷ []

-- `[0-9a-f]{8}-[0-9a-f]{4}-[1-5][0-9a-f]{3}-[89ab][0-9a-f]{3}-[0-9a-f]{12}`
unfoldable pub uuid_tests : List (ℕ → Bool)
uuid_tests =
    hex3
    ++ (hex3
        ++ (all_hex
            ∷ all_hex
            ∷ is_dash
            ∷ all_hex
            ∷ (hex3
                ++ (is_dash
                    ∷ (λ c. leb b'1' c && leb c b'5')
                    ∷ (hex3
                        ++ (is_dash
                            ∷ (λ c.
                                nat_eqb c b'8'
                                || nat_eqb c b'9'
                                || nat_eqb c b'a'
                                || nat_eqb c b'b')
                            ∷ (hex3 ++ (is_dash ∷ (hex3 ++ (hex3 ++ (hex3 ++ hex3)))))))))))

unfoldable pub is_uuid : Text → Bool
unfolding uuid_tests
is_uuid t = matches_tests uuid_tests t

-- `[a-z0-9._-]`
unfoldable pub is_username_char : ℕ → Bool
is_username_char c = is_lower c || is_digit c || nat_eqb c b'.' || nat_eqb c b'_' || nat_eqb c b'-'

-- `re.sub(r"[^a-z0-9._-]+", "-", text)`; the flag says that the character before was replaced.
pub dash_runs : Bool → Text → Text
dash_runs in_run [] = []
dash_runs in_run (c ∷ t) =
    let rest = dash_runs (not (is_username_char c)) t in
    if is_username_char c then c ∷ rest else if in_run then rest else b'-' ∷ rest

-- `[._-]`
abbrev pub is_edge : ℕ → Bool
is_edge c = nat_eqb c b'.' || nat_eqb c b'_' || nat_eqb c b'-'

pub trim_left : Text → Text
trim_left [] = []
trim_left (c ∷ t) = let rest = trim_left t in if is_edge c then rest else c ∷ t

pub trim_right : Text → Text
trim_right [] = []
trim_right (c ∷ t) = elim (trim_right t) [
  | [] ↦ if is_edge c then [] else c ∷ []
  | d ∷ r ↦ c ∷ d ∷ r
]

-- The two substitutions and the cut of `normalize_username`.
unfoldable pub clean_username : Text → Text
unfolding dash_runs trim_left trim_right
clean_username t = take 100 (trim_right (trim_left (dash_runs false t)))

-- `sub2api_username` behind the normalization.
unfoldable pub username_of_uuid : Text → Result Text
unfolding is_uuid
username_of_uuid uuid =
    if not (is_uuid uuid)
    then err (value_error (codes "invalid uuid"))
    else ok (codes "u" ++ take 11 (keep (λ c. not (is_dash c)) uuid))

-- The choice of the username.
unfoldable pub choose_username : Text → Text → Text → Text
choose_username legacy requested name =
    if not (is_empty name) && (is_empty requested || requested == legacy)
    then name
    else text_or (text_or requested name) legacy

pub record Identity : Type 0 where
  pub uuid : Text
  pub legacy_username : Text
  pub username : Text

module _ (py : Python) where
  unfoldable pub sub2api_username : Value → Result Text
  unfolding username_of_uuid
  sub2api_username uuid = username_of_uuid (py.lower (strip (text_of py uuid)))

  unfoldable pub normalize_username : Value → Text
  normalize_username value = clean_username (py.lower (strip (text_of py value)))

  -- `str(payload.get("uuid", ""))`
  abbrev pub uuid_text : Fields → Text
  uuid_text payload =
      if has (codes "uuid") payload then str_of py (get (codes "uuid") payload) else []

  unfoldable pub payload_identity : Fields → Result Identity
  unfolding sub2api_username
  payload_identity payload = do
    let uuid = py.lower (strip (uuid_text payload))
    legacy ← sub2api_username (str uuid)
    ok (record {
      uuid = uuid;
      legacy_username = legacy;
      username =
          choose_username legacy (normalize_username (get (codes "username") payload))
            (normalize_username (get (codes "name") payload));
    })

  unfoldable pub default_email : Text → Value → Text
  default_email username email =
      let text = py.lower (strip (text_of py email)) in
      if exists (λ c. nat_eqb c b'@') text && leb (length text) 255
      then text
      else username ++ codes "@sub2api.local"
