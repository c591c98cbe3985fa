-- ===== src/Identity/Names.antt =====
-- Usernames that a request is given.
use mathlib.Core.Path.{subst}
use sub2api_gate.Base.{
  ℕ, ◌≤◌, ◌≡◌, refl, Bool, true, false, not, ◌&&◌, ◌||◌, List, [], ◌∷◌, arith, Text, codes, ◌==◌,
  text_eq, nat_eqb, every, every-take, every-keep, All, leb, length, length-take, take, keep,
  all_hex, is_empty, ok, >>=-eq-ok, Bool-cases, inl, inr, strip,
}
use sub2api_gate.Payload.{Python, Value, Fields, str, get, text_of}
use sub2api_gate.Identity.{
  Identity, is_username_char, dash_runs, trim_left, trim_right, clean_username, username_of_uuid,
  is_uuid, choose_username, uuid_tests, sub2api_username, normalize_username, payload_identity,
  matches_tests, is_dash, uuid_text,
}

-- At most 100 characters, all of `[a-z0-9._-]`.
pub record IsUsername (t : Text) : Type 0 where
  pub chars : every is_username_char t ≡ true
  pub short : length t ≤ 100

dash_char : is_username_char b'-' ≡ true
unfolding is_username_char
dash_char = refl

every-dash_runs : (b : Bool) (t : Text) → every is_username_char (dash_runs b t) ≡ true
unfolding dash_runs
every-dash_runs b [] = refl
every-dash_runs b (c ∷ t) = ground (arith, dash_char, every-dash_runs (not (is_username_char c)) t)

every-trim_left :
    (t : Text) → every is_username_char t ≡ true → every is_username_char (trim_left t) ≡ true
unfolding trim_left
every-trim_left [] h = refl
every-trim_left (c ∷ t) h = ground (arith, every-trim_left t)

every-trim_right :
    (t : Text) → every is_username_char t ≡ true → every is_username_char (trim_right t) ≡ true
unfolding trim_right
every-trim_right [] h = refl
every-trim_right (c ∷ t) h = ground (arith, every-trim_right t)

clean_username-IsUsername : (t : Text) → IsUsername (clean_username t)
unfolding clean_username
clean_username-IsUsername t = record {
  chars =
      every-take is_username_char 100 _
        (every-trim_right _ (every-trim_left _ (every-dash_runs false t)));
  short = omega (arith, length-take 100 (trim_right (trim_left (dash_runs false t))));
}

-- A test that usernames' characters pass.
abbrev IsNameTest : (ℕ → Bool) → Type 0
IsNameTest p = (c : ℕ) → p c ≡ true → is_username_char c ≡ true

hex_char : IsNameTest all_hex
unfolding is_username_char
hex_char c h = ground arith

dash_test : IsNameTest is_dash
unfolding is_username_char
dash_test c h = ground arith

version_test : IsNameTest (λ c. leb b'1' c && leb c b'5')
unfolding is_username_char
version_test c h = ground arith

variant_test :
    IsNameTest (λ c. nat_eqb c b'8' || nat_eqb c b'9' || nat_eqb c b'a' || nat_eqb c b'b')
unfolding is_username_char
variant_test c h = ground arith

matches_tests-every :
    (ps : List (ℕ → Bool)) (t : Text)
    → All IsNameTest ps
    → matches_tests ps t ≡ true
    → every is_username_char t ≡ true
matches_tests-every [] [] a h = refl
matches_tests-every [] (c ∷ t) a h = cc
matches_tests-every (p ∷ ps) [] a h = cc
matches_tests-every (p ∷ ps) (c ∷ t) a h = ground (arith, a.0 c, matches_tests-every ps t a.1)

uuid_tests-tests : All IsNameTest uuid_tests
unfolding uuid_tests
uuid_tests-tests = (
  hex_char,
  (
    hex_char,
    (
      hex_char,
      (
        hex_char,
        (
          hex_char,
          (
            hex_char,
            (
              hex_char,
              (
                hex_char,
                (
                  dash_test,
                  (
                    hex_char,
                    (
                      hex_char,
                      (
                        hex_char,
                        (
                          hex_char,
                          (
                            dash_test,
                            (
                              version_test,
                              (
                                hex_char,
                                (
                                  hex_char,
                                  (
                                    hex_char,
                                    (
                                      dash_test,
                                      (
                                        variant_test,
                                        (
                                          hex_char,
                                          (
                                            hex_char,
                                            (
                                              hex_char,
                                              (
                                                dash_test,
                                                (
                                                  hex_char,
                                                  (
                                                    hex_char,
                                                    (
                                                      hex_char,
                                                      (
                                                        hex_char,
                                                        (
                                                          hex_char,
                                                          (
                                                            hex_char,
                                                            (
                                                            hex_char,
                                                            (
                                                            hex_char,
                                                            (
                                                            hex_char,
                                                            (hex_char, (hex_char, (hex_char, tt))),
                                                            ),
                                                            ),
                                                            ),
                                                          ),
                                                        ),
                                                      ),
                                                    ),
                                                  ),
                                                ),
                                              ),
                                            ),
                                          ),
                                        ),
                                      ),
                                    ),
                                  ),
                                ),
                              ),
                            ),
                          ),
                        ),
                      ),
                    ),
                  ),
                ),
              ),
            ),
          ),
        ),
      ),
    ),
  ),
)

every-uuid : (t : Text) → is_uuid t ≡ true → every is_username_char t ≡ true
unfolding is_uuid
every-uuid t h = matches_tests-every uuid_tests t uuid_tests-tests h

username_of_uuid-IsUsername :
    (uuid t : Text) → username_of_uuid uuid ≡ ok t → IsUsername t × (is_empty t ≡ false)
unfolding username_of_uuid
username_of_uuid-IsUsername uuid t h = elim (Bool-cases (is_uuid uuid)) [
  | inr bad ↦ absurd (ground arith)
  | inl good ↦
      let same : b'u' ∷ compact ≡ t = ground arith in
      subst (λ (x : Text). IsUsername x × (is_empty x ≡ false)) same
        (
          record {
            chars = ground (
              arith,
              letter,
              every-take is_username_char 11 _
                  (every-keep (λ c. not (is_dash c)) is_username_char uuid (every-uuid uuid good)),
            );
            short = omega (arith, length-take 11 (keep (λ c. not (is_dash c)) uuid));
          },
          refl,
        )
]
  where
    compact : Text
    compact = take 11 (keep (λ c. not (is_dash c)) uuid)

    letter : is_username_char b'u' ≡ true
    letter = unfold is_username_char in refl

choose_username-IsUsername :
    (legacy requested name : Text)
    → IsUsername legacy × (is_empty legacy ≡ false)
    → IsUsername requested
    → IsUsername name
    → IsUsername (choose_username legacy requested name)
      × (is_empty (choose_username legacy requested name) ≡ false)
unfolding choose_username
choose_username-IsUsername legacy [] [] l r n = l
choose_username-IsUsername legacy [] (c ∷ name) l r n = (n, refl)
choose_username-IsUsername legacy (c ∷ requested) [] l r n = (r, refl)
choose_username-IsUsername legacy (c ∷ requested) (d ∷ name) l r n =
    elim (Bool-cases ((c ∷ requested) == legacy)) [
      | inl same ↦ rw same (n, refl)
      | inr differs ↦ rw differs (r, refl)
    ]

module _ (py : Python) where
  sub2api_username-IsUsername :
      (v : Value) (t : Text) → sub2api_username py v ≡ ok t → IsUsername t × (is_empty t ≡ false)
  unfolding sub2api_username
  sub2api_username-IsUsername v t h =
      username_of_uuid-IsUsername (py.lower (strip (text_of py v))) t h

  normalize_username-IsUsername : (v : Value) → IsUsername (normalize_username py v)
  unfolding normalize_username
  normalize_username-IsUsername v = clean_username-IsUsername (py.lower (strip (text_of py v)))

  -- Whatever a request gives, the username that it is worked with is not empty, has at most 100
  -- characters and only those of `[a-z0-9._-]`, and so has the one that stands for its UUID.
  pub payload_identity-IsUsername :
      (payload : Fields) (who : Identity)
      → payload_identity py payload ≡ ok who
      → IsUsername who.username × (is_empty who.username ≡ false) × IsUsername who.legacy_username
  unfolding payload_identity
  payload_identity-IsUsername payload who h =
      let (legacy, e, h1) =
        >>=-eq-ok (sub2api_username py (str (py.lower (strip (uuid_text py payload))))) _ h in
      let legacy_name =
        sub2api_username-IsUsername (str (py.lower (strip (uuid_text py payload)))) legacy e in
      let chosen =
        choose_username-IsUsername legacy (normalize_username py (get (codes "username") payload))
          (normalize_username py (get (codes "name") payload)) legacy_name
          (normalize_username-IsUsername (get (codes "username") payload))
          (normalize_username-IsUsername (get (codes "name") payload)) in
      let who' : Identity = record {
        uuid = py.lower (strip (uuid_text py payload));
        legacy_username = legacy;
        username =
            choose_username legacy (normalize_username py (get (codes "username") payload))
              (normalize_username py (get (codes "name") payload));
      } in
      let same : who' ≡ who = ground arith in
      subst
        (λ (w : Identity).
          IsUsername w.username × (is_empty w.username ≡ false) × IsUsername w.legacy_username)
        same (chosen.0, chosen.1, legacy_name.0)
