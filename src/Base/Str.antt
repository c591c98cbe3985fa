-- ===== src/Base/Str.antt =====
-- Python's `str` as its list of code points, and the operations on it that the source calls.
use Prim.Native.Nat.{ℕ, ◌+◌, ◌-◌, ◌*◌}
use Prim.Native.Char.{code}
use Prim.Native.String.{String}
use mathlib.Core.Path.{◌≡◌, refl}
use mathlib.Core.Logic.{◌↔◌}
use mathlib.Core.Bool.{Bool, true, false, not, ◌&&◌, ◌||◌}
use mathlib.Core.List.{List, [], ◌∷◌, ◌++◌}
use native.Mathlib.Omega.{arith}
use sub2api_gate.Base.Tests.{Eq, leb, nat_eqb, if◌then◌else◌}
use sub2api_gate.Base.Lists.{every}

abbrev pub Text : Type 0
Text = List ℕ

-- The code points of a literal.
abbrev pub codes : String → Text
codes String.[] = []
codes (String.◌∷◌ c s) = code c ∷ codes s

unfoldable pub text_eqb : Text → Text → Bool
text_eqb [] [] = true
text_eqb [] (b ∷ t) = false
text_eqb (a ∷ s) [] = false
text_eqb (a ∷ s) (b ∷ t) = nat_eqb a b && text_eqb s t

pub text_eqb_iff : (s t : Text) → (text_eqb s t ≡ true) ↔ (s ≡ t)
unfolding text_eqb
text_eqb_iff [] [] = (λ h. refl, λ h. refl)
text_eqb_iff [] (b ∷ t) = (λ h. cc, λ h. cc)
text_eqb_iff (a ∷ s) [] = (λ h. cc, λ h. cc)
text_eqb_iff (a ∷ s) (b ∷ t) =
    (λ h. ground (arith, text_eqb_iff s t), λ h. ground (arith, text_eqb_iff s t))

instance abbrev pub text_eq : Eq Text
text_eq = record { same = text_eqb; same_iff = text_eqb_iff }

-- `t.startswith(p)`
abbrev pub starts_with : Text → Text → Bool
starts_with [] t = true
starts_with (p ∷ ps) [] = false
starts_with (p ∷ ps) (c ∷ t) = nat_eqb p c && starts_with ps t

-- `t.replace(c, w)` for a single character `c`
abbrev pub replace : ℕ → Text → Text → Text
replace c w [] = []
replace c w (x ∷ t) = (if nat_eqb x c then w else x ∷ []) ++ replace c w t

-- `str.isspace` of one character: what `str.strip()` removes.
pub is_space : ℕ → Bool
is_space c =
    (leb 9 c && leb c 13)
    || (leb 28 c && leb c 32)
    || nat_eqb c 0x85
    || nat_eqb c 0xa0
    || nat_eqb c 0x1680
    || (leb 0x2000 c && leb c 0x200a)
    || nat_eqb c 0x2028
    || nat_eqb c 0x2029
    || nat_eqb c 0x202f
    || nat_eqb c 0x205f
    || nat_eqb c 0x3000

pub lstrip : Text → Text
lstrip [] = []
lstrip (c ∷ t) = let rest = lstrip t in if is_space c then rest else c ∷ t

-- `t.rstrip()`
pub rstrip : Text → Text
rstrip [] = []
rstrip (c ∷ t) = elim (rstrip t) [ [] ↦ if is_space c then [] else c ∷ [] | d ∷ r ↦ c ∷ d ∷ r ]

-- `t.strip()`
unfoldable pub strip : Text → Text
unfolding lstrip rstrip is_space
strip t = rstrip (lstrip t)

abbrev pub is_digit : ℕ → Bool
is_digit c = leb b'0' c && leb c b'9'

abbrev pub is_upper : ℕ → Bool
is_upper c = leb b'A' c && leb c b'Z'

abbrev pub is_lower : ℕ → Bool
is_lower c = leb b'a' c && leb c b'z'

-- `string.ascii_letters + string.digits`
abbrev pub is_alnum : ℕ → Bool
is_alnum c = is_upper c || is_lower c || is_digit c

-- `str.lower` of one ASCII character.
abbrev pub to_lower : ℕ → ℕ
to_lower c = if is_upper c then c + 32 else c

-- A pattern character class repeated, as in `[...]{m,n}\Z` on a whole text, is `every` and a length.
abbrev pub all_hex : ℕ → Bool
all_hex c = is_digit c || (leb b'a' c && leb c b'f')

-- `x or y` on texts
abbrev pub text_or : Text → Text → Text
text_or [] y = y
text_or (c ∷ t) y = c ∷ t

-- `int(t)` of a text of decimal digits, read from the left.
abbrev pub decimal_from : ℕ → Text → ℕ
decimal_from n [] = n
decimal_from n (c ∷ t) = decimal_from (n * 10 + (c - b'0')) t

abbrev pub decimal : Text → ℕ
decimal = decimal_from 0

-- `t.split(c)` for a single character: there is always a first part.
pub split_first : ℕ → Text → Text × List Text
split_first c [] = ([], [])
split_first c (x ∷ t) =
    let (first, others) = split_first c t in
    if nat_eqb x c then ([], first ∷ others) else (x ∷ first, others)

unfoldable pub split : ℕ → Text → List Text
unfolding split_first
split c t = let (first, others) = split_first c t in first ∷ others

pub is_visible : ℕ → Bool
unfolding is_space
is_visible c = not (is_space c)

lstrip_visible : (t : Text) → every is_visible t ≡ true → lstrip t ≡ t
unfolding lstrip is_visible
lstrip_visible [] h = refl
lstrip_visible (c ∷ t) h = ground arith

rstrip_visible : (t : Text) → every is_visible t ≡ true → rstrip t ≡ t
unfolding rstrip is_visible
rstrip_visible [] h = refl
rstrip_visible (c ∷ []) h = ground arith
rstrip_visible (c ∷ d ∷ t) h = ground (arith, rstrip_visible (d ∷ t))

-- A text with no white space is its own strip.
pub strip_visible : (t : Text) → every is_visible t ≡ true → strip t ≡ t
unfolding strip
strip_visible t h = rw (lstrip_visible t h) (rstrip_visible t h)

-- An ASCII character above the space is no white space.
pub is_visible_ascii : (c : ℕ) → leb 33 c ≡ true → leb c 126 ≡ true → is_visible c ≡ true
unfolding is_visible
is_visible_ascii c low high = ground arith

lstrip_head : (c : ℕ) (t : Text) → is_visible c ≡ true → lstrip (c ∷ t) ≡ c ∷ t
unfolding lstrip is_visible
lstrip_head c t h = ground arith

rstrip_head : (c : ℕ) (t : Text) → is_visible c ≡ true → (r : Text) × (rstrip (c ∷ t) ≡ c ∷ r)
unfolding rstrip is_visible
rstrip_head c t h = go (rstrip t) refl
  where
    go : (s : Text) → rstrip t ≡ s → (r : Text) × (rstrip (c ∷ t) ≡ c ∷ r)
    go [] e = ([], ground (arith, e))
    go (d ∷ s) e = (d ∷ s, ground (arith, e))

-- A text that begins with a character other than white space keeps it in both strips.
pub strip_head :
    (c : ℕ) (t : Text)
    → is_visible c ≡ true
    → (lstrip (c ∷ t) ≡ c ∷ t) × ((r : Text) × (strip (c ∷ t) ≡ c ∷ r))
unfolding strip
strip_head c t h =
    let (r, e) = rstrip_head c t h in (lstrip_head c t h, (r, rw (lstrip_head c t h) e))

-- The first part that `split` gives is what stands before the first separator.
pub split-append :
    (c : ℕ) (line rest : Text)
    → every (λ x. not (nat_eqb x c)) line ≡ true
    → split c (line ++ (c ∷ rest)) ≡ line ∷ split c rest
unfolding split split_first
split-append c [] rest h = rw (same_char c) refl
  where
    same_char : (n : ℕ) → nat_eqb n n ≡ true
    same_char n = ground arith
split-append c (x ∷ line) rest h =
    let other : nat_eqb x c ≡ false = ground arith in
    rw other (ground (arith, split-append c line rest))
