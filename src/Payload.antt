-- ===== src/Payload.antt =====
-- JSON values as `json.loads` gives them, and the small readers of a request's payload in
-- sub2api-sync/sub2api_sync.py.
pub mod Identifier
mod Tests
use sub2api_gate.Base.{
  ℕ, suc, Bool, true, false, not, List, [], ◌∷◌, ◌++◌, ◌≡◌, nat_eq, Option, none, some, map, Text,
  codes, ◌==◌, text_eq, every, leb, to_lower, ℤ, pos, negsuc, show_nat, if◌then◌else◌,
}

-- A `real` says whether it is zero, beside its source text: the programs only test and print it.
mutual
  pub data Value : Type 0 where
    null : Value
    bool : Bool → Value
    int : ℤ → Value
    real : Bool → Text → Value
    str : Text → Value
    arr : Items → Value
    obj : Fields → Value

  pub data Items : Type 0 where
    nil : Items
    cons : Value → Items → Items

  pub data Fields : Type 0 where
    end : Fields
    field : Text → Value → Fields → Fields

-- What CPython itself prints and maps: `str` of a float, a list and a dict, and `str.lower`, which
-- follows the Unicode tables and on ASCII text maps each letter.
pub record Python : Type 0 where
  pub repr : Value → Text
  pub lower : Text → Text
  pub lower_ascii : (t : Text) → every (λ c. leb c 127) t ≡ true → lower t ≡ map to_lower t

unfoldable pub items : Items → List Value
items nil = []
items (cons v vs) = v ∷ items vs

-- `payload.get(key)`, where a missing key is `None`.
unfoldable pub get : Text → Fields → Value
get key end = null
get key (field k v rest) = if k == key then v else get key rest

-- `key in payload`
unfoldable pub has : Text → Fields → Bool
has key end = false
has key (field k v rest) = if k == key then true else has key rest

-- `bool(value)`
unfoldable pub truthy : Value → Bool
truthy null = false
truthy (bool b) = b
truthy (int (pos n)) = not (n == 0)
truthy (int (negsuc n)) = true
truthy (real zero_value t) = not zero_value
truthy (str []) = false
truthy (str (c ∷ t)) = true
truthy (arr nil) = false
truthy (arr (cons v vs)) = true
truthy (obj end) = false
truthy (obj (field k v rest)) = true

-- `a or b`
abbrev pub value_or : Value → Value → Value
value_or a b = if truthy a then a else b

module _ (py : Python) where
  -- `str(value)`
  unfoldable pub str_of : Value → Text
  str_of null = codes "None"
  str_of (bool true) = codes "True"
  str_of (bool false) = codes "False"
  str_of (int (pos n)) = show_nat n
  str_of (int (negsuc n)) = codes "-" ++ show_nat (suc n)
  str_of (str t) = t
  str_of v = py.repr v

  -- `str(value or "")`
  unfoldable pub text_of : Value → Text
  unfolding str_of truthy
  text_of v = if truthy v then str_of v else []
