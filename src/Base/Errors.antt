-- ===== src/Base/Errors.antt =====
-- Exceptions as values, by the class that the handlers of the source tell apart.
use mathlib.Core.Path.{◌≡◌, refl}
use mathlib.Core.Bool.{Bool, true, false}
use mathlib.Core.Option.{Option}
use sub2api_gate.Base.Str.{Text}

-- An exception raised: `value_error` and `runtime_error` carry `args[0]`, `url_error` says whether
-- its reason is a timeout, `database_error` carries the SQLSTATE, `other` is any other `Exception`.
pub data Raised : Type 0 where
  json_error : Raised
  value_error : Text → Raised
  timeout : Raised
  url_error : Bool → Raised
  os_error : Raised
  runtime_error : Text → Raised
  database_error : Option Text → Raised
  other : Raised

pub data Result {ℓ} (A : Type ℓ) : Type ℓ where
  ok : A → Result A
  err : Raised → Result A

infixl 5 ◌>>=◌ ◌>>◌
abbrev pub ◌>>=◌ {ℓ κ} : {A : Type ℓ} → {B : Type κ} → Result A → (A → Result B) → Result B
err raised >>= k = err raised
ok result >>= k = k result

abbrev pub ◌>>◌ {ℓ} : {B : Type ℓ} → Result (Unit {0}) → Result B → Result B
m >> k = m >>= λ _. k

-- `if b: raise e`
abbrev pub raise_if : Bool → Raised → Result (Unit {0})
raise_if true e = err e
raise_if false e = ok tt

pub >>=-eq-ok {ℓ κ} :
    {A : Type ℓ} {B : Type κ} (attempt : Result A) (k : A → Result B) {last : B}
    → (attempt >>= k) ≡ ok last
    → (result : A) × (attempt ≡ ok result) × (k result ≡ ok last)
>>=-eq-ok (err raised) k done = cc
>>=-eq-ok (ok result) k done = (result, refl, done)
