-- ===== src/Base/Decimal.antt =====
-- `str(n)` of a natural number, and that `int` reads it back.
use Prim.Native.Nat.{ℕ, zero, suc, ◌+◌, ◌/◌, ◌%◌, ◌<◌}
use mathlib.Core.Path.{◌≡◌, refl, ◌∙◌, ap}
use mathlib.Core.Bool.{true, false}
use mathlib.Core.Logic.{inl, inr}
use mathlib.Core.List.{[], ◌∷◌}
use native.Mathlib.Omega.{arith}
use sub2api_gate.Base.Tests.{ltb, Bool-cases}
use sub2api_gate.Base.Lists.{every}
use sub2api_gate.Base.Str.{Text, decimal, decimal_from, is_digit}

-- The digits of `n` in front of `acc`; each round takes one digit off and one unit of fuel.
pub show_from : ℕ → ℕ → Text → Text
show_from zero n acc = acc
show_from (suc fuel) n acc = elim (ltb n 10) [
  | true ↦ (b'0' + n) ∷ acc
  | false ↦ show_from fuel (n / 10) ((b'0' + n % 10) ∷ acc)
]

-- A number has no more digits than its own value plus one.
unfoldable pub show_nat : ℕ → Text
unfolding show_from
show_nat n = show_from (suc n) n []

show_from_small :
    (fuel n : ℕ) (acc : Text) → ltb n 10 ≡ true → show_from (suc fuel) n acc ≡ (b'0' + n) ∷ acc
unfolding show_from
show_from_small fuel n acc h = rw (h, show_from)

show_from_large :
    (fuel n : ℕ) (acc : Text)
    → ltb n 10 ≡ false
    → show_from (suc fuel) n acc ≡ show_from fuel (n / 10) ((b'0' + n % 10) ∷ acc)
unfolding show_from
show_from_large fuel n acc h = rw (h, show_from)

-- Reading the digits of `n` behind `acc` begins with the value `n`.
decimal_from-show_from :
    (fuel n : ℕ) (acc : Text)
    → n < fuel
    → decimal_from 0 (show_from fuel n acc) ≡ decimal_from n acc
decimal_from-show_from zero n acc h = absurd (omega arith)
decimal_from-show_from (suc fuel) n acc h = elim (Bool-cases (ltb n 10)) [
  | inl small ↦
      ap (decimal_from 0) (show_from_small fuel n acc small)
      ∙ ap (λ (k : ℕ). decimal_from k acc) (omega arith)
  | inr large ↦
      ap (decimal_from 0) (show_from_large fuel n acc large)
      ∙ decimal_from-show_from fuel (n / 10) ((b'0' + n % 10) ∷ acc) (ground arith)
      ∙ ap (λ (k : ℕ). decimal_from k acc) (omega arith)
]

pub decimal-show_nat : (n : ℕ) → decimal (show_nat n) ≡ n
unfolding show_nat
decimal-show_nat n = decimal_from-show_from (suc n) n [] (omega arith)

digit_first :
    (d : ℕ) (acc : Text)
    → d < 10
    → every is_digit acc ≡ true
    → every is_digit ((b'0' + d) ∷ acc) ≡ true
digit_first d acc lt h = ground arith

every-show_from :
    (fuel n : ℕ) (acc : Text)
    → every is_digit acc ≡ true
    → every is_digit (show_from fuel n acc) ≡ true
every-show_from zero n acc h = unfold show_from in h
every-show_from (suc fuel) n acc h = elim (Bool-cases (ltb n 10)) [
  | inl small ↦ ground (arith, show_from_small fuel n acc small)
  | inr large ↦ cc (
    show_from_large fuel n acc large,
    every-show_from fuel (n / 10) ((b'0' + n % 10) ∷ acc)
        (digit_first (n % 10) acc (omega arith) h),
  )
]

pub every-show_nat : (n : ℕ) → every is_digit (show_nat n) ≡ true
unfolding show_nat
every-show_nat n = every-show_from (suc n) n [] refl
