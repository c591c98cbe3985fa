-- ===== src/Database/Keeps.antt =====
-- Code that leaves a part of the database as it is, such as some of its tables.
use sub2api_gate.Base.{
  ◌≡◌, refl, ap, ◌∙◌, Bool, true, false, Result, ok, err, Raised, if◌then◌else◌,
}
use sub2api_gate.Database.{Db, Exec, ◌>>=◌, pure, raise, lift, select, update}
use sub2api_gate.Database.ReadOnly.{ReadOnly}

module _ {B : Type 0} (part : Db → B) where
  pub record Keeps {A : Type 0} (m : Exec A) : Type 0 where
    pub at : (d : Db) → part (m d).1 ≡ part d

  pub Keeps-ReadOnly : {A : Type 0} (m : Exec A) → ReadOnly m → Keeps m
  Keeps-ReadOnly m h = record { at = λ d. ap part (h.at d) }

  pub Keeps-pure : {A : Type 0} (a : A) → Keeps (pure a)
  Keeps-pure a = record { at = λ d. refl }

  pub Keeps-raise : {A : Type 0} (e : Raised) → Keeps (raise {A = A} e)
  Keeps-raise e = record { at = λ d. refl }

  pub Keeps-lift : {A : Type 0} (r : Result A) → Keeps (lift r)
  Keeps-lift r = record { at = λ d. refl }

  pub Keeps-select : {A : Type 0} (f : Db → A) → Keeps (select f)
  Keeps-select f = record { at = λ d. refl }

  pub Keeps-update : (f : Db → Db) → ((d : Db) → part (f d) ≡ part d) → Keeps (update f)
  Keeps-update f h = record { at = h }

  pub Keeps-if :
      {A : Type 0} (b : Bool) (m n : Exec A) → Keeps m → Keeps n → Keeps (if b then m else n)
  Keeps-if true m n h k = h
  Keeps-if false m n h k = k

  module _ {A C : Type 0} where
    abbrev continue : (A → Exec C) → Result A × Db → Result C × Db
    continue f (r, d) = elim r [ ok a ↦ f a d | err e ↦ (err e, d) ]

    continue-Keeps :
        (f : A → Exec C) (r : Result A) (d : Db)
        → ((a : A) → Keeps (f a))
        → part (continue f (r, d)).1 ≡ part d
    continue-Keeps f (ok a) d h = (h a).at d
    continue-Keeps f (err e) d h = refl

    pub Keeps-bind :
        (m : Exec A) (f : A → Exec C) → Keeps m → ((a : A) → Keeps (f a)) → Keeps (m >>= f)
    Keeps-bind m f h k = record { at = λ d. let (r, d') = m d in continue-Keeps f r d' k ∙ h.at d }

pub ruleset keeps_rules =
    (Keeps-pure, Keeps-raise, Keeps-lift, Keeps-select, Keeps-update, Keeps-if, Keeps-bind)
