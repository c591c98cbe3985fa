-- ===== src/Database/ReadOnly.antt =====
-- Code that writes nothing, and the parts of a run that returned.
use sub2api_gate.Base.{
  ◌≡◌, refl, ap, ◌∙◌, Bool, true, false, Result, ok, err, Raised, if◌then◌else◌,
}
use sub2api_gate.Database.{Db, Exec, ◌>>=◌, pure, raise, lift}

module _ {A : Type 0} where
  pub record ReadOnly (m : Exec A) : Type 0 where
    pub at : (d : Db) → (m d).1 ≡ d

  pub ReadOnly-pure : (a : A) → ReadOnly (pure a)
  ReadOnly-pure a = record { at = λ d. refl }

  pub ReadOnly-raise : (e : Raised) → ReadOnly (raise {A = A} e)
  ReadOnly-raise e = record { at = λ d. refl }

  pub ReadOnly-if :
      (b : Bool) (m n : Exec A) → ReadOnly m → ReadOnly n → ReadOnly (if b then m else n)
  ReadOnly-if true m n h k = h
  ReadOnly-if false m n h k = k

module _ {A B : Type 0} where
  abbrev continue : (A → Exec B) → Result A × Db → Result B × Db
  continue f (r, d) = elim r [ ok a ↦ f a d | err e ↦ (err e, d) ]

  continue-ReadOnly :
      (f : A → Exec B) (r : Result A) (d : Db)
      → ((a : A) → ReadOnly (f a))
      → (continue f (r, d)).1 ≡ d
  continue-ReadOnly f (ok a) d h = (h a).at d
  continue-ReadOnly f (err e) d h = refl

  pub ReadOnly-bind :
      (m : Exec A) (f : A → Exec B) → ReadOnly m → ((a : A) → ReadOnly (f a)) → ReadOnly (m >>= f)
  ReadOnly-bind m f h k = record {
    at = λ d. let (r, d') = m d in continue-ReadOnly f r d' k ∙ h.at d;
  }

  continue_ok :
      (f : A → Exec B) (x : Result A × Db) (m : Result A × Db) (b : B) (d' : Db)
      → m ≡ x
      → continue f x ≡ (ok b, d')
      → (a : A) × (d1 : Db) × (m ≡ (ok a, d1)) × (f a d1 ≡ (ok b, d'))
  continue_ok f (ok a, d1) m b d' e h = (a, d1, e, h)
  continue_ok f (err x, d1) m b d' e h = cc

  -- What a run is, once it is known what its first part returns.
  pub bind_at :
      (m : Exec A) (f : A → Exec B) (d : Db) (a : A) (d1 : Db)
      → m d ≡ (ok a, d1)
      → (m >>= f) d ≡ f a d1
  bind_at m f d a d1 h = ap (continue f) h

  -- The parts of a run that returned.
  pub bind_ok :
      (m : Exec A) (f : A → Exec B) (d : Db) (b : B) (d' : Db)
      → (m >>= f) d ≡ (ok b, d')
      → (a : A) × (d1 : Db) × (m d ≡ (ok a, d1)) × (f a d1 ≡ (ok b, d'))
  bind_ok m f d b d' h = continue_ok f (m d) (m d) b d' refl h

  pub lift_ok :
      (r : Result A) (f : A → Exec B) (d : Db) (b : B) (d' : Db)
      → (lift r >>= f) d ≡ (ok b, d')
      → (a : A) × (r ≡ ok a) × (f a d ≡ (ok b, d'))
  lift_ok (ok a) f d b d' h = (a, refl, h)
  lift_ok (err e) f d b d' h = cc

pub ruleset read_only_rules = (ReadOnly-pure, ReadOnly-raise, ReadOnly-if, ReadOnly-bind)
