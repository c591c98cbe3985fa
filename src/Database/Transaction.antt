-- ===== src/Database/Transaction.antt =====
-- A transaction has all of its effects or none.
use sub2api_gate.Base.{◌≡◌, refl, some, ◌⊎◌, inl, inr, Result, ok, err}
use sub2api_gate.Database.{
  Db, Exec, Session, Fault, none_met, broken, answer_lost, execute, exit, transaction,
}

-- A session whose transaction has left the tables as they are in `after`.
abbrev opened : Db → Db → Session
opened before after = record { durable = before; working = some after }

module _ {A : Type 0} where
  exit_atomic :
      (fault : Fault) (before after : Db) (r : Result A)
      → ((exit fault (r, opened before after)).1.durable ≡ before)
        ⊎ (((a : A) × (r ≡ ok a)) × ((exit fault (r, opened before after)).1.durable ≡ after))
  unfolding exit
  exit_atomic (broken e) before after r = inl refl
  exit_atomic none_met before after (ok a) = inr ((a, refl), refl)
  exit_atomic none_met before after (err e) = inl refl
  exit_atomic (answer_lost e) before after (ok a) = inr ((a, refl), refl)
  exit_atomic (answer_lost e) before after (err e') = inl refl

  exit_ok :
      (fault : Fault) (before after : Db) (r : Result A) (a : A)
      → (exit fault (r, opened before after)).0 ≡ ok a
      → ◌≡◌ {A = Result A × Db}
          ((exit fault (r, opened before after)).0, (exit fault (r, opened before after)).1.durable)
          (r, after)
  unfolding exit
  exit_ok none_met before after (ok x) a h = refl
  exit_ok none_met before after (err e) a h = cc
  exit_ok (broken e) before after r a h = cc
  exit_ok (answer_lost e) before after (ok x) a h = cc
  exit_ok (answer_lost e) before after (err e') a h = cc

  -- After a transaction, what is durable is the database as it was before, or the body returned and it
  -- is the database as the body left it; the transaction reports success only in the second case, and
  -- with the body's result. This holds whether the connection is lost, an answer is lost, or neither.
  pub transaction_atomic :
      (fault : Fault) (body : Exec A) (d : Db)
      → (((transaction fault body d).1 ≡ d)
          ⊎ (((a : A) × ((body d).0 ≡ ok a)) × ((transaction fault body d).1 ≡ (body d).1)))
        × ((a : A) → (transaction fault body d).0 ≡ ok a → transaction fault body d ≡ body d)
  unfolding transaction execute
  transaction_atomic fault body d =
      let (r, d') = body d in (exit_atomic fault d d' r, exit_ok fault d d' r)
