-- ===== src/Login/Owned.antt =====
-- A login that returns is one to the invite's own account.
use mathlib.Core.Path.{subst}
use sub2api_gate.Base.{
  ℕ, ◌≡◌, refl, sym, ap, ◌∙◌, true, false, Bool-cases, inl, inr, Option, none, some, Text, codes,
  ◌==◌, text_eq, nat_eq, nat_eqb_iff, arith, ltb, strip, ℤ, pos, negsuc, Result, ok, >>=-eq-ok,
}
use sub2api_gate.Payload.{Python, Value, Fields, null, bool, int, real, str, arr, obj, get, text_of}
use sub2api_gate.Payload.Identifier.{payload_user_id}
use sub2api_gate.Identity.{Identity, payload_identity}
use sub2api_gate.Database.{Db, Exec, ◌>>=◌, ◌>>◌, pure, lift, Fault, transaction}
use sub2api_gate.Database.ReadOnly.{bind_ok, lift_ok}
use sub2api_gate.Database.Transaction.{transaction_atomic}
use sub2api_gate.Invite.{InviteRow, owner_of, resolve_invite_user}
use sub2api_gate.Invite.Owned.{OwnersUnique}
use sub2api_gate.Invite.Resolve.{resolve_invite_user-Resolved}
use sub2api_gate.Login.{
  LoginAuth, Upstream, read_upstream, upstream_data, sanitize_login_auth, is_account,
  confirm_account, finish_login,
}
use sub2api_gate.Login.Bounded.{IsBounded, sanitize_login_auth-IsBounded}
use sub2api_gate.Login.Account.{LoginReply, check_row, login_row, check_given, login}

is_account_same : (id : ℕ) (v : Value) → is_account id v ≡ true → v ≡ int (pos id)
unfolding is_account
is_account_same id (int (pos n)) h = ap (λ (k : ℕ). int (pos k)) ((nat_eqb_iff n id).0 h)
is_account_same id (int (negsuc n)) h = cc
is_account_same id null h = cc
is_account_same id (bool b) h = cc
is_account_same id (real z s) h = cc
is_account_same id (arr vs) h = cc
is_account_same id (str s) h = cc
is_account_same id (obj fs) h = cc

confirm_account_ok :
    (id : ℕ) (auth : LoginAuth) (o : Option Fields) (kept : LoginAuth)
    → confirm_account id auth o ≡ ok kept
    → (auth ≡ kept) × ((fs : Fields) × (o ≡ some fs) × (get (codes "id") fs ≡ int (pos id)))
unfolding confirm_account
confirm_account_ok id auth none kept h = cc
confirm_account_ok id auth (some fs) kept h =
    elim (Bool-cases (is_account id (get (codes "id") fs))) [
      | inl same ↦
          let h1 : Path (Result LoginAuth) (ok auth) (ok kept) = rw same at h in
          (cc, (fs, refl, is_account_same id (get (codes "id") fs) same))
      | inr differs ↦ let clash = rw differs at h in cc
    ]

-- An answer that is passed on is bounded, and is about the account that was asked for.
pub record Passed (dumps_length : LoginAuth → ℕ) (id : ℕ) (auth : LoginAuth) : Type 0 where
  pub bounded : IsBounded dumps_length auth
  pub account : (fs : Fields) × (auth.user ≡ some fs) × (get (codes "id") fs ≡ int (pos id))

finish_login-Passed :
    (int_of : Text → Option ℤ) (dumps_length : LoginAuth → ℕ) (id : ℕ) (answer : Upstream)
    (auth : LoginAuth)
    → finish_login int_of dumps_length id answer ≡ ok auth
    → Passed dumps_length id auth
unfolding finish_login
finish_login-Passed int_of dumps_length id answer auth h =
    let (body, e1, h1) = >>=-eq-ok (read_upstream int_of dumps_length answer) _ h in
    let (found, e2, h2) = >>=-eq-ok (upstream_data body) _ h1 in
    let (clean, e3, h3) =
      >>=-eq-ok (sanitize_login_auth int_of dumps_length found) (λ a. confirm_account id a a.user)
        h2 in
    let (same, account) = confirm_account_ok id clean clean.user auth h3 in
    subst (Passed dumps_length id) same (record {
      bounded = sanitize_login_auth-IsBounded int_of dumps_length found clean e3;
      account = account;
    })

module _ (py : Python) (fingerprint : Text → Text) (int_of : Text → Option ℤ)
    (dumps_length : LoginAuth → ℕ) (upstream : Text → Text → Upstream) where
  check_row_ok :
      (email : Text) (o : Option InviteRow) (d : Db) (id : ℕ) (d' : Db)
      → check_row py fingerprint int_of dumps_length upstream email o d ≡ (ok id, d')
      → (row : InviteRow) × (o ≡ some row) × (row.id ≡ id) × (d ≡ d')
  unfolding check_row
  check_row_ok email none d id d' h = cc
  check_row_ok email (some row) d id d' h =
      elim (Bool-cases (py.lower (strip row.email) == py.lower email)) [
        | inl same ↦
            let h1 : Path (Result ℕ × Db) (ok row.id, d) (ok id, d') = rw same at h in
            (row, refl, cc, cc)
        | inr differs ↦ let clash = rw differs at h in cc
      ]

  login_row_owned :
      (who : Identity) (asked : ℕ) (email : Text) (d : Db) (id : ℕ) (d' : Db)
      → OwnersUnique d
      → login_row py fingerprint int_of dumps_length upstream who asked email d ≡ (ok id, d')
      → (owner_of id d'.owners ≡ some (fingerprint who.uuid))
        × (d' ≡ record d { owners = d'.owners })
  unfolding login_row
  login_row_owned who asked email d id d' unique h =
      let (o, d1, h1, h2) =
        bind_ok
          (resolve_invite_user fingerprint who.uuid who.legacy_username who.username asked 0 false
            (ltb 0 asked))
          (check_row py fingerprint int_of dumps_length upstream email) d id d' h in
      let (row, is_row, same_id, last) = check_row_ok email o d1 id d' h2 in
      let r =
        resolve_invite_user-Resolved fingerprint who.uuid who.legacy_username who.username asked 0
          false (ltb 0 asked) row d d1 unique
          (h1 ∙ ap (λ (x : Option InviteRow). (ok x, d1)) is_row) in
      subst
        (λ (x : Db).
          (owner_of id x.owners ≡ some (fingerprint who.uuid))
          × (x ≡ record d { owners = x.owners }))
        last
        (
          subst (λ (n : ℕ). owner_of n d1.owners ≡ some (fingerprint who.uuid)) same_id
              r.owned_row.owned,
          r.grew.rest,
        )

  check_given_same :
      (email password : Text) (d : Db) (u : Unit {0}) (d' : Db)
      → check_given py fingerprint int_of dumps_length upstream email password d ≡ (ok u, d')
      → d' ≡ d
  check_given_same email password d u d' h = ground arith

  -- The answer is made of what is known behind the transaction.
  ended :
      (fp uuid : Text) (id : ℕ) (auth : LoginAuth) (d d2 : Db) (reply : LoginReply) (d' : Db)
      → owner_of id d2.owners ≡ some fp
      → d2 ≡ record d { owners = d2.owners }
      → Passed dumps_length id auth
      → Path (Result LoginReply × Db) (ok (record { uuid = uuid; auth = auth }), d2) (ok reply, d')
      → (owner_of id d'.owners ≡ some fp)
        × ((d' ≡ record d { owners = d'.owners }) × Passed dumps_length id reply.auth)
  ended fp uuid id auth d d2 reply d' owned rest passed h =
      let last : d2 ≡ d' = cc in
      let made : Path LoginReply (record { uuid = uuid; auth = auth }) reply = cc in
      (
        subst (λ (x : Db). owner_of id x.owners ≡ some fp) last owned,
        (
          subst (λ (x : Db). x ≡ record d { owners = x.owners }) last rest,
          subst (λ (r : LoginReply). Passed dumps_length id r.auth) made passed,
        ),
      )

  -- A login that returns is to an account whose recorded owner is the invite: the user of the answer has
  -- the number of that account, and the answer is bounded in each of its parts. The record of the
  -- owner is all that is written. The table of owners is taken to have unique users.
  pub login-Passed :
      (fault : Fault) (payload : Fields) (d : Db) (reply : LoginReply) (d' : Db)
      → OwnersUnique d
      → login py fingerprint int_of dumps_length upstream fault payload d ≡ (ok reply, d')
      → (who : Identity) × (id : ℕ) × (payload_identity py payload ≡ ok who)
        × (owner_of id d'.owners ≡ some (fingerprint who.uuid))
        × (d' ≡ record d { owners = d'.owners })
        × Passed dumps_length id reply.auth
  unfolding login
  login-Passed fault payload d reply d' unique h =
      let (who, e, h1) = lift_ok (payload_identity py payload) for_who d reply d' h in
      let (u, d1, h2, h3) =
        bind_ok (check_given py fingerprint int_of dumps_length upstream email password)
          (λ _. for_given who) d reply d' h1 in
      let (asked, e2, h4) = lift_ok (payload_user_id payload) (for_asked who) d1 reply d' h3 in
      let (id, d2, h5, h6) =
        bind_ok (transaction fault (body who asked)) (for_id who) d1 reply d' h4 in
      let (auth, e3, h7) =
        lift_ok (finish_login int_of dumps_length id (upstream email password)) (for_auth who) d2
          reply d' h6 in
      let same : d1 ≡ d = check_given_same email password d u d1 h2 in
      let ran : transaction fault (body who asked) d1 ≡ body who asked d1 =
        (transaction_atomic fault (body who asked) d1).1 id (ap (λ (x : Result ℕ × Db). x.0) h5) in
      let ran_d : body who asked d ≡ (ok id, d2) = ap (body who asked) (sym same) ∙ sym ran ∙ h5 in
      let (owned, rest) = login_row_owned who asked email d id d2 unique ran_d in
      let (owned', (rest', passed)) =
        ended (fingerprint who.uuid) who.uuid id auth d d2 reply d' owned rest
          (finish_login-Passed int_of dumps_length id (upstream email password) auth e3) h7 in
      (who, id, e, owned', rest', passed)
    where
      email : Text
      email = strip (text_of py (get (codes "email") payload))

      password : Text
      password = strip (text_of py (get (codes "loginPassword") payload))

      body : Identity → ℕ → Exec ℕ
      body who asked = login_row py fingerprint int_of dumps_length upstream who asked email

      for_auth : Identity → LoginAuth → Exec LoginReply
      for_auth who auth = pure (record { uuid = who.uuid; auth = auth })

      for_id : Identity → ℕ → Exec LoginReply
      for_id who id =
          lift (finish_login int_of dumps_length id (upstream email password)) >>= for_auth who

      for_asked : Identity → ℕ → Exec LoginReply
      for_asked who asked = transaction fault (body who asked) >>= for_id who

      for_given : Identity → Exec LoginReply
      for_given who = lift (payload_user_id payload) >>= for_asked who

      for_who : Identity → Exec LoginReply
      for_who who =
          check_given py fingerprint int_of dumps_length upstream email password >> for_given who
