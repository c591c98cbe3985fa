-- ===== src/Login/Bounded.antt =====
-- What `sanitize_login_auth` passes on.
use mathlib.Core.Path.{subst}
use sub2api_gate.Base.{
  ℕ, ◌≡◌, ◌≤◌, Bool, true, false, Bool-cases, inl, inr, Option, none, some, List, [], ◌∷◌, Text,
  codes, text_eq, text_eqb_iff, arith, ltb, leb, member, is_empty, ℤ, pos, negsuc, magnitude,
  if◌then◌else◌, Result, ok, err, ◌>>=◌, >>=-eq-ok,
}
use sub2api_gate.Payload.{Value, Fields, null, bool, int, real, str, arr, obj, field, end, get, has}
use sub2api_gate.Payload.Identifier.{max_safe_identifier}
use sub2api_gate.Login.{
  LoginAuth, max_login_auth_token_bytes, max_login_auth_response_bytes, max_login_user_field_bytes,
  max_expires_in, login_user_fields, encoded_length, bounded_text, access_token_of, token_of,
  refresh_token_of, seconds_of, expires_in_of, is_kept, keep_field, summary, summary_of, user_of,
  sanitize_fields, sanitize_login_auth, response_invalid,
}

-- A text of so many bytes at most.
abbrev pub IsShort : ℕ → Text → Type 0
IsShort bound t = (n : ℕ) × (encoded_length t ≡ ok n) × (n ≤ bound)

-- A value that may be shown: no object, no list, no float, no null, and nothing large.
abbrev pub IsSmall : Value → Type 0
IsSmall (bool b) = Unit {0}
IsSmall (int n) = magnitude n ≤ max_safe_identifier
IsSmall (str t) = IsShort max_login_user_field_bytes t
IsSmall v = ⊥

-- Fields with names of a list and small values.
abbrev pub AreSmall : List Text → Fields → Type 0
AreSmall names end = Unit {0}
AreSmall names (field name v rest) = (member name names ≡ true) × IsSmall v × AreSmall names rest

pub record IsBounded (dumps_length : LoginAuth → ℕ) (auth : LoginAuth) : Type 0 where
  pub access :
      (is_empty auth.access_token ≡ false) × IsShort max_login_auth_token_bytes auth.access_token
  pub refresh : (t : Text) → auth.refresh_token ≡ some t → IsShort max_login_auth_token_bytes t
  pub expires : (n : ℕ) → auth.expires_in ≡ some n → n ≤ max_expires_in
  pub user : (fs : Fields) → auth.user ≡ some fs → AreSmall login_user_fields fs
  pub whole : dumps_length auth ≤ max_login_auth_response_bytes

bounded_text-IsShort :
    (t kept : Text) → bounded_text t ≡ ok kept → (t ≡ kept) × IsShort max_login_auth_token_bytes t
unfolding bounded_text
bounded_text-IsShort t kept h =
    let (n, e, h1) =
      >>=-eq-ok (encoded_length t) (λ n. if ltb max_login_auth_token_bytes n then _ else ok t) h in
    (ground arith, (n, e, ground arith))

is_kept-IsSmall : (v : Value) → is_kept v ≡ ok true → IsSmall v
unfolding is_kept
is_kept-IsSmall (bool b) h = tt
is_kept-IsSmall (int n) h = ground arith
is_kept-IsSmall (str t) h =
    let (n, e, h1) = >>=-eq-ok (encoded_length t) (λ n. ok (leb n max_login_user_field_bytes)) h in
    (n, e, ground arith)
is_kept-IsSmall null h = cc
is_kept-IsSmall (real z t) h = cc
is_kept-IsSmall (arr vs) h = cc
is_kept-IsSmall (obj fs) h = cc

member_later :
    (name : Text) (names : List Text) (first_name : Text)
    → member name names ≡ true
    → member name (first_name ∷ names) ≡ true
member_later name names first_name h = ground arith

AreSmall_later :
    (first_name : Text) (names : List Text) (fs : Fields)
    → AreSmall names fs
    → AreSmall (first_name ∷ names) fs
AreSmall_later first_name names end h = tt
AreSmall_later first_name names (field name v rest) h =
    (member_later name names first_name h.0, h.1, AreSmall_later first_name names rest h.2)

kept_if_there :
    (b : Bool) (v : Value) → (if b then is_kept v else ok false) ≡ ok true → is_kept v ≡ ok true
kept_if_there true v h = h
kept_if_there false v h = cc

summary-AreSmall :
    (names : List Text) (user shown : Fields) → summary names user ≡ ok shown → AreSmall names shown
unfolding summary
summary-AreSmall [] user shown h = let same : end ≡ shown = cc in subst (AreSmall []) same tt
summary-AreSmall (name ∷ names) user shown h =
    let (kept, e, h1) =
      >>=-eq-ok (if has name user then is_kept (get name user) else ok false)
        (behind name names user) h in
    let (rest, e2, h2) = >>=-eq-ok (summary names user) (joined name user kept) h1 in
    let small = AreSmall_later name names rest (summary-AreSmall names user rest e2) in
    let same : keep_field name (get name user) rest kept ≡ shown = cc in
    subst (AreSmall (name ∷ names)) same (go name names user rest kept small e)
  where
    joined : Text → Fields → Bool → Fields → Result Fields
    joined name user kept rest = ok (keep_field name (get name user) rest kept)

    behind : Text → List Text → Fields → Bool → Result Fields
    behind name names user kept = summary names user >>= joined name user kept

    go :
        (name : Text) (names : List Text) (user rest : Fields) (kept : Bool)
        → AreSmall (name ∷ names) rest
        → (if has name user then is_kept (get name user) else ok false) ≡ ok kept
        → AreSmall (name ∷ names) (keep_field name (get name user) rest kept)
    go name names user rest true small e = (
      ground (arith, text_eqb_iff name name),
      is_kept-IsSmall (get name user) (kept_if_there (has name user) (get name user) e),
      small,
    )
    go name names user rest false small e = small

access_token_of-IsShort :
    (v : Value) (t : Text)
    → access_token_of v ≡ ok t
    → (is_empty t ≡ false) × IsShort max_login_auth_token_bytes t
unfolding access_token_of
access_token_of-IsShort (str s) t h = elim (Bool-cases (is_empty s)) [
  | inl nothing ↦ let clash = rw nothing at h in cc
  | inr something ↦
      let (same, short) = bounded_text-IsShort s t (rw something at h) in
      subst (λ (x : Text). (is_empty x ≡ false) × IsShort max_login_auth_token_bytes x) same
        (something, short)
]
access_token_of-IsShort null t h = cc
access_token_of-IsShort (bool b) t h = cc
access_token_of-IsShort (int n) t h = cc
access_token_of-IsShort (real z s) t h = cc
access_token_of-IsShort (arr vs) t h = cc
access_token_of-IsShort (obj fs) t h = cc

token_of-IsShort :
    (v : Value) (o : Option Text)
    → token_of v ≡ ok o
    → (t : Text) → o ≡ some t
    → IsShort max_login_auth_token_bytes t
unfolding token_of
token_of-IsShort (str s) o h t e =
    let (kept, e1, h1) = >>=-eq-ok (bounded_text s) (λ k. ok (some k)) h in
    let (same, short) = bounded_text-IsShort s kept e1 in
    let here : s ≡ t = cc in subst (IsShort max_login_auth_token_bytes) here short
token_of-IsShort null o h t e = cc
token_of-IsShort (bool b) o h t e = cc
token_of-IsShort (int n) o h t e = cc
token_of-IsShort (real z s) o h t e = cc
token_of-IsShort (arr vs) o h t e = cc
token_of-IsShort (obj fs) o h t e = cc

refresh_token_of-IsShort :
    (fs : Fields) (o : Option Text)
    → refresh_token_of fs ≡ ok o
    → (t : Text) → o ≡ some t
    → IsShort max_login_auth_token_bytes t
unfolding refresh_token_of
refresh_token_of-IsShort fs o h t e = elim (Bool-cases (has (codes "refresh_token") fs)) [
  | inl there ↦ token_of-IsShort (get (codes "refresh_token") fs) o (rw there at h) t e
  | inr gone ↦ let clash : Path (Result (Option Text)) (ok none) (ok o) = rw gone at h in cc
]

seconds_of_bound :
    (v : Value) (o : Option ℕ) → seconds_of v ≡ ok o → (n : ℕ) → o ≡ some n → n ≤ max_expires_in
unfolding seconds_of
seconds_of_bound (int (pos k)) o h n e = ground arith
seconds_of_bound (int (negsuc k)) o h n e = cc
seconds_of_bound (str s) o h n e = cc
seconds_of_bound null o h n e = cc
seconds_of_bound (bool b) o h n e = cc
seconds_of_bound (real z s) o h n e = cc
seconds_of_bound (arr vs) o h n e = cc
seconds_of_bound (obj fs) o h n e = cc

expires_in_of_bound :
    (fs : Fields) (o : Option ℕ)
    → expires_in_of fs ≡ ok o
    → (n : ℕ) → o ≡ some n
    → n ≤ max_expires_in
unfolding expires_in_of
expires_in_of_bound fs o h n e = elim (Bool-cases (has (codes "expires_in") fs)) [
  | inl there ↦ seconds_of_bound (get (codes "expires_in") fs) o (rw there at h) n e
  | inr gone ↦ let clash : Path (Result (Option ℕ)) (ok none) (ok o) = rw gone at h in cc
]

summary_of-AreSmall :
    (v : Value) (o : Option Fields)
    → summary_of v ≡ ok o
    → (fs : Fields) → o ≡ some fs
    → AreSmall login_user_fields fs
unfolding summary_of
summary_of-AreSmall (obj user) o h fs e =
    let (shown, e1, h1) = >>=-eq-ok (summary login_user_fields user) (λ k. ok (some k)) h in
    let same : shown ≡ fs = cc in
    subst (AreSmall login_user_fields) same (summary-AreSmall login_user_fields user shown e1)
summary_of-AreSmall null o h fs e = cc
summary_of-AreSmall (bool b) o h fs e = cc
summary_of-AreSmall (int n) o h fs e = cc
summary_of-AreSmall (real z s) o h fs e = cc
summary_of-AreSmall (arr vs) o h fs e = cc
summary_of-AreSmall (str s) o h fs e = cc

user_of-AreSmall :
    (given : Fields) (o : Option Fields)
    → user_of given ≡ ok o
    → (fs : Fields) → o ≡ some fs
    → AreSmall login_user_fields fs
unfolding user_of
user_of-AreSmall given o h fs e = elim (Bool-cases (has (codes "user") given)) [
  | inl there ↦ summary_of-AreSmall (get (codes "user") given) o (rw there at h) fs e
  | inr gone ↦ let clash : Path (Result (Option Fields)) (ok none) (ok o) = rw gone at h in cc
]

module _ (int_of : Text → Option ℤ) (dumps_length : LoginAuth → ℕ) where
  sanitize_fields-IsBounded :
      (fs : Fields) (auth : LoginAuth)
      → sanitize_fields int_of dumps_length fs ≡ ok auth
      → IsBounded dumps_length auth
  unfolding sanitize_fields
  sanitize_fields-IsBounded fs auth h =
      let (access, e1, h1) =
        >>=-eq-ok (access_token_of (get (codes "access_token") fs)) for_access h in
      let (refresh, e2, h2) = >>=-eq-ok (refresh_token_of fs) (for_refresh access) h1 in
      let (expires, e3, h3) = >>=-eq-ok (expires_in_of fs) (for_expires access refresh) h2 in
      let (user, e4, h4) = >>=-eq-ok (user_of fs) (made access refresh expires) h3 in
      let (same, small) =
        within
          (record {
            access_token = access;
            refresh_token = refresh;
            expires_in = expires;
            user = user;
          })
          h4 in
      subst (IsBounded dumps_length) same (record {
        access = access_token_of-IsShort (get (codes "access_token") fs) access e1;
        refresh = refresh_token_of-IsShort fs refresh e2;
        expires = expires_in_of_bound fs expires e3;
        user = user_of-AreSmall fs user e4;
        whole = small;
      })
    where
      measured : LoginAuth → Result LoginAuth
      measured new =
          if ltb max_login_auth_response_bytes (dumps_length new)
          then err response_invalid
          else ok new

      made : Text → Option Text → Option ℕ → Option Fields → Result LoginAuth
      made access refresh expires user = measured (record {
        access_token = access;
        refresh_token = refresh;
        expires_in = expires;
        user = user;
      })

      for_expires : Text → Option Text → Option ℕ → Result LoginAuth
      for_expires access refresh expires = user_of fs >>= made access refresh expires

      for_refresh : Text → Option Text → Result LoginAuth
      for_refresh access refresh = expires_in_of fs >>= for_expires access refresh

      for_access : Text → Result LoginAuth
      for_access access = refresh_token_of fs >>= for_refresh access

      within :
          (new : LoginAuth)
          → measured new ≡ ok auth
          → (new ≡ auth) × (dumps_length new ≤ max_login_auth_response_bytes)
      within new k = elim (Bool-cases (ltb max_login_auth_response_bytes (dumps_length new))) [
        | inl long ↦ let clash = rw long at k in cc
        | inr short ↦
            let same : Path (Result LoginAuth) (ok new) (ok auth) = rw short at k in
            (cc, ground arith)
      ]

  -- What is passed on of an upstream answer is bounded in each part: tokens of 4096 bytes at most, the
  -- first of them not empty, a lifetime of a year at most, fields of the user with one of ten names and
  -- a small value, and the whole of 14336 bytes at most.
  pub sanitize_login_auth-IsBounded :
      (v : Value) (auth : LoginAuth)
      → sanitize_login_auth int_of dumps_length v ≡ ok auth
      → IsBounded dumps_length auth
  unfolding sanitize_login_auth
  sanitize_login_auth-IsBounded (obj fs) auth h = sanitize_fields-IsBounded fs auth h
  sanitize_login_auth-IsBounded null auth h = cc
  sanitize_login_auth-IsBounded (bool b) auth h = cc
  sanitize_login_auth-IsBounded (int n) auth h = cc
  sanitize_login_auth-IsBounded (real z s) auth h = cc
  sanitize_login_auth-IsBounded (arr vs) auth h = cc
  sanitize_login_auth-IsBounded (str s) auth h = cc
