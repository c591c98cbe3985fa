-- ===== src/Login.antt =====
-- `sanitize_login_auth` of sub2api-sync/sub2api_sync.py, and what `login` makes of the answer of the
-- upstream service.
pub mod Bounded
pub mod Account
pub mod Owned
mod Tests
use sub2api_gate.Base.{
  ℕ, ◌+◌, Bool, true, false, not, ◌&&◌, Option, none, some, List, [], ◌∷◌, Text, codes, ◌==◌,
  nat_eq, ltb, leb, is_empty, ℤ, pos, negsuc, magnitude, if◌then◌else◌, Raised, value_error,
  runtime_error, Result, ok, err, raise_if, ◌>>=◌, ◌>>◌,
}
use sub2api_gate.Payload.{Value, Fields, null, bool, int, real, str, arr, obj, field, end, get, has}
use sub2api_gate.Payload.Identifier.{max_safe_identifier}

abbrev pub max_login_response_bytes : ℕ
max_login_response_bytes = 65536

abbrev pub max_login_auth_token_bytes : ℕ
max_login_auth_token_bytes = 4096

abbrev pub max_login_auth_response_bytes : ℕ
max_login_auth_response_bytes = 14336

abbrev pub max_login_user_field_bytes : ℕ
max_login_user_field_bytes = 512

abbrev pub max_expires_in : ℕ
max_expires_in = 31536000

abbrev pub login_user_fields : List Text
login_user_fields =
    codes "id"
    ∷ codes "username"
    ∷ codes "name"
    ∷ codes "email"
    ∷ codes "role"
    ∷ codes "status"
    ∷ codes "balance"
    ∷ codes "avatar"
    ∷ codes "created_at"
    ∷ codes "updated_at"
    ∷ []

-- What is passed on.
pub record LoginAuth : Type 0 where
  pub access_token : Text
  pub refresh_token : Option Text
  pub expires_in : Option ℕ
  pub user : Option Fields

abbrev pub response_invalid : Raised
response_invalid = runtime_error (codes "sub2api_login_response_invalid")

-- The bytes of one character in UTF-8.
abbrev pub utf8_size : ℕ → ℕ
utf8_size c = if ltb c 0x80 then 1 else if ltb c 0x800 then 2 else if ltb c 0x10000 then 3 else 4

-- `len(text.encode())`; a lone surrogate raises a UnicodeEncodeError.
unfoldable pub encoded_length : Text → Result ℕ
encoded_length [] = ok 0
encoded_length (c ∷ t) = do
  n ← encoded_length t
  if leb 0xd800 c && leb c 0xdfff then err (value_error (codes "utf-8")) else ok (n + utf8_size c)

unfoldable pub bounded_text : Text → Result Text
unfolding encoded_length
bounded_text t = do
  n ← encoded_length t
  if ltb max_login_auth_token_bytes n then err response_invalid else ok t

unfoldable pub access_token_of : Value → Result Text
unfolding bounded_text
access_token_of (str t) = if is_empty t then err response_invalid else bounded_text t
access_token_of v = err response_invalid

-- `value["refresh_token"]`
unfoldable pub token_of : Value → Result (Option Text)
unfolding bounded_text
token_of (str t) = do kept ← bounded_text t; ok (some kept)
token_of v = err response_invalid

unfoldable pub refresh_token_of : Fields → Result (Option Text)
unfolding token_of
refresh_token_of fs =
    if has (codes "refresh_token") fs then token_of (get (codes "refresh_token") fs) else ok none

-- `value["expires_in"]`
unfoldable pub seconds_of : Value → Result (Option ℕ)
seconds_of (int (pos n)) = if leb n max_expires_in then ok (some n) else err response_invalid
seconds_of v = err response_invalid

unfoldable pub expires_in_of : Fields → Result (Option ℕ)
unfolding seconds_of
expires_in_of fs =
    if has (codes "expires_in") fs then seconds_of (get (codes "expires_in") fs) else ok none

-- Whether a field of the user is passed on.
unfoldable pub is_kept : Value → Result Bool
unfolding encoded_length
is_kept (bool b) = ok true
is_kept (int n) = ok (leb (magnitude n) max_safe_identifier)
is_kept (str t) = do n ← encoded_length t; ok (leb n max_login_user_field_bytes)
is_kept v = ok false

abbrev pub keep_field : Text → Value → Fields → Bool → Fields
keep_field name v rest kept = if kept then field name v rest else rest

-- The loop over the names; a name that the user has not is passed over.
unfoldable pub summary : List Text → Fields → Result Fields
unfolding is_kept
summary [] user = ok end
summary (name ∷ names) user = do
  kept ← if has name user then is_kept (get name user) else ok false
  rest ← summary names user
  ok (keep_field name (get name user) rest kept)

-- `value["user"]`
unfoldable pub summary_of : Value → Result (Option Fields)
unfolding summary
summary_of (obj user) = do shown ← summary login_user_fields user; ok (some shown)
summary_of v = err response_invalid

unfoldable pub user_of : Fields → Result (Option Fields)
unfolding summary_of
user_of fs = if has (codes "user") fs then summary_of (get (codes "user") fs) else ok none

-- What the request to the upstream service comes to: an `HTTPError` by its code, another exception, or
-- an answer with its `content-length` header, the number of bytes that were read, and what
-- `json.loads` makes of them.
pub data Upstream : Type 0 where
  http_error : ℕ → Upstream
  failed : Raised → Upstream
  answered : Text → ℕ → Result Value → Upstream

abbrev pub response_too_large : Raised
response_too_large = runtime_error (codes "sub2api_login_response_too_large")

abbrev pub login_rejected : Raised
login_rejected = runtime_error (codes "sub2api_login_rejected")

abbrev pub account_mismatch : Raised
account_mismatch = runtime_error (codes "sub2api_login_response_identity_mismatch")

-- `int(declared_length) > MAX_LOGIN_RESPONSE_BYTES`, by what `int` gives.
unfoldable pub check_declared : Option ℤ → Result (Unit {0})
check_declared none = err (runtime_error (codes "sub2api_login_response_invalid_length"))
check_declared (some (negsuc n)) = ok tt
check_declared (some (pos n)) = raise_if (ltb max_login_response_bytes n) response_too_large

-- `payload.get("code") != 0`: `False` and a float may be equal to 0 too.
unfoldable pub is_zero : Value → Bool
is_zero (int (pos n)) = n == 0
is_zero (bool b) = not b
is_zero (real zero_value t) = zero_value
is_zero v = false

unfoldable pub upstream_data : Value → Result Value
unfolding is_zero
upstream_data (obj fs) =
    if is_zero (get (codes "code") fs) then ok (get (codes "data") fs) else err login_rejected
upstream_data v = err login_rejected

-- The test that the account of the answer is the one that was resolved.
unfoldable pub is_account : ℕ → Value → Bool
is_account user_id (int (pos n)) = n == user_id
is_account user_id v = false

unfoldable pub confirm_account : ℕ → LoginAuth → Option Fields → Result LoginAuth
unfolding is_account
confirm_account user_id auth none = err account_mismatch
confirm_account user_id auth (some user) =
    if is_account user_id (get (codes "id") user) then ok auth else err account_mismatch

module _ (int_of : Text → Option ℤ) (dumps_length : LoginAuth → ℕ) where
  unfoldable pub sanitize_fields : Fields → Result LoginAuth
  unfolding access_token_of refresh_token_of expires_in_of user_of
  sanitize_fields fs = do
    access ← access_token_of (get (codes "access_token") fs)
    refresh ← refresh_token_of fs
    expires ← expires_in_of fs
    user ← user_of fs
    let auth : LoginAuth = record {
      access_token = access;
      refresh_token = refresh;
      expires_in = expires;
      user = user;
    }
    if ltb max_login_auth_response_bytes (dumps_length auth) then err response_invalid else ok auth

  unfoldable pub sanitize_login_auth : Value → Result LoginAuth
  unfolding sanitize_fields
  sanitize_login_auth (obj fs) = sanitize_fields fs
  sanitize_login_auth v = err response_invalid

  unfoldable pub read_upstream : Upstream → Result Value
  unfolding check_declared
  read_upstream (http_error code) =
      err
        (if code == 429 then runtime_error (codes "sub2api_login_rate_limited") else login_rejected)
  read_upstream (failed e) = err e
  read_upstream (answered declared size parsed) = do
    if is_empty declared then ok tt else check_declared (int_of declared)
    raise_if (ltb max_login_response_bytes size) response_too_large
    parsed

  -- From the answer of the upstream service to what is passed on.
  unfoldable pub finish_login : ℕ → Upstream → Result LoginAuth
  unfolding read_upstream upstream_data sanitize_login_auth confirm_account
  finish_login user_id upstream = do
    body ← read_upstream upstream
    found ← upstream_data body
    auth ← sanitize_login_auth found
    confirm_account user_id auth auth.user
