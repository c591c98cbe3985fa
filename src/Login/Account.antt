-- ===== src/Login/Account.antt =====
-- `login` of sub2api-sync/sub2api_sync.py: whose account it logs in to.
use sub2api_gate.Base.{
  ℕ, false, ◌||◌, Option, none, some, Text, codes, ◌==◌, text_eq, nat_eq, ltb, is_empty, strip, ℤ,
  if◌then◌else◌, value_error,
}
use sub2api_gate.Payload.{Python, Fields, get, text_of}
use sub2api_gate.Payload.Identifier.{payload_user_id}
use sub2api_gate.Identity.{Identity, payload_identity}
use sub2api_gate.Database.{Exec, ◌>>=◌, ◌>>◌, pure, raise, lift, Fault, transaction}
use sub2api_gate.Invite.{InviteRow, invite_identity_mismatch, resolve_invite_user}
use sub2api_gate.Login.{LoginAuth, Upstream, finish_login}

-- The part of the answer that the clock does not fix.
pub record LoginReply : Type 0 where
  pub uuid : Text
  pub auth : LoginAuth

module _ (py : Python) (fingerprint : Text → Text) (int_of : Text → Option ℤ)
    (dumps_length : LoginAuth → ℕ) (upstream : Text → Text → Upstream) where
  -- The test of the row that was resolved.
  unfoldable pub check_row : Text → Option InviteRow → Exec ℕ
  check_row email none = raise invite_identity_mismatch
  check_row email (some row) =
      if py.lower (strip row.email) == py.lower email
      then pure row.id
      else raise invite_identity_mismatch

  unfoldable pub login_row : Identity → ℕ → Text → Exec ℕ
  unfolding check_row
  login_row who asked email = do
    user ←
        resolve_invite_user fingerprint who.uuid who.legacy_username who.username asked 0 false
          (ltb 0 asked)
    check_row email user

  abbrev pub check_given : Text → Text → Exec (Unit {0})
  check_given email password =
      if is_empty email || is_empty password
      then raise (value_error (codes "missing login credentials"))
      else pure tt

  -- The transaction is over before the upstream service is asked.
  unfoldable pub login : Fault → Fields → Exec LoginReply
  unfolding login_row finish_login
  login fault payload = do
    who ← lift (payload_identity py payload)
    let email = strip (text_of py (get (codes "email") payload))
    let password = strip (text_of py (get (codes "loginPassword") payload))
    check_given email password
    asked ← lift (payload_user_id payload)
    user_id ← transaction fault (login_row who asked email)
    auth ← lift (finish_login int_of dumps_length user_id (upstream email password))
    pure (record { uuid = who.uuid; auth = auth })
