-- ===== src/Login/Tests.antt =====
-- Logins on a small database, with concrete answers of the upstream service.
use sub2api_gate.Base.{
  ℕ, ◌+◌, ◌≡◌, refl, false, Option, none, some, [], ◌∷◌, map, Text, codes, text_eqb, length, strip,
  to_lower, ok, ℤ, pos,
}
use sub2api_gate.Payload.{
  Python, Value, Fields, int, str, obj, field, end, get, has, str_of, text_of,
}
use sub2api_gate.Payload.Identifier.{payload_user_id, payload_identifier, is_identifier_text}
use sub2api_gate.Identity.{
  Identity, payload_identity, normalize_username, clean_username, is_username_char, choose_username,
}
use sub2api_gate.Database.{Db, none_met, transaction, first}
use sub2api_gate.Invite.{owner_of, resolve_invite_user}
use sub2api_gate.Login.{
  LoginAuth, Upstream, answered, encoded_length, summary, is_kept, is_account, sanitize_login_auth,
  finish_login,
}
use sub2api_gate.Login.Bounded.{IsBounded, sanitize_login_auth-IsBounded}
use sub2api_gate.Login.Account.{login}
use sub2api_gate.Login.Owned.{Passed, login-Passed}

abbrev ascii : Python
ascii = record { repr = λ v. []; lower = map to_lower; lower_ascii = λ t h. refl }

abbrev fingerprint : Text → Text
fingerprint uuid = codes "fp"

abbrev no_number : Text → Option ℤ
no_number t = none

abbrev measure : LoginAuth → ℕ
measure auth = length auth.access_token + 40

abbrev start : Db
start = record {
  users =
      record {
        id = 2;
        username = codes "ann";
        role = codes "user";
        email = codes "Ann@b";
        password_hash = codes "h";
        notes = [];
        balance = 100;
        status = codes "active";
        deleted = false;
      }
      ∷ [];
  keys = [];
  subscriptions = [];
  allowed = [];
  owners = record { user_id = 2; invite_fingerprint = codes "fp" } ∷ [];
  groups = [];
  plans = [];
  next_user = 4;
  next_key = 6;
  next_group = 1;
}

abbrev uuid : Text
uuid = codes "0f8fad5b-d9cb-469f-a165-70867728950e"

abbrev credentials : Fields
credentials = field (codes "uuid") (str uuid) (
    field (codes "email") (str (codes "ann@b"))
      (field (codes "loginPassword") (str (codes "secret12")) end))

abbrev given : Value
given = obj (
    field (codes "access_token") (str (codes "tok")) (
      field (codes "user")
        (obj (field (codes "id") (int (pos 2)) (field (codes "secret") (str (codes "s")) end)))
        end))

abbrev answer : Text → Text → Upstream
answer email password =
    answered [] 90 (ok (obj (field (codes "code") (int (pos 0)) (field (codes "data") given end))))

abbrev passed_on : LoginAuth
passed_on = record {
  access_token = codes "tok";
  refresh_token = none;
  expires_in = none;
  user = some (field (codes "id") (int (pos 2)) end);
}

given_sanitized : sanitize_login_auth no_number measure given ≡ ok passed_on
unfolding sanitize_login_auth encoded_length summary is_kept get has text_eqb
given_sanitized = refl

sanitize_login_auth-IsBounded_example : IsBounded measure passed_on
sanitize_login_auth-IsBounded_example =
    sanitize_login_auth-IsBounded no_number measure given passed_on given_sanitized

ann_logged_in :
    login ascii fingerprint no_number measure answer none_met credentials start
    ≡ (ok (record { uuid = uuid; auth = passed_on }), start)
unfolding login transaction payload_identity normalize_username clean_username is_username_char
    choose_username payload_user_id payload_identifier is_identifier_text get has str_of text_of
    strip text_eqb resolve_invite_user first owner_of finish_login sanitize_login_auth
    encoded_length summary is_kept is_account
ann_logged_in = refl

login-Passed_example :
    (who : Identity) × (id : ℕ) × (payload_identity ascii credentials ≡ ok who)
    × (owner_of id start.owners ≡ some (fingerprint who.uuid))
    × (start ≡ record start { owners = start.owners })
    × Passed measure id passed_on
login-Passed_example =
    login-Passed ascii fingerprint no_number measure answer none_met credentials start
      (record { uuid = uuid; auth = passed_on }) start (refl, tt) ann_logged_in
