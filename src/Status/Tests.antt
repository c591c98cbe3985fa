-- ===== src/Status/Tests.antt =====
-- The status of an account on a small database.
use sub2api_gate.Base.{
  Bool, List, keep, arith, ℕ, every, true, show_nat, ◌≡◌, refl, false, [], ◌∷◌, map, Text, codes,
  text_eqb, strip, to_lower, ok,
}
use sub2api_gate.Payload.{Python, Fields, str, field, end, get, has, str_of, text_of}
use sub2api_gate.Payload.Identifier.{payload_user_id, payload_identifier, is_identifier_text}
use sub2api_gate.Identity.{
  Identity, payload_identity, normalize_username, clean_username, is_username_char, choose_username,
}
use sub2api_gate.Database.{Db, first}
use sub2api_gate.Invite.{owner_of, resolve_invite_user}
use sub2api_gate.Keys.Memory.{memory, memory-IsDocumented}
use sub2api_gate.Keys.Shown.{is_plain, is_plain_key}
use sub2api_gate.Removal.{is_live_key}
use sub2api_gate.Keys.{view_columns, view_rows, live_keys, new_key, get_user_keys}
use sub2api_gate.Status.{UserView, present, status_body}
use sub2api_gate.Status.Shown.{Shown, status_body-Shown}

abbrev ascii : Python
ascii = record { repr = λ v. []; lower = map to_lower; lower_ascii = λ t h. refl }

abbrev fingerprint : Text → Text
fingerprint uuid = codes "fp"

abbrev same : Text → Text
same t = t

abbrev start : Db
start = record {
  users =
      record {
        id = 2;
        username = codes "ann";
        role = codes "user";
        email = codes "a@b";
        password_hash = codes "h";
        notes = [];
        balance = 100;
        status = codes "active";
        deleted = false;
      }
      ∷ [];
  keys = new_key 4 2 (codes "sk-a") (codes "first") 1 ∷ new_key 5 3 (codes "sk-b") [] 1 ∷ [];
  subscriptions = [];
  allowed = [];
  owners = record { user_id = 2; invite_fingerprint = codes "fp" } ∷ [];
  groups = [];
  plans = [];
  next_user = 4;
  next_key = 6;
  next_group = 1;
}

abbrev uuid : Text
uuid = codes "0f8fad5b-d9cb-469f-a165-70867728950e"

abbrev invite : Fields
invite = field (codes "uuid") (str uuid) (field (codes "name") (str (codes "ann")) end)

abbrev view : UserView
view = record {
  uuid = uuid;
  username = codes "ann";
  email = codes "a@b";
  user_id = 2;
  password_hash_fingerprint = codes "h";
  status = 1;
  tokens =
      record {
        api_key_id = 4;
        name = codes "first";
        api_key = codes "sk-a";
        status = 1;
        quota = codes "0";
        quota_used = codes "0";
        group_name = [];
      }
      ∷ [];
}

ann_shown : status_body ascii fingerprint same memory invite start ≡ (ok (present view), start)
unfolding status_body payload_identity normalize_username clean_username is_username_char
    choose_username payload_user_id payload_identifier is_identifier_text get has str_of text_of
    strip text_eqb resolve_invite_user first owner_of get_user_keys view_columns view_rows show_nat
ann_shown = refl

every-keep :
    {A : Type 0} (p q : A → Bool) (xs : List A) → every p xs ≡ true → every p (keep q xs) ≡ true
every-keep p q [] h = refl
every-keep p q (x ∷ xs) h = ground (arith, every-keep p q xs)

all_plain : every (is_plain_key start.groups) start.keys ≡ true
unfolding is_plain_key is_plain show_nat strip text_eqb first
all_plain = refl

plain_keys : (id : ℕ) → every (is_plain_key start.groups) (live_keys id start) ≡ true
plain_keys id = every-keep (is_plain_key start.groups) (is_live_key id) start.keys all_plain

status_body-Shown_example :
    (who : Identity) × (payload_identity ascii invite ≡ ok who)
    × Shown (fingerprint who.uuid) view start start
status_body-Shown_example =
    status_body-Shown ascii fingerprint same memory memory-IsDocumented invite start view start
      (refl, tt) plain_keys ann_shown
