-- ===== src/Removal/Tests.antt =====
-- Resolution, transactions and removals on a small database.
use sub2api_gate.Base.{
  ℕ, ◌≡◌, ◌⊎◌, refl, true, false, some, [], ◌∷◌, map, Text, codes, text_eqb, to_lower, timeout, ok,
}
use sub2api_gate.Payload.{Python, Fields, str, field, end}
use sub2api_gate.Database.{User, ApiKey, Db, answer_lost, transaction, first}
use sub2api_gate.Database.Transaction.{transaction_atomic}
use sub2api_gate.Invite.{InviteRow, owner_of, resolve_invite_user}
use sub2api_gate.Invite.Resolve.{Resolved, resolve_invite_user-Resolved}
use sub2api_gate.Removal.{Reply, remove_for, remove_access}

abbrev ascii : Python
ascii = record { repr = λ v. []; lower = map to_lower; lower_ascii = λ t h. refl }

abbrev fingerprint : Text → Text
fingerprint uuid = codes "fp"

abbrev user : ℕ → Text → User
user id name = record {
  id = id;
  username = name;
  role = codes "user";
  email = [];
  password_hash = [];
  notes = [];
  balance = 100;
  status = codes "active";
  deleted = false;
}

abbrev key : ℕ → ℕ → ApiKey
key id user_id = record {
  id = id;
  user_id = user_id;
  key = codes "sk-a";
  name = [];
  group_id = 1;
  status = codes "active";
  quota = codes "0";
  quota_used = codes "0";
  deleted = false;
}

abbrev start : Db
start = record {
  users = user 1 (codes "bob") ∷ user 2 (codes "ann") ∷ [];
  keys = key 10 1 ∷ key 11 2 ∷ [];
  subscriptions =
      record { user_id = 2; group_id = 1; status = codes "active"; expires_at = 9; deleted = false }
      ∷ [];
  allowed = record { user_id = 2; group_id = 1 } ∷ [];
  owners = record { user_id = 2; invite_fingerprint = codes "fp" } ∷ [];
  groups = [];
  plans = [];
  next_user = 3;
  next_key = 12;
  next_group = 1;
}

abbrev invite : Fields
invite =
    field (codes "uuid") (str (codes "0f8fad5b-d9cb-469f-a165-70867728950e"))
      (field (codes "name") (str (codes "ann")) end)

abbrev uuid : Text
uuid = codes "0f8fad5b-d9cb-469f-a165-70867728950e"

abbrev reply : Reply
reply = record { uuid = uuid; username = codes "ann"; user_id = 2; api_key_id = 0 }

abbrev ann_row : InviteRow
ann_row = record {
  id = 2;
  username = codes "ann";
  role = codes "user";
  invite_fingerprint = codes "fp";
  email = [];
  password_hash = [];
  status = codes "active";
}

ann_resolved :
    resolve_invite_user fingerprint uuid (codes "u0f8fad5bd9c") (codes "ann") 0 11 false true start
    ≡ (ok (some ann_row), start)
unfolding resolve_invite_user first owner_of text_eqb
ann_resolved = refl

resolve_invite_user-Resolved_example : Resolved (codes "fp") 0 11 true ann_row start start
resolve_invite_user-Resolved_example =
    resolve_invite_user-Resolved fingerprint uuid (codes "u0f8fad5bd9c") (codes "ann") 0 11 false
      true ann_row start start (refl, tt) ann_resolved

transaction_atomic_example :
    let body = remove_for ascii fingerprint false remove_access invite in
    (((transaction (answer_lost timeout) body start).1 ≡ start)
      ⊎ (((a : Reply) × ((body start).0 ≡ ok a))
          × ((transaction (answer_lost timeout) body start).1 ≡ (body start).1)))
    × ((a : Reply)
        → (transaction (answer_lost timeout) body start).0 ≡ ok a
        → transaction (answer_lost timeout) body start ≡ body start)
transaction_atomic_example =
    transaction_atomic (answer_lost timeout)
      (remove_for ascii fingerprint false remove_access invite) start
