-- ===== src/Keys/Tests.antt =====
-- Keys of a small database.
use sub2api_gate.Base.{
  show_nat, ◌≡◌, refl, none, List, [], ◌∷◌, map, Text, codes, text_eqb, to_lower, ok,
}
use sub2api_gate.Payload.{Python}
use sub2api_gate.Token.{Token}
use sub2api_gate.Database.{Db, first, update_where}
use sub2api_gate.Keys.Memory.{memory}
use sub2api_gate.Keys.{
  sync_user_keys, sync_keys, sync_key, token_group, store_key, rewrite_key, insert_key, add_synced,
  disable_rest, new_key, get_user_keys, view_columns, view_rows,
}
use sub2api_gate.Keys.Rows.{IsKeyed}
use sub2api_gate.Keys.Synced.{keys_of, sync_user_keys-Holds}
use sub2api_gate.Keys.Progress.{Holds, Apart}

abbrev ascii : Python
ascii = record { repr = λ v. []; lower = map to_lower; lower_ascii = λ t h. refl }

abbrev start : Db
start = record {
  users = [];
  keys =
      new_key 1 5 (codes "sk-old") [] 1
      ∷ new_key 2 5 (codes "sk-a") [] 1
      ∷ new_key 3 6 (codes "sk-c") [] 1
      ∷ [];
  subscriptions = [];
  allowed = [];
  owners = [];
  groups = [];
  plans = [];
  next_user = 1;
  next_key = 4;
  next_group = 1;
}

start-IsKeyed : IsKeyed start.next_key start.keys
start-IsKeyed = record {
  distinct = (refl, (refl, (refl, tt)));
  bounded = (refl, (refl, (refl, tt)));
}

abbrev token : Text → Token
token key = record { key = key; name = codes "Sub2API"; group_name = none }

abbrev wanted : List Token
wanted = token (codes "sk-a") ∷ token (codes "sk-b") ∷ []

abbrev synced : Db
synced = (sync_user_keys ascii 5 1 wanted start).1

first_is_primary : sync_user_keys ascii 5 1 wanted start ≡ (ok (2, codes "sk-a"), synced)
unfolding sync_user_keys sync_keys sync_key token_group store_key rewrite_key insert_key add_synced
    disable_rest first update_where text_eqb
first_is_primary = refl

sync_user_keys-Holds_example :
    Holds 5 (keys_of wanted) synced × IsKeyed synced.next_key synced.keys × Apart 5 start synced
sync_user_keys-Holds_example =
    sync_user_keys-Holds ascii 5 1 wanted start (2, codes "sk-a") synced start-IsKeyed
      first_is_primary

two_listed :
    (get_user_keys memory 6 start).0
    ≡ ok (
        record {
          api_key_id = 3;
          name = [];
          api_key = codes "sk-c";
          status = 1;
          quota = codes "0";
          quota_used = codes "0";
          group_name = [];
        }
        ∷ [])
unfolding get_user_keys view_columns view_rows show_nat first text_eqb
two_listed = refl
