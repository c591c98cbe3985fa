-- ===== src/Provision/Tests.antt =====
-- A provision, and the status after it, on a small database.
use sub2api_gate.Base.{
  show_nat, ◌≡◌, refl, List, [], ◌∷◌, map, Text, codes, text_eqb, strip, split, to_lower, ok,
}
use sub2api_gate.Payload.{
  Python, Fields, str, arr, cons, nil, obj, field, end, get, has, str_of, text_of, items, truthy,
}
use sub2api_gate.Payload.Identifier.{payload_user_id, payload_identifier, is_identifier_text}
use sub2api_gate.Identity.{
  Identity, payload_identity, normalize_username, clean_username, is_username_char, choose_username,
  default_email,
}
use sub2api_gate.Group.{
  requested_groups, add_group, is_group_name, configured_groups, configured_step, group_profile,
}
use sub2api_gate.Token.{
  Token, requested_tokens, gather, gather_item, normalize_api_key, normalize_key, is_api_key,
  clean_key_name, new_token, item_group, token_items,
}
use sub2api_gate.Database.{Db, none_met, transaction, first, update_where}
use sub2api_gate.Invite.{owner_of, resolve_invite_user}
use sub2api_gate.Invite.Owned.{OwnersUnique}
use sub2api_gate.Catalog.{
  ensure_group, insert_group, update_group, active_group_id, ensure_subscription_plan,
  ensure_default_subscription, resolve_provision_groups,
}
use sub2api_gate.Keys.Memory.{memory}
use sub2api_gate.Keys.{
  KeyView, new_key, sync_user_keys, get_user_keys, view_columns, view_rows, insert_key, rewrite_key,
  add_synced, disable_rest,
}
use sub2api_gate.Keys.Rows.{IsKeyed}
use sub2api_gate.Provision.Users.{chosen_password, save_user, insert_user}
use sub2api_gate.Provision.{ProvisionReply, Settings, allow_group, or_new_key, provision}
use sub2api_gate.Provision.Provisioned.{Given, Provisioned, provision-Provisioned}

abbrev ascii : Python
ascii = record { repr = λ v. []; lower = map to_lower; lower_ascii = λ t h. refl }

abbrev fingerprint : Text → Text
fingerprint uuid = codes "fp"

abbrev same : Text → Text
same t = t

abbrev start : Db
start = record {
  users = [];
  keys = new_key 3 6 (codes "sk-c") [] 1 ∷ [];
  subscriptions = [];
  allowed = [];
  owners = [];
  groups = [];
  plans = [];
  next_user = 1;
  next_key = 4;
  next_group = 1;
}

abbrev settings : Settings
settings = record {
  default_group = codes "vip";
  plan_name = codes "Default";
  days = 30;
  now = 100;
  drawn_password = codes "drawn-pw";
  drawn_key = codes "sk-new";
}

abbrev uuid : Text
uuid = codes "0f8fad5b-d9cb-469f-a165-70867728950e"

abbrev invite : Fields
invite = field (codes "uuid") (str uuid) (
    field (codes "name") (str (codes "ann")) (
      field (codes "tokens")
        (arr (cons (obj (field (codes "tokenKey") (str (codes "sk-a")) end)) nil)) end))

abbrev view : KeyView
view = record {
  api_key_id = 4;
  name = codes "Sub2API";
  api_key = codes "sk-a";
  status = 1;
  quota = codes "0";
  quota_used = codes "0";
  group_name = codes "vip";
}

abbrev reply : ProvisionReply
reply = record {
  uuid = uuid;
  username = codes "ann";
  email = codes "ann@sub2api.local";
  user_id = 1;
  api_key_id = 4;
  api_key = codes "sk-a";
  login_password = codes "drawn-pw";
  password_hash_fingerprint = codes "drawn-pw";
  tokens = view ∷ [];
  allowed_groups = codes "vip" ∷ [];
}

abbrev provisioned : Db
provisioned = (provision ascii fingerprint same same memory settings none_met invite start).1

ann_provisioned :
    provision ascii fingerprint same same memory settings none_met invite start
    ≡ (ok reply, provisioned)
unfolding provision transaction payload_identity normalize_username clean_username is_username_char
    choose_username default_email payload_user_id payload_identifier is_identifier_text get has
    str_of text_of strip split text_eqb items requested_groups add_group is_group_name
    configured_groups configured_step group_profile resolve_provision_groups requested_tokens gather
    gather_item normalize_api_key normalize_key is_api_key clean_key_name new_token item_group
    token_items resolve_invite_user first owner_of update_where ensure_group insert_group
    update_group active_group_id ensure_subscription_plan ensure_default_subscription sync_user_keys
    get_user_keys view_columns view_rows show_nat insert_key rewrite_key add_synced disable_rest
    chosen_password save_user insert_user allow_group or_new_key truthy
ann_provisioned = refl

unique : OwnersUnique start
unique = tt

start-IsKeyed : IsKeyed start.next_key start.keys
start-IsKeyed = record { distinct = (refl, tt); bounded = (refl, tt) }

provision-Provisioned_example :
    (who : Identity) × (tokens : List Token) × (payload_identity ascii invite ≡ ok who)
    × (requested_tokens ascii invite ≡ ok tokens)
    × (given : List Text) × Given ascii fingerprint same same memory settings invite tokens given
    × Provisioned (fingerprint who.uuid) given reply.user_id start provisioned
provision-Provisioned_example =
    provision-Provisioned ascii fingerprint same same memory settings none_met invite start reply
      provisioned unique start-IsKeyed ann_provisioned
