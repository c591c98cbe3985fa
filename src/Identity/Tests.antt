-- ===== src/Identity/Tests.antt =====
-- Identities at a concrete payload.
use sub2api_gate.Base.{◌≡◌, refl, false, [], map, codes, text_eqb, is_empty, strip, to_lower, ok}
use sub2api_gate.Payload.{Python, Fields, str, field, end, get, has, str_of, text_of}
use sub2api_gate.Identity.{
  Identity, payload_identity, normalize_username, default_email, clean_username, is_username_char,
  choose_username,
}
use sub2api_gate.Identity.Names.{IsUsername, payload_identity-IsUsername}

abbrev ascii : Python
ascii = record { repr = λ v. []; lower = map to_lower; lower_ascii = λ t h. refl }

abbrev invite : Fields
invite =
    field (codes "uuid") (str (codes "0F8FAD5B-D9CB-469F-A165-70867728950E"))
      (field (codes "name") (str (codes " Ann  Lee! ")) end)

abbrev ann : Identity
ann = record {
  uuid = codes "0f8fad5b-d9cb-469f-a165-70867728950e";
  legacy_username = codes "u0f8fad5bd9c";
  username = codes "ann-lee";
}

ann_identified : payload_identity ascii invite ≡ ok ann
unfolding payload_identity normalize_username clean_username get has str_of text_of strip text_eqb
    is_username_char choose_username
ann_identified = refl

local_email :
    default_email ascii (codes "ann-lee") (str (codes "nobody")) ≡ codes "ann-lee@sub2api.local"
unfolding default_email text_of strip
local_email = refl

payload_identity-IsUsername_example :
    IsUsername (codes "ann-lee")
    × (is_empty (codes "ann-lee") ≡ false)
    × IsUsername (codes "u0f8fad5bd9c")
payload_identity-IsUsername_example = payload_identity-IsUsername ascii invite ann ann_identified
