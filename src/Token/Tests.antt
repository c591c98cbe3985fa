-- ===== src/Token/Tests.antt =====
-- API keys at concrete payloads.
use sub2api_gate.Base.{
  ◌≡◌, ◌⊎◌, refl, none, List, [], ◌∷◌, map, codes, text_eqb, strip, to_lower, ok,
}
use sub2api_gate.Payload.{
  items, Python, Value, Fields, str, arr, nil, cons, obj, field, end, get, text_of,
}
use sub2api_gate.Token.{
  Token, normalize_api_key, is_api_key, requested_tokens, clean_key_name, new_token,
}
use sub2api_gate.Token.Keys.{IsKey, normalize_api_key-IsKey}
use sub2api_gate.Token.Requested.{AreTokens, requested_tokens-AreTokens}

abbrev ascii : Python
ascii = record { repr = λ v. []; lower = map to_lower; lower_ascii = λ t h. refl }

abbrev one_key : Value
one_key = obj (
    field (codes "tokenKey") (str (codes " sk-abc1 "))
      (field (codes "tokenName") (str (codes "laptop")) end))

abbrev twice : Fields
twice = field (codes "tokens") (arr (cons one_key (cons one_key nil))) end

abbrev gathered : List Token
gathered = record { key = codes "sk-abc1"; name = codes "laptop"; group_name = none } ∷ []

key_once : requested_tokens ascii twice ≡ ok gathered
unfolding requested_tokens get text_of strip text_eqb is_api_key new_token clean_key_name items
key_once = refl

stripped : normalize_api_key ascii (str (codes " sk-abc1 ")) ≡ ok (codes "sk-abc1")
unfolding normalize_api_key text_of strip is_api_key
stripped = refl

normalize_api_key-IsKey_example :
    (codes "sk-abc1" ≡ [])
    ⊎ (IsKey (codes "sk-abc1")
        × (normalize_api_key ascii (str (codes "sk-abc1")) ≡ ok (codes "sk-abc1")))
normalize_api_key-IsKey_example =
    normalize_api_key-IsKey ascii (str (codes " sk-abc1 ")) (codes "sk-abc1") stripped

requested_tokens-AreTokens_example : AreTokens gathered
requested_tokens-AreTokens_example = requested_tokens-AreTokens ascii twice gathered key_once
