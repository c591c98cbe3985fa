-- ===== src/Payload/Tests.antt =====
-- Identifiers at a concrete payload.
use sub2api_gate.Base.{
  ℕ, ◌≡◌, ◌⊎◌, refl, true, All, exists, codes, text_eqb, ok, err, value_error, pos,
}
use sub2api_gate.Payload.{Fields, int, str, field, end, get}
use sub2api_gate.Payload.Identifier.{
  Agrees, gives, field_identifier, payload_identifier, payload_token_id, is_identifier_text,
  token_id_fields, payload_identifier-Agrees,
}

abbrev both_names : Fields
both_names =
    field (codes "tokenId") (str (codes "42")) (field (codes "apiKeyId") (int (pos 42)) end)

both_agree : payload_identifier both_names token_id_fields ≡ ok 42
unfolding payload_identifier get text_eqb is_identifier_text
both_agree = refl

conflict :
    payload_token_id (field (codes "tokenId") (int (pos 7)) both_names)
    ≡ err (value_error (codes "conflicting identifiers"))
unfolding payload_token_id payload_identifier get text_eqb is_identifier_text
conflict = refl

payload_identifier-Agrees_example :
    All (λ name. Agrees 42 (field_identifier (get name both_names))) token_id_fields
    × (◌≡◌ {A = ℕ} 42 0
        ⊎ (exists (λ name. gives 42 (field_identifier (get name both_names))) token_id_fields
            ≡ true))
payload_identifier-Agrees_example =
    payload_identifier-Agrees both_names token_id_fields 42 both_agree
