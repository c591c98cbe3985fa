-- ===== src/Auth/Tests.antt =====
-- Authentication at concrete requests.
use sub2api_gate.Base.{◌≡◌, ◌≢◌, refl, true, [], ◌∷◌, arith, codes, text_eq, ok, text_eqb}
use sub2api_gate.Auth.{
  Attempt, verify_request, verify_all, is_signed, is_hex, is_timestamp, is_well_formed, is_fresh,
  claim_nonce,
}
use sub2api_gate.Auth.Memory.{memory, fill}
use sub2api_gate.Auth.Checks.{Accepts, verify_request-accepts, verify_request_unsigned}
use sub2api_gate.Auth.Replay.{verify_request_replay}

abbrev first : Attempt
first = record {
  read_at = 1700000000500;
  claimed_at = 1700000000600;
  timestamp = codes "1700000300";
  nonce = fill 32;
  signature = fill 64;
  body = codes "{}";
}

-- The same request, as late as its timestamp allows.
abbrev second : Attempt
second = record first { read_at = 1700000600999; claimed_at = 1700000601000 }

abbrev forged : Attempt
forged = record first { signature = codes "00" }

first_accepted : (verify_request memory (fill 40) first []).0 ≡ ok true
unfolding verify_request is_timestamp is_hex is_well_formed is_fresh is_signed claim_nonce text_eqb
first_accepted = refl

verify_request-accepts_example : Accepts memory (fill 40) first []
verify_request-accepts_example = (verify_request-accepts memory (fill 40) first []).0 first_accepted

verify_request_unsigned_example :
    ((verify_request memory (fill 40) forged []).0 ≢ ok true)
    × ((verify_request memory (fill 40) forged []).1 ≡ [])
unfolding is_signed text_eqb
verify_request_unsigned_example = verify_request_unsigned memory (fill 40) forged [] refl

verify_request_replay_example :
    (verify_request memory
      (fill 40)
      second
      (verify_all memory (fill 40) (forged ∷ []) (verify_request memory (fill 40) first []).1)).0
    ≢ ok true
verify_request_replay_example =
    verify_request_replay memory (fill 40) first second (forged ∷ []) [] first_accepted refl refl
      (omega arith)
