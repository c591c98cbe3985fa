-- ===== src/Auth/Checks.antt =====
-- What `verify_request` accepts, and what it leaves alone.
use sub2api_gate.Base.{
  text_eqb, ap, ◌/◌, ◌+◌, ◌++◌, [], ◌∷◌, every, is_digit, all_hex, starts_with, codes, some, Option,
  Result, decimal, text_eqb_iff, leb→le, text_eq, ◌≤◌, ◌≡◌, ◌≢◌, ◌↔◌, true, false, arith, Text,
  length, ok,
}
use sub2api_gate.Auth.{
  Services, Attempt, is_timestamp, is_hex, nonce_key, is_ok_reply, verify_request, claim_nonce,
  is_well_formed, is_fresh, is_signed,
}

-- The form of the three headers: 10 to 13 digits of which the first is not 0, and 32 and 64 lower
-- case hexadecimal digits.
pub record HasForm (a : Attempt) : Type 0 where
  pub digits : every is_digit a.timestamp ≡ true
  pub no_zero : starts_with (codes "0") a.timestamp ≡ false
  pub timestamp_length : (10 ≤ length a.timestamp) × (length a.timestamp ≤ 13)
  pub nonce_digits : every all_hex a.nonce ≡ true
  pub nonce_length : length a.nonce ≡ 32
  pub signature_digits : every all_hex a.signature ≡ true
  pub signature_length : length a.signature ≡ 64

is_timestamp-form :
    (t : Text)
    → is_timestamp t ≡ true
    → (every is_digit t ≡ true)
      × (starts_with (codes "0") t ≡ false)
      × (10 ≤ length t)
      × (length t ≤ 13)
unfolding is_timestamp
is_timestamp-form [] h = absurd (ground arith)
is_timestamp-form (c ∷ t) h = (ground arith, ground arith, ground arith, ground arith)

is_timestamp-conv :
    (t : Text)
    → every is_digit t ≡ true
    → starts_with (codes "0") t ≡ false
    → 10 ≤ length t
    → length t ≤ 13
    → is_timestamp t ≡ true
unfolding is_timestamp
is_timestamp-conv [] h k low high = absurd (omega (arith, low))
is_timestamp-conv (c ∷ t) h k low high = ground arith

is_well_formed-HasForm : (a : Attempt) → is_well_formed a ≡ true ↔ HasForm a
unfolding is_well_formed is_hex
is_well_formed-HasForm a = (
  λ h.
      let (digits, no_zero, low, high) = is_timestamp-form a.timestamp (ground arith) in
      record {
        digits = digits;
        no_zero = no_zero;
        timestamp_length = (low, high);
        nonce_digits = ground arith;
        nonce_length = ground arith;
        signature_digits = ground arith;
        signature_length = ground arith;
      },
  λ f.
      let stamped =
        is_timestamp-conv a.timestamp f.digits f.no_zero f.timestamp_length.0
          f.timestamp_length.1 in
      ground
        (arith, stamped, f.nonce_digits, f.nonce_length, f.signature_digits, f.signature_length),
)

pub reply_of_ok : (r : Result (Option Text)) → is_ok_reply r ≡ ok true → r ≡ ok (some (codes "OK"))
reply_of_ok (ok (some t)) h = ground (arith, text_eqb_iff t (codes "OK"))
reply_of_ok _ h = cc

module _ (env : Services) (secret : Text) (a : Attempt) (s : env.Store) where
  -- The tests in their order.
  pub verify_request-passes :
      (verify_request env secret a s).0 ≡ ok true
      ↔ (32 ≤ length secret)
        × (is_well_formed a ≡ true)
        × (is_fresh a ≡ true)
        × (is_signed env secret a ≡ true)
        × ((claim_nonce env a.nonce a.claimed_at s).0 ≡ ok true)
  unfolding verify_request
  verify_request-passes = (λ h. ground arith, λ h. ground arith)

  -- What the request has to satisfy, and what Redis has to answer.
  pub record Accepts : Type 0 where
    pub secret_length : 32 ≤ length secret
    pub form : HasForm a
    pub not_late : a.read_at / 1000 ≤ decimal a.timestamp + 300
    pub not_early : decimal a.timestamp ≤ a.read_at / 1000 + 300
    pub signature :
        env.hmac_sha256_hex secret
          (a.timestamp ++ (codes "." ++ (a.nonce ++ (codes "." ++ a.body))))
        ≡ a.signature
    pub claimed :
        (env.set_nx_ex (codes "sub2api-sync:nonce:" ++ env.sha256_hex a.nonce) 601 a.claimed_at s).0
        ≡ ok (some (codes "OK"))

  -- A request is accepted exactly when the secret has 32 characters, the three headers have their
  -- form, the timestamp is at most 300 seconds before or behind the clock, the signature is the
  -- keyed hash of the timestamp, the nonce and the body with points between them, and Redis set the
  -- key of the nonce for 601 seconds.
  pub verify_request-accepts : (verify_request env secret a s).0 ≡ ok true ↔ Accepts
  unfolding claim_nonce is_fresh is_signed nonce_key text_eqb
  verify_request-accepts = (
    λ h.
        let (long, formed, fresh, signed, claimed) = verify_request-passes.0 h in
        record {
          secret_length = long;
          form = (is_well_formed-HasForm a).0 formed;
          not_late = omega (arith, leb→le _ _ fresh);
          not_early = omega (arith, leb→le _ _ fresh);
          signature =
              (text_eqb_iff
                  (env.hmac_sha256_hex secret
                    (a.timestamp ++ (codes "." ++ (a.nonce ++ (codes "." ++ a.body)))))
                  a.signature).0
                signed;
          claimed = reply_of_ok _ claimed;
        },
    λ p. verify_request-passes.1 (
      p.secret_length,
      (is_well_formed-HasForm a).1 p.form,
      ground (arith, p.not_late, p.not_early),
      (text_eqb_iff _ a.signature).1 p.signature,
      ap is_ok_reply p.claimed,
    ),
  )

  -- A request whose signature is not the secret's is refused, or fails for want of a secret, and
  -- claims no nonce: the store is unchanged.
  pub verify_request_unsigned :
      is_signed env secret a ≡ false
      → ((verify_request env secret a s).0 ≢ ok true) × ((verify_request env secret a s).1 ≡ s)
  unfolding verify_request
  verify_request_unsigned h = (λ e. ground arith, ground arith)
