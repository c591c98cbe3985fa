-- ===== src/Diagnostics/Found.antt =====
-- A recorded failure is found by its request number while it is neither expired nor pushed out.
use sub2api_gate.Base.{
  ℕ, suc, ◌+◌, ◌≤◌, ◌<◌, ◌≡◌, ◌≢◌, refl, ap, ◌∙◌, true, false, Bool-cases, inl, inr, Option-cases,
  none, some, List, [], ◌∷◌, ◌++◌, nat_eq, text_eq, arith, Text, length, All, length-append, ltb,
  drop, text_eqb_iff, ok,
}
use sub2api_gate.Payload.{Python, str, text_of}
use sub2api_gate.Diagnostics.{
  Entry, max_failure_diagnostics, failure_diagnostic_ttl, is_request_id, is_expired, drop_expired,
  append_bounded, new_entry, record_failure_diagnostic, latest, reported, look_up,
  failure_diagnostic,
}
use sub2api_gate.Diagnostics.Ring.{Failure, entry_of, record_one, record_all}

-- `x` stands in the deque with at most `n` entries behind it, none with its number.
record Kept (n : ℕ) (x : Entry) (ring : List Entry) : Type 0 where
  before : List Entry
  after : List Entry
  split_at : ring ≡ before ++ x ∷ after
  few : length after ≤ n
  newest : latest x.request_id after ≡ none

latest-Kept :
    (x : Entry) (before after : List Entry)
    → latest x.request_id after ≡ none
    → latest x.request_id (before ++ x ∷ after) ≡ some x
unfolding latest
latest-Kept x [] after h = rw h (ground (arith, text_eqb_iff x.request_id x.request_id))
latest-Kept x (y ∷ before) after h = rw (latest-Kept x before after h) refl

latest-snoc :
    (id : Text) (ring : List Entry) (y : Entry)
    → y.request_id ≢ id
    → latest id ring ≡ none
    → latest id (ring ++ y ∷ []) ≡ none
unfolding latest
latest-snoc id [] y other h = ground (arith, text_eqb_iff y.request_id id)
latest-snoc id (x ∷ ring) y other h = elim (Option-cases (latest id ring)) [
  | inl nothing ↦ rw (latest-snoc id ring y other nothing) (ground arith)
  | inr (e, found) ↦ ground arith
]

drop_expired-Kept :
    (now : ℕ) (x : Entry) (before after : List Entry)
    → is_expired now x ≡ false
    → (rest : List Entry) × (drop_expired now (before ++ x ∷ after) ≡ rest ++ x ∷ after)
unfolding drop_expired
drop_expired-Kept now x [] after fresh = ([], rw fresh refl)
drop_expired-Kept now x (y ∷ before) after fresh = elim (Bool-cases (is_expired now y)) [
  | inl old ↦ rw old (drop_expired-Kept now x before after fresh)
  | inr kept ↦ rw kept (y ∷ before, refl)
]

append_assoc :
    (before : List Entry) (x : Entry) (after : List Entry) (y : Entry)
    → (before ++ x ∷ after) ++ y ∷ [] ≡ before ++ x ∷ (after ++ y ∷ [])
append_assoc [] x after y = refl
append_assoc (b ∷ before) x after y = ap (λ t. b ∷ t) (append_assoc before x after y)

append_bounded-Kept :
    (y x : Entry) (before after : List Entry)
    → suc (length after) < max_failure_diagnostics
    → (rest : List Entry) × (append_bounded y (before ++ x ∷ after) ≡ rest ++ x ∷ (after ++ y ∷ []))
unfolding append_bounded
append_bounded-Kept y x [] after few = ([], ground arith)
append_bounded-Kept y x (b ∷ before) after few =
    elim (Bool-cases (ltb (length (b ∷ (before ++ x ∷ after))) max_failure_diagnostics)) [
      | inl room ↦ rw room (b ∷ before, append_assoc (b ∷ before) x after y)
      | inr full ↦ rw full (before, append_assoc before x after y)
    ]

abbrev pub Unrelated : Entry → Failure → Type 0
Unrelated x f = (f.request_id ≢ x.request_id) × (f.now ≤ x.recorded_at + failure_diagnostic_ttl)

not_expired :
    (now : ℕ) (x : Entry) → now ≤ x.recorded_at + failure_diagnostic_ttl → is_expired now x ≡ false
unfolding is_expired
not_expired now x h = ground arith

dropped-Kept :
    (n now : ℕ) (x : Entry) (ring : List Entry)
    → now ≤ x.recorded_at + failure_diagnostic_ttl
    → Kept n x ring
    → Kept n x (drop_expired now ring)
dropped-Kept n now x ring timely k =
    let (rest, e) = drop_expired-Kept now x k.before k.after (not_expired now x timely) in
    record {
      before = rest;
      after = k.after;
      split_at = ap (drop_expired now) k.split_at ∙ e;
      few = k.few;
      newest = k.newest;
    }

appended-Kept :
    (n : ℕ) (x y : Entry) (ring : List Entry)
    → y.request_id ≢ x.request_id
    → suc n < max_failure_diagnostics
    → Kept n x ring
    → Kept (suc n) x (append_bounded y ring)
appended-Kept n x y ring other few k =
    let (rest, e) = append_bounded-Kept y x k.before k.after (omega (arith, k.few)) in
    record {
      before = rest;
      after = k.after ++ y ∷ [];
      split_at = ap (append_bounded y) k.split_at ∙ e;
      few = ground (arith, length-append k.after (y ∷ []), k.few);
      newest = latest-snoc x.request_id k.after y other k.newest;
    }

weaken-Kept : (n : ℕ) (x : Entry) (ring : List Entry) → Kept n x ring → Kept (suc n) x ring
weaken-Kept n x ring k = record {
  before = k.before;
  after = k.after;
  split_at = k.split_at;
  few = omega (arith, k.few);
  newest = k.newest;
}

record_one-Kept :
    (n : ℕ) (x : Entry) (f : Failure) (ring : List Entry)
    → Unrelated x f
    → suc n < max_failure_diagnostics
    → Kept n x ring
    → Kept (suc n) x (record_one f ring)
unfolding record_failure_diagnostic new_entry
record_one-Kept n x f ring (other, timely) few k = elim (Bool-cases (is_request_id f.request_id)) [
  | inl good ↦ rw good (
      appended-Kept n x (entry_of f) (drop_expired f.now ring) other few
        (dropped-Kept n f.now x ring timely k))
  | inr bad ↦ rw bad (weaken-Kept n x ring k)
]

no_more : (n : ℕ) → n + 0 ≡ n
no_more n = omega arith

suc_moves : (n m : ℕ) → n + suc m ≡ suc n + m
suc_moves n m = omega arith

record_all-Kept :
    (n : ℕ) (x : Entry) (fs : List Failure) (ring : List Entry)
    → All (Unrelated x) fs
    → n + length fs < max_failure_diagnostics
    → Kept n x ring
    → Kept (n + length fs) x (record_all fs ring)
record_all-Kept n x [] ring us few k = rw (no_more n) k
record_all-Kept n x (f ∷ fs) ring us few k = rw (suc_moves n (length fs)) (
    record_all-Kept (suc n) x fs (record_one f ring) us.1 (omega arith)
      (record_one-Kept n x f ring us.0 (omega arith) k))

text_of_id : (py : Python) (t : Text) → is_request_id t ≡ true → text_of py (str t) ≡ t
unfolding text_of is_request_id
text_of_id py [] h = refl
text_of_id py (c ∷ t) h = refl

snoc-Kept : (y : Entry) (ring : List Entry) → Kept 0 y (append_bounded y ring)
unfolding append_bounded latest
snoc-Kept y ring = elim (Bool-cases (ltb (length ring) max_failure_diagnostics)) [
  | inl room ↦
      rw room
        (record { before = ring; after = []; split_at = refl; few = omega arith; newest = refl })
  | inr full ↦ rw full (record {
    before = drop 1 ring;
    after = [];
    split_at = refl;
    few = omega arith;
    newest = refl;
  })
]

look_up-Kept :
    (n : ℕ) (x : Entry) (ring : List Entry)
    → Kept n x ring
    → look_up (str x.request_id) ring ≡ ok (reported x)
unfolding look_up
look_up-Kept n x ring k = rw (k.split_at, latest-Kept x k.before k.after k.newest) refl

-- A failure recorded under a well-formed request number is what the next lookup of that number
-- gives, with its instant in seconds, if the lookup comes within six hours and fewer than 256
-- failures were recorded in between, each under another number and within six hours.
pub failure_diagnostic-record :
    (py : Python) (f : Failure) (later : List Failure) (now : ℕ) (ring : List Entry)
    → is_request_id f.request_id ≡ true
    → All (Unrelated (entry_of f)) later
    → length later < max_failure_diagnostics
    → now ≤ f.now + failure_diagnostic_ttl
    → (failure_diagnostic py now (str f.request_id) (record_all later (record_one f ring))).0
      ≡ ok (reported (entry_of f))
unfolding failure_diagnostic record_failure_diagnostic new_entry
failure_diagnostic-record py f later now ring good others few timely =
    rw (text_of_id py f.request_id good, good)
      (look_up-Kept (0 + length later) (entry_of f) _ (
        dropped-Kept (0 + length later) now (entry_of f) _ timely (
          record_all-Kept 0 (entry_of f) later _ others (omega (arith, few))
            (snoc-Kept (entry_of f) (drop_expired f.now ring)))))
