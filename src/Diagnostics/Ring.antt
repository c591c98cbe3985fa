-- ===== src/Diagnostics/Ring.antt =====
-- The deque of failures stays bounded, and finds what was recorded.
use sub2api_gate.Base.{
  ℕ, ltb, ◌≤◌, ◌≡◌, refl, Bool, true, false, Bool-cases, inl, inr, Option, none, some, List, [],
  ◌∷◌, nat_eq, text_eq, arith, Text, length, All, All-append, length-append, text_eqb, member,
  codes, if◌then◌else◌,
}
use sub2api_gate.Diagnostics.{
  Entry, max_failure_diagnostics, sync_actions, failure_categories, is_request_id, is_sqlstate,
  is_expired, drop_expired, append_bounded, known, safe_sqlstate, new_entry,
  record_failure_diagnostic,
}

-- The arguments of one call of `record_failure_diagnostic`, with its instant.
pub record Failure : Type 0 where
  pub now : ℕ
  pub request_id : Text
  pub action : Text
  pub category : Text
  pub sqlstate : Option Text

abbrev pub entry_of : Failure → Entry
entry_of f = new_entry f.now f.request_id f.action f.category f.sqlstate

abbrev pub record_one : Failure → List Entry → List Entry
record_one f ring = record_failure_diagnostic f.now f.request_id f.action f.category f.sqlstate ring

abbrev pub record_all : List Failure → List Entry → List Entry
record_all [] ring = ring
record_all (f ∷ fs) ring = record_all fs (record_one f ring)

-- What every entry keeps to: nothing of the caller's but names of fixed lists and two patterns.
pub record IsEntry (entry : Entry) : Type 0 where
  pub request_id : is_request_id entry.request_id ≡ true
  pub action : member entry.action (codes "unknown" ∷ sync_actions) ≡ true
  pub category : member entry.category (codes "unknown" ∷ failure_categories) ≡ true
  pub sqlstate : (t : Text) → entry.sqlstate ≡ some t → is_sqlstate t ≡ true

pub record IsRing (ring : List Entry) : Type 0 where
  pub bounded : length ring ≤ max_failure_diagnostics
  pub entries : All IsEntry ring

drop_expired-IsRing : (now : ℕ) (ring : List Entry) → IsRing ring → IsRing (drop_expired now ring)
unfolding drop_expired
drop_expired-IsRing now [] h = h
drop_expired-IsRing now (entry ∷ ring) h = elim (Bool-cases (is_expired now entry)) [
  | inl old ↦ rw old (
      drop_expired-IsRing now ring
        (record { bounded = omega (arith, h.bounded); entries = h.entries.1 }))
  | inr fresh ↦ rw fresh h
]

append_bounded-IsRing :
    (entry : Entry) (ring : List Entry)
    → IsEntry entry
    → IsRing ring
    → IsRing (append_bounded entry ring)
unfolding append_bounded
append_bounded-IsRing entry [] e h = record { bounded = omega arith; entries = (e, tt) }
append_bounded-IsRing entry (x ∷ ring) e h =
    elim (Bool-cases (ltb (length (x ∷ ring)) max_failure_diagnostics)) [
      | inl room ↦ rw room (record {
        bounded = ground (arith, length-append (x ∷ ring) (entry ∷ []));
        entries = All-append IsEntry (x ∷ ring) (entry ∷ []) h.entries (e, tt);
      })
      | inr full ↦ rw full (record {
        bounded = ground (arith, length-append ring (entry ∷ []), h.bounded);
        entries = All-append IsEntry ring (entry ∷ []) h.entries.1 (e, tt);
      })
    ]

chosen-member :
    (names : List Text) (value : Text) (b : Bool)
    → member value names ≡ b
    → member (if b then value else codes "unknown") (codes "unknown" ∷ names) ≡ true
unfolding text_eqb
chosen-member names value true m = rw m (ground arith)
chosen-member names value false m = refl

known-member :
    (names : List Text) (value : Text) → member (known names value) (codes "unknown" ∷ names) ≡ true
known-member names value = chosen-member names value (member value names) refl

safe_sqlstate-is_sqlstate :
    (o : Option Text) (t : Text) → safe_sqlstate o ≡ some t → is_sqlstate t ≡ true
unfolding safe_sqlstate
safe_sqlstate-is_sqlstate none t h = cc
safe_sqlstate-is_sqlstate (some u) t h = ground arith

new_entry-IsEntry :
    (now : ℕ) (request_id action category : Text) (sqlstate : Option Text)
    → is_request_id request_id ≡ true
    → IsEntry (new_entry now request_id action category sqlstate)
unfolding new_entry
new_entry-IsEntry now request_id action category sqlstate h = record {
  request_id = h;
  action = known-member sync_actions action;
  category = known-member failure_categories category;
  sqlstate = safe_sqlstate-is_sqlstate sqlstate;
}

-- Recording a failure, whatever its arguments are, keeps the deque at 256 entries or fewer, each
-- with a request number of the permitted form, an action and a category of the fixed lists or
-- `unknown`, and a SQLSTATE of the permitted form or none.
pub record_failure_diagnostic-IsRing :
    (now : ℕ) (request_id action category : Text) (sqlstate : Option Text) (ring : List Entry)
    → IsRing ring
    → IsRing (record_failure_diagnostic now request_id action category sqlstate ring)
unfolding record_failure_diagnostic
record_failure_diagnostic-IsRing now request_id action category sqlstate ring h =
    elim (Bool-cases (is_request_id request_id)) [
      | inl good ↦ rw good (
          append_bounded-IsRing _ (drop_expired now ring)
            (new_entry-IsEntry now request_id action category sqlstate good)
            (drop_expired-IsRing now ring h))
      | inr bad ↦ rw bad h
    ]
