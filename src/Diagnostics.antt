-- ===== src/Diagnostics.antt =====
-- Recorded failures of the sync service (sub2api-sync/sub2api_sync.py): `record_failure_diagnostic`
-- and `failure_diagnostic`, with the bounded deque that they share, oldest entry first. Instants are
-- milliseconds; two calls never overlap, since each holds the lock.
pub mod Found
pub mod Ring
mod Tests
use sub2api_gate.Base.{
  ℕ, ◌+◌, ◌-◌, ◌*◌, ◌/◌, Bool, true, false, not, ◌&&◌, ◌||◌, Option, none, some, List, [], ◌∷◌,
  ◌++◌, nat_eq, text_eq, Text, codes, ◌==◌, member, every, length, leb, ltb, drop, is_empty,
  is_alnum, is_digit, is_upper, if◌then◌else◌, Raised, value_error, other, Result, ok, err,
}
use sub2api_gate.Payload.{Python, Value, str, text_of}

abbrev pub max_failure_diagnostics : ℕ
max_failure_diagnostics = 256

-- Six hours.
abbrev pub failure_diagnostic_ttl : ℕ
failure_diagnostic_ttl = 6 * 60 * 60 * 1000

unfoldable pub sync_actions : List Text
sync_actions =
    codes "provision"
    ∷ codes "status"
    ∷ codes "login"
    ∷ codes "deprovision"
    ∷ codes "purge"
    ∷ codes "usage_logs_list"
    ∷ codes "usage_log_detail"
    ∷ codes "list_groups"
    ∷ codes "test_api_key"
    ∷ codes "diagnostics"
    ∷ []

abbrev pub failure_categories : List Text
failure_categories =
    codes "redis_unavailable"
    ∷ codes "database_unavailable"
    ∷ codes "database_error"
    ∷ codes "dependency_timeout"
    ∷ []

abbrev pub is_request_id_char : ℕ → Bool
is_request_id_char c = is_alnum c || c == b'.' || c == b'_' || c == b'-'

-- `[A-Za-z0-9._-]{1,64}`
unfoldable pub is_request_id : Text → Bool
is_request_id t = every is_request_id_char t && leb 1 (length t) && leb (length t) 64

-- `[0-9A-DF-HJ-Z][0-9A-Z]{4}`
unfoldable pub is_sqlstate : Text → Bool
is_sqlstate [] = false
is_sqlstate (c ∷ t) =
    (is_digit c || is_upper c)
    && not (c == b'E')
    && not (c == b'I')
    && every (λ d. is_digit d || is_upper d) t
    && length t == 4

pub record Entry : Type 0 where
  pub request_id : Text
  pub action : Text
  pub category : Text
  pub sqlstate : Option Text
  pub recorded_at : ℕ

unfoldable pub is_expired : ℕ → Entry → Bool
is_expired now entry = ltb failure_diagnostic_ttl (now - entry.recorded_at)

-- The loop that takes expired entries off the left end.
unfoldable pub drop_expired : ℕ → List Entry → List Entry
drop_expired now [] = []
drop_expired now (entry ∷ ring) =
    let rest = drop_expired now ring in if is_expired now entry then rest else entry ∷ ring

-- `append` of a deque with a `maxlen`.
unfoldable pub append_bounded : Entry → List Entry → List Entry
append_bounded entry ring =
    if ltb (length ring) max_failure_diagnostics
    then ring ++ entry ∷ []
    else drop 1 ring ++ entry ∷ []

-- `value if value in names else "unknown"`
abbrev pub known : List Text → Text → Text
known names value = if member value names then value else codes "unknown"

unfoldable pub safe_sqlstate : Option Text → Option Text
safe_sqlstate none = none
safe_sqlstate (some t) = if is_sqlstate t then some t else none

unfoldable pub new_entry : ℕ → Text → Text → Text → Option Text → Entry
new_entry now request_id action category sqlstate = record {
  request_id = request_id;
  action = known sync_actions action;
  category = known failure_categories category;
  sqlstate = safe_sqlstate sqlstate;
  recorded_at = now;
}

unfoldable pub record_failure_diagnostic :
    ℕ → Text → Text → Text → Option Text → List Entry → List Entry
unfolding new_entry
record_failure_diagnostic now request_id action category sqlstate ring =
    if not (is_request_id request_id)
    then ring
    else append_bounded (new_entry now request_id action category sqlstate) (drop_expired now ring)

-- The first entry with the number from the right end.
unfoldable pub latest : Text → List Entry → Option Entry
latest request_id [] = none
latest request_id (entry ∷ ring) = elim (latest request_id ring) [
  | some found ↦ some found
  | none ↦ if entry.request_id == request_id then some entry else none
]

abbrev pub diagnostic_not_found : Raised
diagnostic_not_found = value_error (codes "diagnostic not found")

-- The instant in seconds.
abbrev pub reported : Entry → Entry
reported entry = record entry { recorded_at = entry.recorded_at / 1000 }

abbrev pub report : Option Entry → Result Entry
report none = err diagnostic_not_found
report (some entry) = ok (reported entry)

-- The loop over the entries: `hmac.compare_digest` raises `TypeError` on a value that is no text.
unfoldable pub look_up : Value → List Entry → Result Entry
look_up (str t) ring = report (latest t ring)
look_up v ring = if is_empty ring then err diagnostic_not_found else err other

unfoldable pub failure_diagnostic : Python → ℕ → Value → List Entry → Result Entry × List Entry
unfolding look_up
failure_diagnostic py now request_id ring =
    if not (is_request_id (text_of py request_id))
    then (err diagnostic_not_found, ring)
    else (look_up request_id (drop_expired now ring), drop_expired now ring)
