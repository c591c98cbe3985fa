-- ===== src/Usage.antt =====
-- The pages of usage logs (sub2api-sync/usage_metadata.py): `clamp_int`, `sanitize_usage_item`, and
-- `list_usage_logs` and `get_usage_log_detail` on the rows that the query gives.
pub mod Page
mod Tests
use sub2api_gate.Base.{
  ℕ, ◌+◌, min, max, Bool, true, false, Option, none, some, List, [], ◌∷◌, Text, codes, ◌==◌,
  text_eq, ltb, length, take, ℤ, pos, negsuc, if◌then◌else◌, value_error, other, ◌>>=◌, Result, ok,
  err,
}
use sub2api_gate.Payload.{Python, Value, Fields, null, bool, int, str, obj, field, end, text_of}

abbrev pub page_default : ℕ
page_default = 25

abbrev pub page_max : ℕ
page_max = 100

-- `max(minimum, min(number, maximum))`
unfoldable pub clamp : ℤ → ℕ → ℕ → ℕ
clamp (pos n) minimum maximum = max minimum (min n maximum)
clamp (negsuc n) minimum maximum = minimum

-- What `int(value)` does: it gives a number, raises a `TypeError` or a `ValueError`, or raises an
-- `OverflowError`, as it does for an infinite float.
pub data Conversion : Type 0 where
  number : ℤ → Conversion
  unreadable : Conversion
  overflow : Conversion

-- `clamp_int`, by what `int(value)` does. An `OverflowError` is not caught.
unfoldable pub clamp_int : Conversion → ℕ → ℕ → ℕ → Result ℕ
unfolding clamp
clamp_int (number n) fallback minimum maximum = ok (clamp n minimum maximum)
clamp_int unreadable fallback minimum maximum = ok (clamp (pos fallback) minimum maximum)
clamp_int overflow fallback minimum maximum = err other

-- `item.get(field, default)`
unfoldable pub get_or : Text → Value → Fields → Value
get_or key fallback end = fallback
get_or key fallback (field k v rest) = if k == key then v else get_or key fallback rest

-- What of a row is passed on.
pub record UsageItem : Type 0 where
  pub id : Value
  pub request_id : Text
  pub model : Text
  pub requested_model : Text
  pub input_tokens : Value
  pub output_tokens : Value
  pub cache_creation_tokens : Value
  pub cache_read_tokens : Value
  pub total_cost : Text
  pub actual_cost : Text
  pub duration_ms : Value
  pub stream : Value
  pub request_type : Text
  pub inbound_endpoint : Text
  pub created_at : Text

-- The part of the answer that the rows decide; no cursor is the number 0.
pub record UsagePage : Type 0 where
  pub items : List UsageItem
  pub page_size : ℕ
  pub has_more : Bool
  pub next_cursor : Value
  pub next_cursor_created_at : Text

abbrev pub last_item : List UsageItem → Option UsageItem
last_item [] = none
last_item (item ∷ []) = some item
last_item (item ∷ next ∷ items) = last_item (next ∷ items)

-- `visible[-1]` under the test `has_more and visible`.
unfoldable pub cursor_of : Bool → List UsageItem → Value × Text
cursor_of false visible = (int (pos 0), [])
cursor_of true visible = elim (last_item visible) [
  | none ↦ (int (pos 0), [])
  | some item ↦ (item.id, item.created_at)
]

abbrev pub page_of : ℕ → List UsageItem → UsagePage
page_of page_size items =
    let more = ltb page_size (length items) in
    let visible = take page_size items in
    record {
      items = visible;
      page_size = page_size;
      has_more = more;
      next_cursor = (cursor_of more visible).0;
      next_cursor_created_at = (cursor_of more visible).1;
    }

module _ (py : Python) (int_of : Value → Conversion) where
  -- A text of the item, cut.
  abbrev pub cut_field : Text → Value → ℕ → Fields → Text
  cut_field name fallback limit fs = take limit (text_of py (get_or name fallback fs))

  unfoldable pub sanitize_fields_of : Fields → UsageItem
  unfolding get_or
  sanitize_fields_of fs =
      let zero = int (pos 0) in
      record {
        id = get_or (codes "id") zero fs;
        request_id = cut_field (codes "requestId") (str []) 128 fs;
        model = cut_field (codes "model") (str []) 128 fs;
        requested_model = cut_field (codes "requestedModel") (str []) 128 fs;
        input_tokens = get_or (codes "inputTokens") zero fs;
        output_tokens = get_or (codes "outputTokens") zero fs;
        cache_creation_tokens = get_or (codes "cacheCreationTokens") zero fs;
        cache_read_tokens = get_or (codes "cacheReadTokens") zero fs;
        total_cost = cut_field (codes "totalCost") (str (codes "0")) 64 fs;
        actual_cost = cut_field (codes "actualCost") (str (codes "0")) 64 fs;
        duration_ms = get_or (codes "durationMs") zero fs;
        stream = get_or (codes "stream") (bool false) fs;
        request_type = cut_field (codes "requestType") (str []) 32 fs;
        inbound_endpoint = cut_field (codes "inboundEndpoint") (str []) 256 fs;
        created_at = cut_field (codes "createdAt") (str []) 64 fs;
      }

  unfoldable pub sanitize_usage_item : Value → Option UsageItem
  unfolding sanitize_fields_of
  sanitize_usage_item (obj fs) = some (sanitize_fields_of fs)
  sanitize_usage_item v = none

  -- The items of the rows that are objects.
  unfoldable pub usage_items : List Value → List UsageItem
  unfolding sanitize_usage_item
  usage_items [] = []
  usage_items (row ∷ rows) =
      let rest = usage_items rows in
      elim (sanitize_usage_item row) [ none ↦ rest | some item ↦ item ∷ rest ]

  -- `query_rows limit` is what the query gives for a limit.
  unfoldable pub list_usage_logs : (ℕ → List Value) → Value → Result UsagePage
  unfolding usage_items clamp_int cursor_of
  list_usage_logs query_rows requested = do
    page_size ← clamp_int (int_of requested) page_default 1 page_max
    ok (page_of page_size (usage_items (query_rows (page_size + 1))))

  -- The first row that the query gives, or an error.
  unfoldable pub get_usage_log_detail : List Value → Result UsageItem
  unfolding sanitize_usage_item
  get_usage_log_detail [] = err (value_error (codes "usage log not found"))
  get_usage_log_detail (row ∷ rows) = elim (sanitize_usage_item row) [
    | none ↦ err (value_error (codes "usage log not found"))
    | some item ↦ ok item
  ]
