-- ===== src/Usage/Tests.antt =====
-- Pages of usage logs, from concrete rows.
use sub2api_gate.Base.{
  ok, other, false, ℕ, ◌≡◌, refl, List, [], ◌∷◌, map, codes, text_eqb, to_lower, err, value_error,
  pos,
}
use sub2api_gate.Payload.{
  Python, Value, null, real, int, str, obj, field, end, str_of, text_of, truthy,
}
use sub2api_gate.Usage.{
  Conversion, number, unreadable, overflow, UsagePage, clamp, clamp_int, get_or, sanitize_fields_of,
  sanitize_usage_item, usage_items, cursor_of, list_usage_logs, get_usage_log_detail,
}

abbrev ascii : Python
ascii = record { repr = λ v. []; lower = map to_lower; lower_ascii = λ t h. refl }

abbrev number_of : Value → Conversion
number_of (int n) = number n
number_of (real zero_valued text) = overflow
number_of v = unreadable

abbrev row : ℕ → Value
row n = obj (field (codes "id") (int (pos n)) (field (codes "createdAt") (str (codes "2026")) end))

abbrev rows : ℕ → List Value
rows limit = row 9 ∷ null ∷ row 8 ∷ []

first_page_goes_on :
    (page : UsagePage) × (list_usage_logs ascii number_of rows (int (pos 1)) ≡ ok page)
    × (page.next_cursor ≡ int (pos 9))
    × (page.next_cursor_created_at ≡ codes "2026")
unfolding list_usage_logs clamp_int clamp usage_items sanitize_usage_item sanitize_fields_of get_or
    cursor_of text_of str_of truthy text_eqb
first_page_goes_on = (_, refl, refl, refl)

missing_log :
    get_usage_log_detail ascii number_of (null ∷ [])
    ≡ err (value_error (codes "usage log not found"))
unfolding get_usage_log_detail sanitize_usage_item
missing_log = refl

-- JSON's `1e999` is an infinite float.
infinite_size : list_usage_logs ascii number_of rows (real false (codes "1e999")) ≡ err other
unfolding list_usage_logs clamp_int
infinite_size = refl
