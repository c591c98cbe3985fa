-- ===== src/Usage/Page.antt =====
-- The bounds of a page of usage logs.
use sub2api_gate.Base.{◌≡◌, ◌≤◌, true, length, All}
use sub2api_gate.Usage.{UsageItem, UsagePage, page_max}

-- Each text is as short as its limit says.
pub record IsShortItem (item : UsageItem) : Type 0 where
  pub request_id : length item.request_id ≤ 128
  pub model : length item.model ≤ 128
  pub requested_model : length item.requested_model ≤ 128
  pub total_cost : length item.total_cost ≤ 64
  pub actual_cost : length item.actual_cost ≤ 64
  pub request_type : length item.request_type ≤ 32
  pub inbound_endpoint : length item.inbound_endpoint ≤ 256
  pub created_at : length item.created_at ≤ 64

pub record IsPage (page : UsagePage) : Type 0 where
  pub bounded : (1 ≤ page.page_size) × (page.page_size ≤ page_max)
  pub short : length page.items ≤ page.page_size
  pub full : page.has_more ≡ true → length page.items ≡ page.page_size
  pub texts : All IsShortItem page.items
