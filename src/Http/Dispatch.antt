-- ===== src/Http/Dispatch.antt =====
-- `dispatch_action`, over an interface to the actions, and the state that the handler works on.
use sub2api_gate.Base.{
  ℕ, true, Option, none, some, text_eq, Text, codes, ◌==◌, if◌then◌else◌, pos, value_error, List,
  Result, ok, err,
}
use sub2api_gate.Payload.{Python, Value, null, bool, int, str, obj, Fields, end, field, get}
use sub2api_gate.Diagnostics.{Entry, failure_diagnostic}

-- The actions: each reads a payload, and gives a response and the data that it leaves.
pub record Actions (S : Type 0) : Type 0 where
  pub provision : Fields → S → Result Value × S
  pub status : Fields → S → Result Value × S
  pub login : Fields → S → Result Value × S
  pub deprovision : Fields → S → Result Value × S
  pub purge : Fields → S → Result Value × S
  pub list_usage_logs : Fields → S → Result Value × S
  pub get_usage_log_detail : Fields → S → Result Value × S
  pub list_groups : Fields → S → Result Value × S
  pub test_api_key : Fields → S → Result Value × S

-- The nonces that Redis holds, the data that the actions work on, and the recorded failures.
pub record World (Store S : Type 0) : Type 0 where
  pub nonces : Store
  pub data_of : S
  pub failures : List Entry

abbrev pub sqlstate_value : Option Text → Value
sqlstate_value none = null
sqlstate_value (some t) = str t

abbrev pub diagnostic_value : Entry → Value
diagnostic_value entry = obj (
    field (codes "requestId") (str entry.request_id) (
      field (codes "action") (str entry.action) (
        field (codes "category") (str entry.category) (
          field (codes "sqlstate") (sqlstate_value entry.sqlstate)
            (field (codes "recordedAt") (int (pos entry.recorded_at)) end)))))

unfoldable pub diagnostics_reply : Result Entry → Result Value
diagnostics_reply (err e) = err e
diagnostics_reply (ok entry) = ok (
    obj (
      field (codes "ok") (bool true) (
        field (codes "action") (str (codes "diagnostics"))
          (field (codes "diagnostic") (diagnostic_value entry) end))))

module _ (py : Python) {Store S : Type 0} (actions : Actions S) where
  -- An action works on the data alone.
  unfoldable pub run :
      (Fields → S → Result Value × S) → Fields → World Store S → Result Value × World Store S
  run action payload w =
      let (reply, after) = action payload w.data_of in (reply, record w { data_of = after })

  unfoldable pub diagnostics : ℕ → Fields → World Store S → Result Value × World Store S
  diagnostics now payload w =
      let (found, after) = failure_diagnostic py now (get (codes "requestId") payload) w.failures in
      (diagnostics_reply found, record w { failures = after })

  unfoldable pub dispatch_action : ℕ → Text → Fields → World Store S → Result Value × World Store S
  unfolding run diagnostics
  dispatch_action now action payload w =
      if action == codes "provision"
      then run actions.provision payload w
      else if action == codes "status"
      then run actions.status payload w
      else if action == codes "login"
      then run actions.login payload w
      else if action == codes "deprovision"
      then run actions.deprovision payload w
      else if action == codes "purge"
      then run actions.purge payload w
      else if action == codes "usage_logs_list"
      then run actions.list_usage_logs payload w
      else if action == codes "usage_log_detail"
      then run actions.get_usage_log_detail payload w
      else if action == codes "list_groups"
      then run actions.list_groups payload w
      else if action == codes "test_api_key"
      then run actions.test_api_key payload w
      else if action == codes "diagnostics"
      then diagnostics now payload w
      else (err (value_error (codes "invalid action")), w)
