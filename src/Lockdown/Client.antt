-- ===== src/Lockdown/Client.antt =====
-- src/lockdown.c: the client object, and the verdict on an answer.
use libimobiledevice.Common.{ℕ, Bool, true, Option, none, some, if◌then◌else◌}
use libimobiledevice.Common.Bytes.{bytes_eq, codes}
use libimobiledevice.DeviceLink.{Text}
use libimobiledevice.Dictionary.{Dicts, item_in, string_in}
use libimobiledevice.Lockdown.Error.{LockdownError, lockdownd_strtoerr}

-- struct idevice_private, less what says how to connect to it.
pub record Device : Type 0 where
  pub udid : Text
  pub mux_id : ℕ
  pub version : ℕ
  pub device_class : ℕ

-- struct lockdownd_client_private, less the key of src/lockdown-cu.c; `session_id` and `label` are
-- `none` for NULL.
pub record Client (C : Type 0) : Type 0 where
  pub parent : C
  pub ssl_enabled : Bool
  pub session_id : Option Text
  pub label : Option Text
  pub device : Device

-- `query_match && strcmp(query_value, query_match) != 0` is false.
unfoldable pub matches : Option Text → Text → Bool
matches none query_value = true
matches (some query_match) query_value = bytes_eq query_value query_match

module _ {P : Type 0} (dicts : Dicts P) where
  -- The code for the `Error` item of an answer: that of its name, if it is a string.
  unfoldable pub error_code : P → LockdownError
  error_code err_node = elim (string_in dicts (some err_node)) [
    | none ↦ LockdownError.unknown_error
    | some err_value ↦ lockdownd_strtoerr err_value
  ]

  -- The code for the `Result` item. Only "Success" is a success.
  unfoldable pub result_code : Option P → LockdownError
  result_code none = LockdownError.success
  result_code (some result_node) = elim (string_in dicts (some result_node)) [
    | none ↦ LockdownError.unknown_error
    | some result_value ↦
        if bytes_eq result_value (codes "Success")
        then LockdownError.success
        else LockdownError.unknown_error
  ]

  -- After the `Request` item has been accepted.
  unfoldable pub answer_code : Option P → LockdownError
  answer_code dict = elim (item_in dicts dict (codes "Error")) [
    | some err_node ↦ error_code err_node
    | none ↦ result_code (item_in dicts dict (codes "Result"))
  ]

  -- An answer that is not there has no items.
  unfoldable pub lockdown_check_result : Option P → Option Text → LockdownError
  lockdown_check_result dict query_match =
      elim (string_in dicts (item_in dicts dict (codes "Request"))) [
        | none ↦ LockdownError.unknown_error
        | some query_value ↦
            if matches query_match query_value
            then answer_code dict
            else LockdownError.unknown_error
      ]
