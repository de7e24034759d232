-- ===== src/InstallationProxy.antt =====
-- src/installation_proxy.c: a command is sent, and the status messages for it are received until one
-- ends it.
pub mod Error
pub mod Commands
pub mod Verdict
pub mod Completed
pub mod Masked
pub mod Lookup
use libimobiledevice.Common.{
  ℕ, zero, suc, ◌%◌, ◌^◌, Bool, true, false, not, Option, none, some, if◌then◌else◌,
}
use libimobiledevice.Common.Bytes.{bytes_eq, codes}
use libimobiledevice.Common.Run.{Run, ret, hangs, ◌>>=◌}
use libimobiledevice.Service.{Service}
use libimobiledevice.PlistService.{
  PlistServiceError, Codec, PlistClient, property_list_service_send_xml_plist,
  property_list_service_receive_plist_with_timeout,
}
use libimobiledevice.DeviceLink.{Text}
use libimobiledevice.Dictionary.{Dicts, string_of, set_string}
use libimobiledevice.InstallationProxy.Error.{
  InstproxyError, is_success, instproxy_error, instproxy_strtoerr,
}

-- property_list_service_send_xml_plist and property_list_service_receive_plist_with_timeout.
pub record Proxied (P C : Type 0) : Type 0 where
  pub send_xml_plist : C → P → Run (PlistServiceError × C)
  pub receive_plist_with_timeout : C → ℕ → Run (PlistServiceError × Option P × C)

-- Over a byte service; the allocator and the rounds are those of the reception.
abbrev pub proxied_of :
    {P S : Type 0} → Codec P → Service S → ℕ → (ℕ → Bool) → Proxied P (PlistClient S)
proxied_of codec service rounds grants = record {
  send_xml_plist = λ c p. property_list_service_send_xml_plist codec service c (some p);
  receive_plist_with_timeout =
      property_list_service_receive_plist_with_timeout codec service rounds grants;
}

-- struct instproxy_client_private, less its mutex, which is held for one call at a time; `busy` says
-- whether there is a receive_status_thread.
pub record Client (C : Type 0) : Type 0 where
  pub parent : Option C
  pub busy : Bool

abbrev pub is_communication_problem : InstproxyError → Bool
is_communication_problem InstproxyError.success = false
is_communication_problem InstproxyError.receive_timeout = false
is_communication_problem _ = true

-- instproxy_command_type_t.
pub data CommandType : Type 0 where
  async sync : CommandType

-- What the Status of a message makes of the code so far and of `complete`.
unfoldable pub after_status : InstproxyError → Bool → Option Text → InstproxyError × Bool
after_status res complete none = (res, complete)
after_status res complete (some name) =
    if bytes_eq name (codes "Complete")
    then (res, true)
    else (InstproxyError.op_in_progress, complete)

module _ {P : Type 0} (dicts : Dicts P) where
  -- The code, where `*name` is the name that was read.
  unfoldable pub error_of : Option P → Option Text → InstproxyError
  error_of none name = InstproxyError.success
  error_of (some node) none = InstproxyError.unknown_error
  error_of (some node) (some name) = instproxy_strtoerr name

  unfoldable pub detail_of : Option P → ℕ
  detail_of none = 0
  detail_of (some node) = elim (dicts.plist.uint_val node) [ none ↦ 0 | some n ↦ n % 2 ^ 32 ]

  -- The code, the name, the description and the number of the error. No pointer is NULL, and those
  -- to strings lead to NULL before.
  unfoldable pub instproxy_status_get_error : P → InstproxyError × Option Text × Option Text × ℕ
  instproxy_status_get_error status =
      let node = dicts.get_item status (codes "Error") in
      (
        error_of node (string_of dicts node),
        string_of dicts node,
        string_of dicts (dicts.get_item status (codes "ErrorDescription")),
        detail_of (dicts.get_item status (codes "ErrorDetail")),
      )

  unfoldable pub instproxy_status_get_name : P → Option Text
  instproxy_status_get_name status = string_of dicts (dicts.get_item status (codes "Status"))

  -- The code and `complete` after a message.
  unfoldable pub verdict : P → InstproxyError × Bool
  verdict node =
      let res = (instproxy_status_get_error node).0 in
      after_status res (not (is_success res)) (instproxy_status_get_name node)

  unfoldable pub command_for : Text → Option P → P
  command_for name none = set_string dicts dicts.new_dict (codes "Command") name
  command_for name (some options) =
      dicts.set_item (set_string dicts dicts.new_dict (codes "Command") name)
        (codes "ClientOptions") options

  -- The copy of the LookupResult of a message, or what was there before.
  unfoldable pub instproxy_copy_lookup_result_cb : P → P → Option P → Option P
  instproxy_copy_lookup_result_cb command status result =
      elim (dicts.get_item status (codes "LookupResult")) [ none ↦ result | some node ↦ some node ]

-- A callback that may be NULL, with the state that user_data leads to.
abbrev pub StatusCb : Type 0 → Type 0 → Type 0
StatusCb P U = Option (P → P → U → U)

unfoldable pub invoke : {P U : Type 0} → StatusCb P U → P → P → U → U
invoke none command node u = u
invoke (some status_cb) command node u = status_cb command node u

-- The code, the client and the state of the callback.
abbrev pub Performed : Type 0 → Type 0 → Type 0
Performed C U = Run (InstproxyError × Option (Client C) × U)

module _ {P C U : Type 0} (dicts : Dicts P) (channel : Proxied P C) where
  -- `do ... while (!complete && client->parent)` for a parent that stays.
  unfoldable pub receive_status_loop : ℕ → StatusCb P U → P → C → U → Run (InstproxyError × C × U)
  receive_status_loop zero status_cb command c u = hangs
  receive_status_loop (suc f) status_cb command c u =
      channel.receive_plist_with_timeout c 1000 >>= λ r.
      elim (is_communication_problem (instproxy_error r.0)) [
        | true ↦ ret (instproxy_error r.0, r.2, u)
        | false ↦ elim r.1 [
          | none ↦ receive_status_loop f status_cb command r.2 u
          | some node ↦ elim (verdict dicts node).1 [
            | true ↦ ret ((verdict dicts node).0, r.2, invoke status_cb command node u)
            | false ↦ receive_status_loop f status_cb command r.2 (invoke status_cb command node u)
          ]
        ]
      ]

-- `thread_new` says whether the thread is created, which is given `user_data` as it is.
module _ {P C U : Type 0} (dicts : Dicts P) (channel : Proxied P C) (thread_new : Bool) where
  -- In a client that is not busy, with the given parent.
  unfoldable pub receive_status_loop_with_callback :
      ℕ → CommandType → StatusCb P U → P → C → U → Performed C U
  receive_status_loop_with_callback rounds CommandType.async status_cb command c u =
      if thread_new
      then ret (InstproxyError.success, some (record { parent = some c; busy = true }), u)
      else ret (InstproxyError.unknown_error, some (record { parent = some c; busy = false }), u)
  receive_status_loop_with_callback rounds CommandType.sync status_cb command c u =
      receive_status_loop dicts channel rounds status_cb command c u >>= λ r.
      ret (r.0, some (record { parent = some r.1; busy = false }), r.2)

  -- The code of sending the command is overwritten.
  unfoldable pub perform_over : ℕ → CommandType → StatusCb P U → P → C → U → Performed C U
  perform_over rounds type status_cb command c u = channel.send_xml_plist c command >>= λ r.
      receive_status_loop_with_callback rounds type status_cb command r.1 u

  -- The command is not NULL.
  unfoldable pub perform_in :
      ℕ → Option C → Bool → CommandType → StatusCb P U → P → U → Performed C U
  perform_in rounds none busy type status_cb command u =
      ret (InstproxyError.invalid_arg, some (record { parent = none; busy = busy }), u)
  perform_in rounds (some c) true type status_cb command u =
      ret (InstproxyError.op_in_progress, some (record { parent = some c; busy = true }), u)
  perform_in rounds (some c) false type status_cb command u =
      perform_over rounds type status_cb command c u

  unfoldable pub instproxy_perform_command :
      ℕ → Option (Client C) → CommandType → StatusCb P U → P → U → Performed C U
  instproxy_perform_command rounds none type status_cb command u =
      ret (InstproxyError.invalid_arg, none, u)
  instproxy_perform_command rounds (some client) type status_cb command u =
      perform_in rounds client.parent client.busy type status_cb command u
