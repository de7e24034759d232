-- ===== src/Mobilesync/Calls.antt =====
-- src/mobilesync.c: the operations of the client.
use libimobiledevice.Common.{ℕ, Bool, true, false, not, [], ◌∷◌, Option, none, some, if◌then◌else◌}
use libimobiledevice.Common.Bytes.{codes}
use libimobiledevice.Common.Run.{Run, ret, ◌>>=◌}
use libimobiledevice.PlistService.{Channel}
use libimobiledevice.DeviceLink.{Text, Plist, is_dict, empty_parameter}
use libimobiledevice.DeviceLink.Exchange.{
  device_link_service_send, device_link_service_receive, device_link_service_send_ping,
}
use libimobiledevice.Mobilesync.{MobilesyncError, mobilesync_error, Direction, Client, Anchors}
use libimobiledevice.Mobilesync.Answers.{
  Started, not_started, Changes, no_changes, start_result, finish_result, expect, changes_result,
  dict_of, item_of, create_process_changes_message, remap_name,
}

abbrev pub is_success : MobilesyncError → Bool
is_success MobilesyncError.success = true
is_success _ = false

abbrev pub is_sending : Direction → Bool
is_sending Direction.device_to_computer = false
is_sending Direction.computer_to_device = true

-- The session that has just been begun, and no session.
abbrev pub opened : {C : Type 0} → Text → Client C → Client C
opened t c = record c { data_class = some t; direction = Direction.device_to_computer }

abbrev pub closed : {C : Type 0} → Client C → Client C
closed c = record c { data_class = none; direction = Direction.device_to_computer }

-- Most operations are refused when there is no session, and know its data class otherwise.
abbrev pub in_session : {X : Type 0} → X → (Text → Run X) → Option Text → Run X
in_session refused k none = ret refused
in_session refused k (some t) = k t

-- The client is the one that a pointer leads to, which is not NULL; pointers to results are not
-- NULL. A result that is not stored is `none`.
module _ {P C : Type 0} (plist : Plist P) (channel : Channel P C) where
  abbrev pub Answer : Type 0
  Answer = Run (MobilesyncError × Client C)

  unfoldable pub mobilesync_receive : Client C → Run (MobilesyncError × Option P × Client C)
  mobilesync_receive c = device_link_service_receive plist channel c.parent >>= λ r.
      ret (mobilesync_error r.0, r.1, record c { parent = r.2 })

  unfoldable pub mobilesync_send : P → Client C → Answer
  mobilesync_send msg c = device_link_service_send plist channel c.parent (some msg) >>= λ r.
      ret (mobilesync_error r.0, record c { parent = r.1 })

  -- A message and the device's answer to it.
  unfoldable pub ask : P → Client C → Run (MobilesyncError × Option P × Client C)
  ask msg c = mobilesync_send msg c >>= λ r.
      if is_success r.0 then mobilesync_receive r.1 else ret (r.0, none, r.1)

  unfoldable pub start_message : Text → Option Text → Text → ℕ → P
  start_message data_class device_anchor computer_anchor version = plist.new_array (
      plist.new_string (codes "SDMessageSyncDataClassWithDevice")
      ∷ plist.new_string data_class
      ∷ plist.new_string (elim device_anchor [ none ↦ codes "---" | some a ↦ a ])
      ∷ plist.new_string computer_anchor
      ∷ plist.new_uint version
      ∷ plist.new_string empty_parameter
      ∷ [])

  -- Past the checks of the arguments. The session is there whatever the answer.
  unfoldable pub start_session :
      Text → Option Text → Text → ℕ → Client C → Run (MobilesyncError × Started × Client C)
  start_session data_class device_anchor computer_anchor version c =
      ask (start_message data_class device_anchor computer_anchor version) c >>= λ r.
      let q = if is_success r.0 then start_result plist r.1 else (r.0, not_started) in
      ret (q.0, q.1, opened data_class r.2)

  -- By the data class of the session that there is.
  unfoldable pub start_from :
      Option Text
      → Option Text
      → Option Anchors
      → ℕ
      → Client C
      → Run (MobilesyncError × Started × Client C)
  start_from none (some data_class) (some anchors) version c = elim anchors.computer_anchor [
    | none ↦ ret (MobilesyncError.invalid_arg, not_started, c)
    | some computer_anchor ↦
        start_session data_class anchors.device_anchor computer_anchor version c
  ]
  start_from _ _ _ version c = ret (MobilesyncError.invalid_arg, not_started, c)

  unfoldable pub mobilesync_start :
      Option Text → Option Anchors → ℕ → Client C → Run (MobilesyncError × Started × Client C)
  mobilesync_start data_class anchors version c =
      start_from c.data_class data_class anchors version c

  unfoldable pub mobilesync_finish : Client C → Answer
  mobilesync_finish c =
      in_session (MobilesyncError.invalid_arg, c)
        (λ t.
          ask
            (plist.new_array
              (plist.new_string (codes "SDMessageFinishSessionOnDevice") ∷ plist.new_string t ∷ []))
            c
          >>= λ r. ret ((if is_success r.0 then finish_result plist r.1 else r.0), closed r.2))
        c.data_class

  unfoldable pub mobilesync_get_records : Text → Client C → Answer
  mobilesync_get_records operation c =
      in_session (MobilesyncError.invalid_arg, c)
        (λ t.
          mobilesync_send (plist.new_array (plist.new_string operation ∷ plist.new_string t ∷ []))
            c)
        c.data_class

  unfoldable pub mobilesync_get_all_records_from_device : Client C → Answer
  mobilesync_get_all_records_from_device c =
      mobilesync_get_records (codes "SDMessageGetAllRecordsFromDevice") c

  unfoldable pub mobilesync_get_changes_from_device : Client C → Answer
  mobilesync_get_changes_from_device c =
      mobilesync_get_records (codes "SDMessageGetChangesFromDevice") c

  unfoldable pub mobilesync_receive_changes :
      Client C → Run (MobilesyncError × Changes P × Client C)
  mobilesync_receive_changes c =
      in_session (MobilesyncError.invalid_arg, no_changes, c)
        (λ t. mobilesync_receive c >>= λ r.
          let q = if is_success r.0 then changes_result plist r.1 else (r.0, no_changes) in
          ret (q.0, q.1, r.2))
        c.data_class

  unfoldable pub mobilesync_clear_all_records_on_device : Client C → Answer
  mobilesync_clear_all_records_on_device c =
      in_session (MobilesyncError.invalid_arg, c)
        (λ t.
          ask
            (plist.new_array (
              plist.new_string (codes "SDMessageClearAllRecordsOnDevice")
              ∷ plist.new_string t
              ∷ plist.new_string empty_parameter
              ∷ []))
            c
          >>= λ r. ret (
            (if is_success r.0
                then expect plist (codes "SDMessageDeviceWillClearAllRecords")
                    MobilesyncError.plist_error r.1
                else r.0),
            r.2,
          ))
        c.data_class

  unfoldable pub mobilesync_acknowledge_changes_from_device : Client C → Answer
  mobilesync_acknowledge_changes_from_device c =
      mobilesync_get_records (codes "SDMessageAcknowledgeChangesFromDevice") c

  -- After the message that the device is ready.
  unfoldable pub ping_ready : Client C → Answer
  ping_ready c =
      device_link_service_send_ping plist channel c.parent
        (some (codes "Preparing to get changes for device"))
      >>= λ r.
          let e = mobilesync_error r.0 in
          let c' = record c { parent = r.1 } in
          ret (
            e,
            (if is_success e then record c' { direction = Direction.computer_to_device } else c'),
          )

  unfoldable pub mobilesync_ready_to_send_changes_from_computer : Client C → Answer
  mobilesync_ready_to_send_changes_from_computer c =
      in_session (MobilesyncError.invalid_arg, c)
        (λ t.
          if is_sending c.direction
          then ret (MobilesyncError.wrong_direction, c)
          else mobilesync_receive c >>= λ r.
              let e =
                if is_success r.0
                then expect plist (codes "SDMessageDeviceReadyToReceiveChanges")
                    MobilesyncError.not_ready r.1
                else r.0 in
              if is_success e then ping_ready r.2 else ret (e, r.2))
        c.data_class

  unfoldable pub send_entities : Text → Option P → Bool → Option P → Client C → Answer
  send_entities t none is_last_record actions c = ret (MobilesyncError.invalid_arg, c)
  send_entities t (some entities) is_last_record actions c =
      if not (is_dict (plist.node_type entities))
      then ret (MobilesyncError.invalid_arg, c)
      else if not (is_sending c.direction)
      then ret (MobilesyncError.wrong_direction, c)
      else mobilesync_send
          (create_process_changes_message plist t entities (not is_last_record) actions) c

  unfoldable pub mobilesync_send_changes : Option P → Bool → Option P → Client C → Answer
  mobilesync_send_changes entities is_last_record actions c =
      in_session (MobilesyncError.invalid_arg, c)
        (λ t. send_entities t entities is_last_record actions c) c.data_class

  -- The code, `*mapping`, the client.
  unfoldable pub mobilesync_remap_identifiers :
      Client C → Run (MobilesyncError × Option P × Client C)
  mobilesync_remap_identifiers c =
      in_session (MobilesyncError.invalid_arg, none, c)
        (λ t.
          if not (is_sending c.direction)
          then ret (MobilesyncError.wrong_direction, none, c)
          else mobilesync_receive c >>= λ r.
              let e =
                if is_success r.0
                then expect plist remap_name MobilesyncError.plist_error r.1
                else r.0 in
              ret (e, (if is_success e then dict_of plist (item_of plist r.1 2) else none), r.2))
        c.data_class

  unfoldable pub cancel_session : Option Text → Option Text → Client C → Answer
  cancel_session (some t) (some reason) c =
      mobilesync_send
        (plist.new_array (
          plist.new_string (codes "SDMessageCancelSession")
          ∷ plist.new_string t
          ∷ plist.new_string reason
          ∷ []))
        c
      >>= λ r. ret (r.0, closed r.1)
  cancel_session _ _ c = ret (MobilesyncError.invalid_arg, c)

  unfoldable pub mobilesync_cancel : Option Text → Client C → Answer
  mobilesync_cancel reason c = cancel_session c.data_class reason c
