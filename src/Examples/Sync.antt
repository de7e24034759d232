-- ===== src/Examples/Sync.antt =====
-- The theorems on synchronisation sessions.
use libimobiledevice.Common.{◌≡◌, refl, true, not, [], ◌∷◌, some}
use libimobiledevice.Common.Bytes.{codes}
use libimobiledevice.Common.Run.{ret}
use libimobiledevice.DeviceLink.{Text, device_link_error, ping_name}
use libimobiledevice.DeviceLink.Exchange.{
  device_link_service_receive, device_link_service_send_ping, send_to,
}
use libimobiledevice.Mobilesync.{MobilesyncError, mobilesync_error, Direction, Client}
use libimobiledevice.Mobilesync.Answers.{
  expect, response_type, text_of, item_of, is_cancel, create_process_changes_message,
}
use libimobiledevice.Mobilesync.Calls.{
  mobilesync_receive, ping_ready, mobilesync_ready_to_send_changes_from_computer,
}
use libimobiledevice.Mobilesync.Phases.{Call, after, phase_of, perform}
use libimobiledevice.Mobilesync.Phases.Machine.{perform-after}
use libimobiledevice.Examples.Links.{Tree, tree, array_of, Peer, peer, link}

-- "com" as a data class.
abbrev class : Text
class = 99 ∷ 111 ∷ 109 ∷ []

abbrev syncing : Direction → Peer → Client Peer
syncing d p = record { parent = some p; direction = d; data_class = some class }

abbrev ready_peer : Peer
ready_peer = peer [] (array_of (Tree.text (codes "SDMessageDeviceReadyToReceiveChanges") ∷ []) ∷ [])

abbrev pinged_peer : Peer
pinged_peer =
    peer
      (some (
          array_of
            (Tree.text ping_name ∷ Tree.text (codes "Preparing to get changes for device") ∷ []))
        ∷ [])
      []

made_ready :
    perform tree link Call.ready (syncing Direction.device_to_computer ready_peer)
    ≡ ret (MobilesyncError.success, syncing Direction.computer_to_device pinged_peer)
unfolding perform mobilesync_ready_to_send_changes_from_computer mobilesync_receive ping_ready
    device_link_service_receive device_link_service_send_ping send_to device_link_error
    mobilesync_error expect response_type text_of item_of is_cancel
made_ready = refl

perform-after_example :
    phase_of (syncing Direction.computer_to_device pinged_peer)
    ≡ after {P = Tree} Call.ready MobilesyncError.success
        (phase_of (syncing Direction.device_to_computer ready_peer))
perform-after_example =
    perform-after tree link Call.ready (syncing Direction.device_to_computer ready_peer)
      MobilesyncError.success (syncing Direction.computer_to_device pinged_peer) made_ready

abbrev changes_peer : Peer
changes_peer =
    peer [] (create_process_changes_message tree class Tree.dict (not true) (some Tree.dict) ∷ [])
