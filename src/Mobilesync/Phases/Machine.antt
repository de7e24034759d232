-- ===== src/Mobilesync/Phases/Machine.antt =====
-- The client implements the machine of the phases.
use libimobiledevice.Common.{◌≡◌, refl, ◌≢◌, Bool, Option, none, some, arith, inl, inr, Bool-cases}
use libimobiledevice.Common.Run.{ret}
use libimobiledevice.PlistService.{Channel}
use libimobiledevice.DeviceLink.{Text, Plist, is_dict}
use libimobiledevice.Mobilesync.{MobilesyncError, Direction, Client}
use libimobiledevice.Mobilesync.Calls.{
  in_session, mobilesync_start, mobilesync_get_all_records_from_device,
  mobilesync_get_changes_from_device, mobilesync_acknowledge_changes_from_device, send_entities,
  mobilesync_send_changes, mobilesync_cancel,
}
use libimobiledevice.Mobilesync.Phases.{Phase, Call, after, phase_in, phase_of, perform}
use libimobiledevice.Mobilesync.Phases.Stays.{
  get_records-Stays, receive_changes-Stays, clear_all_records-Stays, remap_identifiers-Stays,
  send_changes-Stays,
}
use libimobiledevice.Mobilesync.Phases.Moves.{finish-idle, cancel-phase, start-phase, ready-phase}

module _ {P C : Type 0} (plist : Plist P) (channel : Channel P C) where
  -- The client implements the abstract machine: whatever the answers of the device and the codes,
  -- a call that comes back takes the client to the phase that the machine goes to.
  pub perform-after :
      (call : Call P) (c : Client C) (e : MobilesyncError) (c' : Client C)
      → perform plist channel call c ≡ ret (e, c')
      → phase_of c' ≡ after call e (phase_of c)
  unfolding perform mobilesync_start mobilesync_cancel mobilesync_get_all_records_from_device
      mobilesync_get_changes_from_device mobilesync_acknowledge_changes_from_device
  perform-after (Call.start t a v) c e c' h =
      start-phase plist channel c.data_class t a v c e c' refl h
  perform-after Call.finish c e c' h = finish-idle plist channel c e c' h
  perform-after Call.get_all_records c e c' h = get_records-Stays plist channel _ c e c' h
  perform-after Call.get_changes c e c' h = get_records-Stays plist channel _ c e c' h
  perform-after Call.receive_changes c e c' h = receive_changes-Stays plist channel c e c' h
  perform-after Call.clear_all_records c e c' h = clear_all_records-Stays plist channel c e c' h
  perform-after Call.acknowledge c e c' h = get_records-Stays plist channel _ c e c' h
  perform-after Call.ready c e c' h = ready-phase plist channel c e c' h
  perform-after Call.remap c e c' h = remap_identifiers-Stays plist channel c e c' h
  perform-after (Call.send_changes p last actions) c e c' h =
      send_changes-Stays plist channel p last actions c e c' h
  perform-after (Call.cancel reason) c e c' h =
      cancel-phase plist channel c.data_class reason c e c' refl h

  -- Changes are sent in the pushing phase only: in every other, mobilesync_send_changes comes back
  -- with an error, and neither the client nor its connection has been touched.
  send_changes-refused :
      (entities : Option P) (last : Bool) (actions : Option P) (c : Client C)
      → phase_of c ≢ Phase.pushing
      → (e : MobilesyncError) × (e ≢ MobilesyncError.success)
        × (mobilesync_send_changes plist channel entities last actions c ≡ ret (e, c))
  unfolding mobilesync_send_changes send_entities
  send_changes-refused entities last actions c n =
      refused_in entities last actions c c.data_class c.direction refl n
    where
      refused_in :
          (entities : Option P) (last : Bool) (actions : Option P) (c : Client C) (t : Option Text)
          (d : Direction)
          → c.direction ≡ d
          → phase_in t d ≢ Phase.pushing
          → (e : MobilesyncError) × (e ≢ MobilesyncError.success)
            × (in_session
                  (MobilesyncError.invalid_arg, c)
                  (λ t. send_entities plist channel t entities last actions c)
                  t
                ≡ ret (e, c))
      refused_in entities last actions c none d k n = (MobilesyncError.invalid_arg, λ e. cc, refl)
      refused_in none last actions c (some t) d k n = (MobilesyncError.invalid_arg, λ e. cc, refl)
      refused_in (some p) last actions c (some t) Direction.device_to_computer k n =
          elim (Bool-cases (is_dict (plist.node_type p))) [
            | inl dict ↦ (MobilesyncError.wrong_direction, λ e. cc, ground (arith, dict, k))
            | inr other ↦ (MobilesyncError.invalid_arg, λ e. cc, ground (arith, other))
          ]
      refused_in (some p) last actions c (some t) Direction.computer_to_device k n = absurd (n refl)
