-- ===== src/Mobilesync/Phases.antt =====
-- The phases of a synchronisation session: an abstract machine, which the client implements.
pub mod Stays
pub mod Moves
pub mod Machine
use libimobiledevice.Common.{ℕ, Bool, true, false, Option, none, some}
use libimobiledevice.Common.Run.{Run, ret, ◌>>=◌}
use libimobiledevice.PlistService.{Channel}
use libimobiledevice.DeviceLink.{Text, Plist}
use libimobiledevice.Mobilesync.{MobilesyncError, Direction, Client, Anchors}
use libimobiledevice.Mobilesync.Calls.{
  is_success, mobilesync_start, mobilesync_finish, mobilesync_get_all_records_from_device,
  mobilesync_get_changes_from_device, mobilesync_receive_changes,
  mobilesync_clear_all_records_on_device, mobilesync_acknowledge_changes_from_device,
  mobilesync_ready_to_send_changes_from_computer, mobilesync_send_changes,
  mobilesync_remap_identifiers, mobilesync_cancel,
}

-- There is no session, the device's changes come, or the computer's changes go.
pub data Phase : Type 0 where
  idle pulling pushing : Phase

-- The operations, with their arguments.
pub data Call (P : Type 0) : Type 0 where
  start : Option Text → Option Anchors → ℕ → Call P
  finish get_all_records get_changes receive_changes clear_all_records acknowledge ready remap :
      Call P
  send_changes : Option P → Bool → Option P → Call P
  cancel : Option Text → Call P

-- The arguments with which a session is begun.
abbrev pub can_start : Option Text → Option Anchors → Bool
can_start (some t) (some a) = elim a.computer_anchor [ none ↦ false | some b ↦ true ]
can_start _ _ = false

abbrev pub start_phase : Bool → Phase → Phase
start_phase true Phase.idle = Phase.pulling
start_phase _ p = p

abbrev pub ready_phase : Bool → Phase → Phase
ready_phase true Phase.pulling = Phase.pushing
ready_phase _ p = p

abbrev pub cancel_phase : Option Text → Phase → Phase
cancel_phase none p = p
cancel_phase (some reason) p = Phase.idle

-- The abstract machine: the phase after a call that came back with a code.
abbrev pub after : {P : Type 0} → Call P → MobilesyncError → Phase → Phase
after (Call.start t a v) e p = start_phase (can_start t a) p
after Call.finish e p = Phase.idle
after (Call.cancel reason) e p = cancel_phase reason p
after Call.ready e p = ready_phase (is_success e) p
after _ e p = p

abbrev pub phase_in : Option Text → Direction → Phase
phase_in none d = Phase.idle
phase_in (some t) Direction.device_to_computer = Phase.pulling
phase_in (some t) Direction.computer_to_device = Phase.pushing

-- The phase of a client.
abbrev pub phase_of : {C : Type 0} → Client C → Phase
phase_of c = phase_in c.data_class c.direction

-- The code and the client of an answer with a result.
abbrev pub code_of :
    {A C : Type 0} → Run (MobilesyncError × A × Client C) → Run (MobilesyncError × Client C)
code_of m = m >>= λ r. ret (r.0, r.2)

module _ {P C : Type 0} (plist : Plist P) (channel : Channel P C) where
  unfoldable pub perform : Call P → Client C → Run (MobilesyncError × Client C)
  perform (Call.start t a v) c = code_of (mobilesync_start plist channel t a v c)
  perform Call.finish c = mobilesync_finish plist channel c
  perform Call.get_all_records c = mobilesync_get_all_records_from_device plist channel c
  perform Call.get_changes c = mobilesync_get_changes_from_device plist channel c
  perform Call.receive_changes c = code_of (mobilesync_receive_changes plist channel c)
  perform Call.clear_all_records c = mobilesync_clear_all_records_on_device plist channel c
  perform Call.acknowledge c = mobilesync_acknowledge_changes_from_device plist channel c
  perform Call.ready c = mobilesync_ready_to_send_changes_from_computer plist channel c
  perform Call.remap c = code_of (mobilesync_remap_identifiers plist channel c)
  perform (Call.send_changes p last actions) c =
      mobilesync_send_changes plist channel p last actions c
  perform (Call.cancel reason) c = mobilesync_cancel plist channel reason c
