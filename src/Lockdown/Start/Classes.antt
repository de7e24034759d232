-- ===== src/Lockdown/Start/Classes.antt =====
-- src/lockdown.c: the data classes that can be synchronised.
use libimobiledevice.Common.{
  ℕ, zero, suc, ◌+◌, List, [], ◌∷◌, ◌++◌, Option, none, some, if◌then◌else◌,
}
use libimobiledevice.Common.Bytes.{codes}
use libimobiledevice.Common.Run.{Run, ret, hangs, faults, ◌>>=◌}
use libimobiledevice.PlistService.Secure.{SecureChannel}
use libimobiledevice.DeviceLink.{Text, is_array}
use libimobiledevice.Dictionary.{Dicts}
use libimobiledevice.Lockdown.Error.{LockdownError, is_success}
use libimobiledevice.Lockdown.Client.{Client}
use libimobiledevice.Lockdown.Calls.{lockdownd_get_value}
use libimobiledevice.Lockdown.Start.New.{is_space}

unfoldable pub str_remove_spaces : Text → Text
str_remove_spaces [] = []
str_remove_spaces (c ∷ s) = let rest = str_remove_spaces s in if is_space c then rest else c ∷ rest

module _ {P C : Type 0} (dicts : Dicts P) (channel : SecureChannel P C) where
  abbrev pub Classes : Type 0
  Classes = Run (List Text)

  -- From the item `count` on; an item that is no string is NULL as a text, and read. `rounds`
  -- bounds the loop.
  unfoldable pub classes_from : ℕ → P → ℕ → Classes
  classes_from zero dict count = hangs
  classes_from (suc f) dict count = elim (dicts.plist.array_item dict count) [
    | none ↦ ret []
    | some value ↦ elim (dicts.plist.string_val value) [
      | none ↦ faults
      | some val ↦ classes_from f dict (count + 1) >>= λ classes.
          ret ((codes "com.apple." ++ str_remove_spaces val) ∷ classes)
    ]
  ]

  unfoldable pub classes_in : ℕ → Option P → Run (LockdownError × List Text)
  classes_in rounds none = ret (LockdownError.plist_error, [])
  classes_in rounds (some dict) =
      if is_array (dicts.plist.node_type dict)
      then (classes_from rounds dict 0 >>= λ classes. ret (LockdownError.success, classes))
      else ret (LockdownError.plist_error, [])

  -- By whether there is a session.
  unfoldable pub classes_for :
      Option Text → ℕ → Client C → Run (LockdownError × List Text × Client C)
  classes_for none rounds client = ret (LockdownError.no_running_session, [], client)
  classes_for (some id) rounds client =
      lockdownd_get_value dicts channel client (some (codes "com.apple.mobile.iTunes"))
        (some (codes "SyncDataClasses"))
      >>= λ r.
          if is_success r.0
          then (classes_in rounds r.1 >>= λ q. ret (q.0, q.1, r.2))
          else ret (r.0, [], r.2)

  unfoldable pub lockdownd_get_sync_data_classes :
      ℕ → Client C → Run (LockdownError × List Text × Client C)
  lockdownd_get_sync_data_classes rounds client = classes_for client.session_id rounds client
