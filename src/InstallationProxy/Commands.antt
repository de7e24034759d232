-- ===== src/InstallationProxy/Commands.antt =====
-- src/installation_proxy.c: the commands.
use libimobiledevice.Common.{ℕ, Bool, List, map, Option, none, some, if◌then◌else◌}
use libimobiledevice.Common.Bytes.{codes}
use libimobiledevice.Common.Run.{ret, ◌>>=◌}
use libimobiledevice.DeviceLink.{Text}
use libimobiledevice.Dictionary.{Dicts, set_string}
use libimobiledevice.InstallationProxy.Error.{is_success}
use libimobiledevice.InstallationProxy.{
  Proxied, Client, CommandType, StatusCb, Performed, command_for, instproxy_copy_lookup_result_cb,
  instproxy_perform_command,
}

module _ {P : Type 0} (dicts : Dicts P) where
  -- Strings as an array of string nodes.
  abbrev strings : List Text → P
  strings texts = dicts.plist.new_array (map dicts.plist.new_string texts)

  -- The options of a Lookup.
  unfoldable pub lookup_options : Option (List Text) → Option P → Option P
  lookup_options none options = options
  lookup_options (some appids) none =
      some (dicts.set_item dicts.new_dict (codes "BundleIDs") (strings appids))
  lookup_options (some appids) (some options) =
      some (dicts.set_item options (codes "BundleIDs") (strings appids))

  unfoldable pub capabilities_command : List Text → Option P → P
  capabilities_command capabilities options =
      dicts.set_item (command_for dicts (codes "CheckCapabilitiesMatch") options)
        (codes "Capabilities") (strings capabilities)

-- A command runs in a thread exactly if there is a callback.
unfoldable pub type_for : {P U : Type 0} → StatusCb P U → CommandType
type_for none = CommandType.sync
type_for (some status_cb) = CommandType.async

module _ {P C : Type 0} (dicts : Dicts P) (channel : Proxied P C) (thread_new : Bool) where
  -- The result is only given with a success; it is `none` where it is left alone or NULL.
  unfoldable pub perform_lookup : ℕ → Option (Client C) → P → Performed C (Option P)
  perform_lookup rounds client command =
      instproxy_perform_command dicts channel thread_new rounds client CommandType.sync
        (some (instproxy_copy_lookup_result_cb dicts)) command none
      >>= λ r. ret (r.0, r.1, if is_success r.0 then r.2 else none)

  -- The pointer `result` is not NULL.
  unfoldable pub instproxy_lookup :
      ℕ → Option (Client C) → Option (List Text) → Option P → Performed C (Option P)
  instproxy_lookup rounds client appids client_options =
      perform_lookup rounds client
        (command_for dicts (codes "Lookup") (lookup_options dicts appids client_options))

  -- `*result`, with `none` for NULL, is written by the callback itself.
  unfoldable pub instproxy_lookup_archives :
      ℕ → Option (Client C) → Option P → Option P → Performed C (Option P)
  instproxy_lookup_archives rounds client client_options result =
      instproxy_perform_command dicts channel thread_new rounds client CommandType.sync
        (some (instproxy_copy_lookup_result_cb dicts))
        (command_for dicts (codes "LookupArchives") client_options) result

  -- The pointers `capabilities` and `result` are not NULL.
  unfoldable pub instproxy_check_capabilities_match :
      ℕ → Option (Client C) → List Text → Option P → Performed C (Option P)
  instproxy_check_capabilities_match rounds client capabilities client_options =
      perform_lookup rounds client (capabilities_command dicts capabilities client_options)

abbrev pub Operation : Type 0 → Type 0 → Type 0 → Type 0
Operation P C U = ℕ → Option (Client C) → Text → Option P → StatusCb P U → U → Performed C U

module _ {P C U : Type 0} (dicts : Dicts P) (channel : Proxied P C) (thread_new : Bool) where
  -- The command with the argument under a key of its own.
  unfoldable pub operation : Text → Text → Operation P C U
  operation name key rounds client argument client_options status_cb user_data =
      instproxy_perform_command dicts channel thread_new rounds client (type_for status_cb)
        status_cb (set_string dicts (command_for dicts name client_options) key argument) user_data

  unfoldable pub instproxy_install : Operation P C U
  instproxy_install = operation (codes "Install") (codes "PackagePath")

  unfoldable pub instproxy_upgrade : Operation P C U
  instproxy_upgrade = operation (codes "Upgrade") (codes "PackagePath")

  unfoldable pub instproxy_uninstall : Operation P C U
  instproxy_uninstall = operation (codes "Uninstall") (codes "ApplicationIdentifier")

  unfoldable pub instproxy_archive : Operation P C U
  instproxy_archive = operation (codes "Archive") (codes "ApplicationIdentifier")

  unfoldable pub instproxy_restore : Operation P C U
  instproxy_restore = operation (codes "Restore") (codes "ApplicationIdentifier")

  unfoldable pub instproxy_remove_archive : Operation P C U
  instproxy_remove_archive = operation (codes "RemoveArchive") (codes "ApplicationIdentifier")
