-- ===== src/Examples/Installing.antt =====
-- The theorems on the commands of the installation proxy.
use libimobiledevice.Common.{◌≡◌, refl, true, false, List, [], ◌∷◌, ◌++◌, none, some}
use libimobiledevice.Common.Bytes.{codes}
use libimobiledevice.Common.Run.{ret}
use libimobiledevice.PlistService.{PlistServiceError}
use libimobiledevice.Dictionary.{string_of, set_string}
use libimobiledevice.InstallationProxy.Error.{
  InstproxyError, instproxy_error, instproxy_strtoerr, strtoerr_in,
}
use libimobiledevice.InstallationProxy.{
  Proxied, Client, CommandType, StatusCb, invoke, after_status, error_of, command_for,
  instproxy_status_get_error, instproxy_status_get_name, verdict, instproxy_copy_lookup_result_cb,
  receive_status_loop, receive_status_loop_with_callback, perform_over, perform_in,
  instproxy_perform_command,
}
use libimobiledevice.InstallationProxy.Commands.{lookup_options, perform_lookup, instproxy_lookup}
use libimobiledevice.InstallationProxy.Verdict.{AllInProgress, IsComplete}
use libimobiledevice.InstallationProxy.Completed.{Trace, Completed, perform_command-Completed}
use libimobiledevice.InstallationProxy.Masked.{perform_command_masked}
use libimobiledevice.InstallationProxy.Lookup.{last_result, instproxy_lookup-last_result}
use libimobiledevice.Examples.Nodes.{Node, dict_of, nodes}
use libimobiledevice.Examples.Inspector.{Mailbox, fetch, waiting}

abbrev proxy : Proxied Node Mailbox
proxy = record {
  send_xml_plist = λ c p. ret (PlistServiceError.success, (c.0 ++ (p ∷ []), c.1));
  receive_plist_with_timeout = λ c timeout_ms. fetch c.0 c.1;
}

abbrev client : Mailbox → Client Mailbox
client c = record { parent = some c; busy = false }

abbrev progress : Node
progress = dict_of ((codes "Status", Node.text (codes "Copying")) ∷ [])

abbrev finished : Node
finished =
    dict_of
      ((codes "Status", Node.text (codes "Complete")) ∷ (codes "LookupResult", Node.number 5) ∷ [])

abbrev refused : Node
refused = dict_of (
    (codes "Error", Node.text (codes "LookupFailed"))
    ∷ (codes "Status", Node.text (codes "Copying"))
    ∷ [])

abbrev command : Node
command = dict_of ((codes "Command", Node.text (codes "Lookup")) ∷ [])

-- A callback that keeps the messages.
abbrev keeping : StatusCb Node (List Node)
keeping = some (λ c m l. m ∷ l)

performed :
    instproxy_perform_command nodes proxy true 2
      (some (client (waiting (progress ∷ finished ∷ []))))
      CommandType.sync
      keeping
      command
      []
    ≡ ret (InstproxyError.success, some (client (command ∷ [], [])), finished ∷ progress ∷ [])
unfolding instproxy_perform_command perform_in perform_over receive_status_loop_with_callback
    receive_status_loop instproxy_error verdict after_status instproxy_status_get_error error_of
    instproxy_status_get_name string_of invoke
performed = refl

perform_command-Completed_example :
    (c c1 c' : Mailbox) × (e : PlistServiceError) × (some (waiting (progress ∷ finished ∷ []))
      ≡ some c)
    × (false ≡ false)
    × (proxy.send_xml_plist c command ≡ ret (e, c1))
    × (some (client (command ∷ [], [])) ≡ some (client c'))
    × Completed nodes proxy keeping command c1 [] c' (finished ∷ progress ∷ [])
perform_command-Completed_example =
    perform_command-Completed nodes proxy 2 true (client (waiting (progress ∷ finished ∷ [])))
      keeping command [] (finished ∷ progress ∷ []) (some (client (command ∷ [], []))) performed

refused_error : (instproxy_status_get_error nodes refused).0 ≡ InstproxyError.lookup_failed
unfolding instproxy_status_get_error error_of string_of instproxy_strtoerr strtoerr_in
refused_error = refl

refused_name : instproxy_status_get_name nodes refused ≡ some (codes "Copying")
unfolding instproxy_status_get_name string_of
refused_name = refl

perform_command_masked_example :
    instproxy_perform_command nodes proxy true 1
      (some (client (waiting (refused ∷ []))))
      CommandType.sync
      keeping
      command
      []
    ≡ ret (
      InstproxyError.op_in_progress,
      some (client (command ∷ [], [])),
      invoke keeping command refused [],
    )
perform_command_masked_example =
    perform_command_masked nodes proxy 0 true (waiting (refused ∷ [])) (command ∷ [], refused ∷ [])
      (command ∷ [], []) PlistServiceError.success keeping command refused (codes "Copying") [] refl
      refl (λ q. cc (refused_error, q)) refused_name (λ q. cc)

looked_up :
    instproxy_lookup nodes proxy true 2
      (some (client (waiting (progress ∷ finished ∷ []))))
      none
      none
    ≡ ret (InstproxyError.success, some (client (command ∷ [], [])), some (Node.number 5))
unfolding instproxy_lookup perform_lookup lookup_options command_for set_string
    instproxy_copy_lookup_result_cb instproxy_perform_command perform_in perform_over
    receive_status_loop_with_callback receive_status_loop instproxy_error verdict after_status
    instproxy_status_get_error error_of instproxy_status_get_name string_of invoke
looked_up = refl

instproxy_lookup-last_result_example :
    (c c1 c' : Mailbox) × (e : PlistServiceError) × (ms : List Node) × (m : Node) × (some
        (waiting (progress ∷ finished ∷ []))
      ≡ some c)
    × (proxy.send_xml_plist c (command_for nodes (codes "Lookup") (lookup_options nodes none none))
        ≡ ret (e, c1))
    × Trace proxy c1 (ms ++ (m ∷ [])) c'
    × AllInProgress nodes ms
    × IsComplete nodes m
    × (some (Node.number 5) ≡ last_result nodes (ms ++ (m ∷ [])))
instproxy_lookup-last_result_example =
    instproxy_lookup-last_result nodes proxy 2 true (client (waiting (progress ∷ finished ∷ [])))
      none none (some (client (command ∷ [], []))) (some (Node.number 5)) looked_up
