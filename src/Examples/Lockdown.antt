-- ===== src/Examples/Lockdown.antt =====
-- The theorems on lockdownd's client.
use libimobiledevice.Common.{◌≡◌, Bool, true, List, [], ◌∷◌, Option, none, some}
use libimobiledevice.Common.Bytes.{codes}
use mathlib.Core.Logic.{◌↔◌}
use libimobiledevice.DeviceLink.{Text}
use libimobiledevice.Lockdown.Error.{LockdownError}
use libimobiledevice.Lockdown.Client.{Client, lockdown_check_result}
use libimobiledevice.Lockdown.Verdict.{IsAccepted, lockdown_check_result-IsAccepted}
use libimobiledevice.Examples.Nodes.{Node, dict_of, nodes, Phone}

abbrev pub reply : Text → List (Text × Node) → Node
reply name l = dict_of ((codes "Request", Node.text name) ∷ l)

lockdown_check_result-IsAccepted_example :
    (lockdown_check_result nodes (some (reply (codes "Goodbye") [])) (some (codes "Goodbye"))
      ≡ LockdownError.success)
    ↔ IsAccepted nodes (some (reply (codes "Goodbye") [])) (some (codes "Goodbye"))
lockdown_check_result-IsAccepted_example =
    lockdown_check_result-IsAccepted nodes (some (reply (codes "Goodbye") []))
      (some (codes "Goodbye"))

abbrev pub client : Phone → Option Text → Bool → Client Phone
client d id ssl = record {
  parent = d;
  ssl_enabled = ssl;
  session_id = id;
  label = none;
  device = record { udid = codes "u"; mux_id = 1; version = 0; device_class = 0 };
}

abbrev start_answer : Node
start_answer =
    reply (codes "StartSession") (
      (codes "SessionID", Node.text (codes "s")) ∷ (codes "EnableSessionSSL", Node.truth true) ∷ [])

abbrev start_sent : Node
start_sent = dict_of (
    (codes "SystemBUID", Node.text (codes "b"))
    ∷ (codes "HostID", Node.text (codes "h"))
    ∷ (codes "Request", Node.text (codes "StartSession"))
    ∷ [])

abbrev stop_sent : Node
stop_sent = dict_of (
    (codes "SessionID", Node.text (codes "s"))
    ∷ (codes "Request", Node.text (codes "StopSession"))
    ∷ [])
