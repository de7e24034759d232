-- ===== src/Lockdown/Session/Secured.antt =====
-- src/lockdown.c: what a session's beginning and end make of the client.
use libimobiledevice.Common.{◌≡◌, ◌⊎◌, Bool, false, none, some}
use libimobiledevice.Lockdown.Error.{LockdownError}
use libimobiledevice.Lockdown.Client.{Client}
use libimobiledevice.Lockdown.Session.{Opened}
use libimobiledevice.Lockdown.Session.Frame.{Moved}

-- Neither a session nor SSL.
abbrev pub Idle : {C : Type 0} → Client C → Type 0
Idle c = (c.session_id ≡ none) × (c.ssl_enabled ≡ false)

-- After StopSession the session is over, or no answer has come and all is as before.
abbrev pub Stopped : {C : Type 0} → Client C → LockdownError × Client C → Type 0
Stopped c r = ((r.0 ≡ LockdownError.plist_error) × Moved c r.1) ⊎ Idle r.1

-- A success of StartSession has the session that the client keeps, and SSL exactly if the device
-- asked for it.
abbrev pub Secured : {C : Type 0} → LockdownError × Opened × Client C → Type 0
Secured r =
    r.0 ≡ LockdownError.success
    → (use_ssl : Bool) × (r.1.use_ssl ≡ some use_ssl)
      × (r.2.ssl_enabled ≡ use_ssl)
      × (r.1.session_id ≡ r.2.session_id)
