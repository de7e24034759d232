-- ===== src/Lockdown/Session.antt =====
-- src/lockdown.c: starting and stopping a session, and freeing the client.
pub mod Frame
pub mod Secured
use libimobiledevice.Common.{ℕ, Bool, true, false, not, Option, none, some, if◌then◌else◌}
use libimobiledevice.Common.Bytes.{codes}
use libimobiledevice.Common.Run.{Run, ret, faults, ◌>>=◌}
use libimobiledevice.PlistService.Secure.{SecureChannel, succeeded}
use libimobiledevice.DeviceLink.{Text}
use libimobiledevice.Dictionary.{Dicts, item_in, string_in, flag_in, set_string, set_if}
use libimobiledevice.Userpref.{Usbmuxd, userpref_read_system_buid}
use libimobiledevice.Lockdown.Error.{LockdownError, is_success, lockdownd_error}
use libimobiledevice.Lockdown.Client.{Client, lockdown_check_result}
use libimobiledevice.Lockdown.Calls.{lockdownd_send, lockdownd_receive, exchange_unchecked, request}

-- What lockdownd_start_session stores through its result pointers, `none` where it does not.
pub record Opened : Type 0 where
  pub session_id : Option Text
  pub use_ssl : Option Bool

abbrev pub opened : Option Text → Option Bool → Opened
opened session_id use_ssl = record { session_id = session_id; use_ssl = use_ssl }

abbrev pub not_opened : Opened
not_opened = opened none none

module _ {P C : Type 0} (dicts : Dicts P) where
  -- The session's name in an accepted answer; the old one stays if there is none.
  unfoldable pub session_named : Option P → Client C → Client C
  session_named dict client = elim (string_in dicts (item_in dicts dict (codes "SessionID"))) [
    | none ↦ client
    | some id ↦ record client { session_id = some id }
  ]

module _ {P C : Type 0} (dicts : Dicts P) (channel : SecureChannel P C) where
  -- SSL is switched off if it is on.
  unfoldable pub drop_ssl : Bool → Client C → Run (Client C)
  drop_ssl false client = ret client
  drop_ssl true client = channel.disable_ssl client.parent >>= λ r.
      ret (record client { parent = r.1; ssl_enabled = false })

  -- After the answer to StopSession: without one, the session stays.
  unfoldable pub session_stopped : Option P → Client C → Run (LockdownError × Client C)
  session_stopped none client = ret (LockdownError.plist_error, client)
  session_stopped (some dict) client =
      drop_ssl client.ssl_enabled (record client { session_id = none }) >>= λ c.
      ret (lockdown_check_result dicts (some dict) (some (codes "StopSession")), c)

  unfoldable pub lockdownd_stop_session : Client C → Option Text → Run (LockdownError × Client C)
  lockdownd_stop_session client none = ret (LockdownError.invalid_arg, client)
  lockdownd_stop_session client (some session_id) =
      exchange_unchecked dicts channel client (
        set_string dicts (request dicts client (codes "StopSession")) (codes "SessionID")
          session_id)
      >>= λ r. session_stopped r.1 r.2

  -- The session that there is, if any, is stopped, and the code of that forgotten.
  unfoldable pub stop_current : Option Text → Client C → Run (Client C)
  stop_current none client = ret client
  stop_current (some session_id) client =
      lockdownd_stop_session client (some session_id) >>= λ r. ret r.1

  unfoldable pub lockdownd_client_free_simple : Client C → Run LockdownError
  lockdownd_client_free_simple client =
      if channel.is_null client.parent
      then ret LockdownError.unknown_error
      else (channel.client_free client.parent >>= λ e.
          ret (if succeeded e then LockdownError.success else LockdownError.unknown_error))

  unfoldable pub lockdownd_client_free : Option (Client C) → Run LockdownError
  lockdownd_client_free none = ret LockdownError.invalid_arg
  lockdownd_client_free (some client) =
      stop_current client.session_id client >>= λ c. lockdownd_client_free_simple c

  module _ {H : Type 0} (usbmuxd : Usbmuxd P H) where
    unfoldable pub start_session_request : Client C → Option Text → H → P
    start_session_request client host_id h =
        set_if dicts
          (set_if dicts (request dicts client (codes "StartSession")) (codes "HostID") host_id)
          (codes "SystemBUID") (userpref_read_system_buid usbmuxd h)

    -- SSL is switched on if the answer asks for it.
    unfoldable pub session_secured : Bool → Client C → Run (LockdownError × Client C)
    session_secured false client =
        ret (LockdownError.success, record client { ssl_enabled = false })
    session_secured true client = channel.enable_ssl client.parent >>= λ r. ret (
      lockdownd_error r.0,
      record client { parent = r.1; ssl_enabled = is_success (lockdownd_error r.0) },
    )

    -- After an accepted answer: what the result pointers are given is the name of the session that
    -- the client has now, and what the answer says of SSL.
    unfoldable pub session_opened : Bool → Client C → Run (LockdownError × Opened × Client C)
    session_opened use_ssl client = session_secured use_ssl client >>= λ r.
        ret (r.0, opened client.session_id (some use_ssl), r.1)

    -- After the answer to StartSession.
    unfoldable pub session_started : Option P → Client C → Run (LockdownError × Opened × Client C)
    session_started none client = ret (LockdownError.plist_error, not_opened, client)
    session_started (some dict) client =
        let e = lockdown_check_result dicts (some dict) (some (codes "StartSession")) in
        if is_success e
        then session_opened (flag_in dicts (item_in dicts (some dict) (codes "EnableSessionSSL")))
            (session_named dicts (some dict) client)
        else ret (e, not_opened, client)

    -- The code of lockdownd_send decides whether there is an answer to read, that of
    -- lockdownd_receive is not looked at.
    unfoldable pub start_session_over :
        Client C → Option Text → H → Run (LockdownError × Opened × Client C)
    start_session_over client host_id h =
        lockdownd_send dicts channel client (start_session_request client host_id h) >>= λ s.
        if is_success s.0
        then (lockdownd_receive dicts channel s.1 >>= λ r. session_started r.1 r.2)
        else ret (s.0, not_opened, s.1)

    -- The check of the arguments only sets a code, which is overwritten: a client that is NULL is
    -- read, and without a host id the request is sent without it.
    unfoldable pub lockdownd_start_session :
        Option (Client C) → Option Text → H → Run (LockdownError × Opened × Client C)
    lockdownd_start_session none host_id h = faults
    lockdownd_start_session (some client) host_id h =
        stop_current client.session_id client >>= λ c. start_session_over c host_id h
