-- ===== src/Lockdown/Start/Returns.antt =====
-- src/lockdown.c: the calls come back if those of the property list service do.
use libimobiledevice.Common.{ℕ, Bool, true, false, ◌&&◌, ◌==◌, Option, none, some}
use libimobiledevice.Common.Bytes.{codes}
use libimobiledevice.Common.Run.{Ends, Ends->>=, Ends-if}
use libimobiledevice.PlistService.Secure.{SecureChannel, succeeded}
use libimobiledevice.DeviceLink.{Text}
use libimobiledevice.Dictionary.{Dicts}
use libimobiledevice.Userpref.{Usbmuxd}
use libimobiledevice.Lockdown.Error.{is_success}
use libimobiledevice.Lockdown.Client.{Device, Client, lockdown_check_result}
use libimobiledevice.Lockdown.Calls.{
  lockdownd_send, lockdownd_receive, exchange, exchange_unchecked, checked, lockdownd_get_value,
  lockdownd_query_type,
}
use libimobiledevice.Lockdown.Session.{
  drop_ssl, session_stopped, lockdownd_stop_session, stop_current, lockdownd_client_free_simple,
  lockdownd_client_free, session_secured, session_opened, session_started, start_session_over,
  lockdownd_start_session,
}
use libimobiledevice.Lockdown.Start.New.{
  ask_text, learn_version, learn_class, introduce, is_lockdownd, lockdownd_client_new,
}

-- Every call of the property list service comes back.
pub record IsReturning {P C : Type 0} (channel : SecureChannel P C) : Type 0 where
  pub sends : (c : C) (p : P) → Ends (channel.send_xml_plist c p)
  pub receives : (c : C) → Ends (channel.receive_plist c)
  pub enables : (c : C) → Ends (channel.enable_ssl c)
  pub disables : (c : C) → Ends (channel.disable_ssl c)
  pub connects : (port : ℕ) (ssl : Bool) → Ends (channel.client_new port ssl)
  pub frees : (c : C) → Ends (channel.client_free c)

module _ {P C : Type 0} (dicts : Dicts P) (channel : SecureChannel P C)
    (returning : IsReturning channel) where
  send-Ends : (c : Client C) (p : P) → Ends (lockdownd_send dicts channel c p)
  unfolding lockdownd_send
  send-Ends c p = Ends->>= _ _ (returning.sends c.parent p) (λ r e. tt)

  receive-Ends : (c : Client C) → Ends (lockdownd_receive dicts channel c)
  unfolding lockdownd_receive
  receive-Ends c = Ends->>= _ _ (returning.receives c.parent) (λ r e. tt)

  pub exchange-Ends : (c : Client C) (p : P) → Ends (exchange dicts channel c p)
  unfolding exchange
  exchange-Ends c p =
      Ends->>= _ _ (send-Ends c p) (λ r e. Ends-if (is_success r.0) _ _ (receive-Ends r.1) tt)

  exchange_unchecked-Ends : (c : Client C) (p : P) → Ends (exchange_unchecked dicts channel c p)
  unfolding exchange_unchecked
  exchange_unchecked-Ends c p = Ends->>= _ _ (send-Ends c p) (λ r e. receive-Ends r.1)

  pub get_value-Ends :
      (c : Client C) (domain key : Option Text)
      → Ends (lockdownd_get_value dicts channel c domain key)
  unfolding lockdownd_get_value checked
  get_value-Ends c domain key =
      Ends->>= _ _ (Ends->>= _ _ (exchange-Ends c _) (λ r e. Ends-if (is_success r.0) _ _ tt tt))
        (λ r e. Ends-if (is_success r.0) _ _ tt tt)

  query_type-Ends : (c : Client C) → Ends (lockdownd_query_type dicts channel c)
  unfolding lockdownd_query_type
  query_type-Ends c =
      Ends->>= _ _ (exchange_unchecked-Ends c _) (λ r e. Ends-if (is_success r.0) _ _ tt tt)

  drop_ssl-Ends : (on : Bool) (c : Client C) → Ends (drop_ssl dicts channel on c)
  unfolding drop_ssl
  drop_ssl-Ends false c = tt
  drop_ssl-Ends true c = Ends->>= _ _ (returning.disables c.parent) (λ r e. tt)

  stopped-Ends : (o : Option P) (c : Client C) → Ends (session_stopped dicts channel o c)
  unfolding session_stopped
  stopped-Ends none c = tt
  stopped-Ends (some d) c = Ends->>= _ _ (drop_ssl-Ends c.ssl_enabled _) (λ r e. tt)

  stop_current-Ends : (id : Option Text) (c : Client C) → Ends (stop_current dicts channel id c)
  unfolding stop_current lockdownd_stop_session
  stop_current-Ends none c = tt
  stop_current-Ends (some id) c =
      Ends->>= _ _ (Ends->>= _ _ (exchange_unchecked-Ends c _) (λ r e. stopped-Ends r.1 r.2))
        (λ r e. tt)

  pub free-Ends : (c : Client C) → Ends (lockdownd_client_free dicts channel (some c))
  unfolding lockdownd_client_free lockdownd_client_free_simple
  free-Ends c = Ends->>= _ _ (stop_current-Ends c.session_id c) (λ d e.
      Ends-if (channel.is_null d.parent) _ _ tt
        (Ends->>= _ _ (returning.frees d.parent) (λ r e. tt)))

  ask_text-Ends : (c : Client C) (key : Text) → Ends (ask_text dicts channel c key)
  unfolding ask_text
  ask_text-Ends c key = Ends->>= _ _ (get_value-Ends c none (some key)) (λ r e. tt)

  learn_version-Ends : (known : Bool) (c : Client C) → Ends (learn_version dicts channel known c)
  unfolding learn_version
  learn_version-Ends known c =
      Ends-if (known && c.device.version == 0) _ _
        (Ends->>= _ _ (ask_text-Ends c (codes "ProductVersion")) (λ v e. tt)) tt

  learn_class-Ends : (known : Bool) (c : Client C) → Ends (learn_class dicts channel known c)
  unfolding learn_class
  learn_class-Ends known c =
      Ends-if (known && c.device.device_class == 0) _ _
        (Ends->>= _ _ (ask_text-Ends c (codes "DeviceClass")) (λ v e. tt)) tt

  introduce-Ends : (c : Client C) → Ends (introduce dicts channel c)
  unfolding introduce
  introduce-Ends c = Ends->>= _ _ (query_type-Ends c) (λ q e.
      Ends->>= _ _ (learn_version-Ends (is_lockdownd dicts channel q.0 q.1) q.2)
        (λ d n. learn_class-Ends (is_lockdownd dicts channel q.0 q.1) d))

  pub client_new-Ends :
      (device : Device) (label : Option Text)
      → Ends (lockdownd_client_new dicts channel device label)
  unfolding lockdownd_client_new
  client_new-Ends device label =
      Ends->>= _ _ (returning.connects 0xf27e false)
        (λ r e. Ends-if (succeeded r.0) _ _ (Ends->>= _ _ (introduce-Ends _) (λ c n. tt)) tt)

  module _ {H : Type 0} (usbmuxd : Usbmuxd P H) where
    secured-Ends : (on : Bool) (c : Client C) → Ends (session_secured dicts channel usbmuxd on c)
    unfolding session_secured
    secured-Ends false c = tt
    secured-Ends true c = Ends->>= _ _ (returning.enables c.parent) (λ r e. tt)

    started-Ends : (o : Option P) (c : Client C) → Ends (session_started dicts channel usbmuxd o c)
    unfolding session_started session_opened
    started-Ends none c = tt
    started-Ends (some d) c =
        Ends-if (is_success (lockdown_check_result dicts (some d) (some (codes "StartSession")))) _
          _ (Ends->>= _ _ (secured-Ends _ _) (λ r e. tt)) tt

    pub start_session-Ends :
        (c : Client C) (host_id : Option Text) (h : H)
        → Ends (lockdownd_start_session dicts channel usbmuxd (some c) host_id h)
    unfolding lockdownd_start_session start_session_over
    start_session-Ends c host_id h = Ends->>= _ _ (stop_current-Ends c.session_id c) (λ d e.
        Ends->>= _ _ (send-Ends d _) (λ s n.
          Ends-if (is_success s.0) _ _
            (Ends->>= _ _ (receive-Ends s.1) (λ r m. started-Ends r.1 r.2)) tt))
