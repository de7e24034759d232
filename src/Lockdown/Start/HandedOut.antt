-- ===== src/Lockdown/Start/HandedOut.antt =====
-- src/lockdown.c: who gets a client with a session.
use libimobiledevice.Common.{◌≡◌, refl, ap, ◌∙◌, ◌≢◌, ◌⊎◌, false, Option, none, some, inl, inr}
use libimobiledevice.Common.Run.{
  Run, ret, ◌>>=◌, After, After->>=, After-any, After-if, After-Option, After-self, After→Ensures,
}
use libimobiledevice.PlistService.Secure.{SecureChannel, succeeded}
use libimobiledevice.DeviceLink.{Text}
use libimobiledevice.Dictionary.{Dicts}
use libimobiledevice.Userpref.{Usbmuxd, userpref_read_pair_record}
use libimobiledevice.Lockdown.Error.{LockdownError, is_success}
use libimobiledevice.Lockdown.Client.{Device, Client}
use libimobiledevice.Lockdown.Verdict.{unsuccessful→neq, is_success→eq}
use libimobiledevice.Lockdown.Session.{Opened, lockdownd_start_session, lockdownd_client_free}
use libimobiledevice.Lockdown.Pair.Record.{Keys}
use libimobiledevice.Lockdown.Start.New.{introduce, lockdownd_client_new}
use libimobiledevice.Lockdown.Start.Handshake.{
  is_read_error, find_pairing, validate_older, known_host_id, open_session, hand_out, handshake,
  lockdownd_client_new_with_handshake,
}

module _ {P C H : Type 0} (dicts : Dicts P) (channel : SecureChannel P C) (usbmuxd : Usbmuxd P H)
    (keys : Keys P H) where
  -- The client is the one that a successful lockdownd_start_session left.
  abbrev pub InSession : Client C → Type 0
  InSession c =
      (before : Client C) × (host_id : Option Text) × (h : H) × (o : Opened)
      × (lockdownd_start_session dicts channel usbmuxd (some before) host_id h
          ≡ ret (LockdownError.success, o, c))

  abbrev Progressed : LockdownError × Option Text × Client C × H → Type 0
  Progressed s = s.0 ≡ LockdownError.success → InSession s.2

  open_session-Progressed :
      (s : LockdownError × Option Text × Client C × H)
      → After (open_session dicts channel usbmuxd keys s) Progressed
  unfolding open_session
  open_session-Progressed s =
      After-if _ (is_success s.0) _ _
        (λ t.
          After-if _ (is_success (known_host_id dicts channel usbmuxd keys s.1 s.2 s.3).0) _ _
            (λ u.
              After->>= (λ r. started s ≡ ret r) _ (started s) _ (After-self (started s))
                (λ r q e. (
                  s.2,
                  (known_host_id dicts channel usbmuxd keys s.1 s.2 s.3).1,
                  s.3,
                  r.1,
                  q ∙ ap (λ e. ret (e, r.1, r.2)) e,
                )))
            (λ f e. absurd (unsuccessful→neq _ f e)))
        (λ f e. absurd (unsuccessful→neq _ f e))
    where
      started : LockdownError × Option Text × Client C × H → Run (LockdownError × Opened × Client C)
      started s =
          lockdownd_start_session dicts channel usbmuxd (some s.2)
            (known_host_id dicts channel usbmuxd keys s.1 s.2 s.3).1 s.3

  handshake-Progressed :
      (c : Client C) (h : H) → After (handshake dicts channel usbmuxd keys c h) Progressed
  unfolding handshake
  handshake-Progressed c h =
      After-if _ (is_read_error (userpref_read_pair_record usbmuxd c.device.udid h).0) _ _
        (λ t e. cc)
        (λ f.
          After-any _
            (find_pairing dicts channel usbmuxd keys
              (userpref_read_pair_record usbmuxd c.device.udid h).1 c h)
            _
            (λ s.
              After-any _ (validate_older dicts channel usbmuxd keys s) _
                (λ t. open_session-Progressed t)))

  -- Either nothing is handed out, with an error, or a client in a session, with a success.
  abbrev pub HandedOut : LockdownError × Option (Client C) × Device × H → Type 0
  HandedOut r =
      ((r.0 ≢ LockdownError.success) × (r.1 ≡ none))
      ⊎ ((r.0 ≡ LockdownError.success) × (c : Client C) × (r.1 ≡ some c) × InSession c)

  hand_out-HandedOut :
      (s : LockdownError × Option Text × Client C × H)
      → Progressed s
      → After (hand_out dicts channel usbmuxd keys s) HandedOut
  unfolding hand_out
  hand_out-HandedOut s p =
      After-if _ (is_success s.0) _ _
        (λ t. inr (is_success→eq _ t, s.2, refl, p (is_success→eq _ t)))
        (λ f.
          After-any _ (lockdownd_client_free dicts channel (some s.2)) _
            (λ e. inl (unsuccessful→neq _ f, refl)))

  -- Without a client there is an error.
  abbrev IsFilled : LockdownError × Option (Client C) → Type 0
  IsFilled r = r.1 ≡ none → r.0 ≢ LockdownError.success

  client_new-IsFilled :
      (device : Device) (label : Option Text)
      → After (lockdownd_client_new dicts channel device label) IsFilled
  unfolding lockdownd_client_new
  client_new-IsFilled device label = After-any _ (channel.client_new 0xf27e false) _ (λ r.
      After-if _ (succeeded r.0) _ _ (λ t. After-any _ (introduce dicts channel _) _ (λ c. λ n. cc))
        (λ f n. λ e. cc))

  -- lockdownd_client_new_with_handshake either hands out a client, comes back with a success, and
  -- the client is as a successful lockdownd_start_session left it; or it hands out nothing and
  -- comes back with an error: whatever the device, usbmuxd and the pairing do, there is no client
  -- without a session.
  pub new_with_handshake-HandedOut :
      (device : Device) (label : Option Text) (h : H) (e : LockdownError)
      (client : Option (Client C)) (device' : Device) (h' : H)
      → lockdownd_client_new_with_handshake dicts channel usbmuxd keys device label h
        ≡ ret (e, client, device', h')
      → ((e ≢ LockdownError.success) × (client ≡ none))
        ⊎ ((e ≡ LockdownError.success) × (c : Client C) × (client ≡ some c) × InSession c)
  unfolding lockdownd_client_new_with_handshake
  new_with_handshake-HandedOut device label h e client device' h' run =
      After→Ensures HandedOut (lockdownd_client_new dicts channel device label >>= _)
        (After->>= IsFilled HandedOut (lockdownd_client_new dicts channel device label) _
          (client_new-IsFilled device label)
          (λ r n.
            After-Option HandedOut r.1 _ _ (λ o. inl (n o, refl))
              (λ c o.
                After->>= Progressed HandedOut (handshake dicts channel usbmuxd keys c h) _
                  (handshake-Progressed c h) (λ s p. hand_out-HandedOut s p))))
        (e, client, device', h') run
