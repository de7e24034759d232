-- ===== src/Mobilesync/Phases/Stays.antt =====
-- The calls that leave a session in its phase.
use libimobiledevice.Common.{
  ◌≡◌, refl, ap, ◌∙◌, ◌⊎◌, Bool, not, Option, none, some, arith, inl, inr, Bool-cases,
}
use libimobiledevice.Common.Run.{Run, ret, >>=-eq-ret}
use libimobiledevice.PlistService.{Channel}
use libimobiledevice.DeviceLink.{Text, Plist, is_dict}
use libimobiledevice.DeviceLink.Exchange.{device_link_service_send, device_link_service_receive}
use libimobiledevice.Mobilesync.{MobilesyncError, Client}
use libimobiledevice.Mobilesync.Calls.{
  in_session, is_success, is_sending, mobilesync_receive, mobilesync_send, ask,
  mobilesync_get_records, mobilesync_receive_changes, mobilesync_clear_all_records_on_device,
  send_entities, mobilesync_send_changes, mobilesync_remap_identifiers,
}
use libimobiledevice.Mobilesync.Phases.{phase_in, phase_of, code_of}

pub in_session-cases :
    {X : Type 0} (refused : X) (k : Text → Run X) (d : Option Text) (x : X)
    → in_session refused k d ≡ ret x
    → ((d ≡ none) × (x ≡ refused)) ⊎ ((t : Text) × (d ≡ some t) × (k t ≡ ret x))
in_session-cases refused k none x h = inl (refl, ground arith)
in_session-cases refused k (some t) x h = inr (t, refl, h)

-- A call on the device link client leaves the session as it is.
abbrev pub Keeps : {C : Type 0} → Client C → Client C → Type 0
Keeps c c' = (c'.data_class ≡ c.data_class) × (c'.direction ≡ c.direction)

-- The call leaves the client in the phase that it was in.
abbrev pub Stays : {C : Type 0} → Client C → Run (MobilesyncError × Client C) → Type 0
Stays {C} c m = (e : MobilesyncError) (c' : Client C) → m ≡ ret (e, c') → phase_of c' ≡ phase_of c

pub Keeps-phase : {C : Type 0} (c c' : Client C) → Keeps c c' → phase_of c' ≡ phase_of c
Keeps-phase c c' k = ap (λ t. phase_in t c'.direction) k.0 ∙ ap (phase_in c.data_class) k.1

module _ {P C : Type 0} (plist : Plist P) (channel : Channel P C) where
  pub mobilesync_receive-Keeps :
      (c : Client C) (r : MobilesyncError × Option P × Client C)
      → mobilesync_receive plist channel c ≡ ret r
      → Keeps c r.2
  unfolding mobilesync_receive
  mobilesync_receive-Keeps c r h =
      let (q, ran, rest) = >>=-eq-ret (device_link_service_receive plist channel c.parent) _ h in
      ground (arith, rest)

  pub mobilesync_send-Keeps :
      (msg : P) (c : Client C) (r : MobilesyncError × Client C)
      → mobilesync_send plist channel msg c ≡ ret r
      → Keeps c r.1
  unfolding mobilesync_send
  mobilesync_send-Keeps msg c r h =
      let (q, ran, rest) =
        >>=-eq-ret (device_link_service_send plist channel c.parent (some msg)) _ h in
      ground (arith, rest)

  pub ask-Keeps :
      (msg : P) (c : Client C) (r : MobilesyncError × Option P × Client C)
      → ask plist channel msg c ≡ ret r
      → Keeps c r.2
  unfolding ask
  ask-Keeps msg c r h =
      let (q, ran, rest) = >>=-eq-ret (mobilesync_send plist channel msg c) _ h in
      let kept = mobilesync_send-Keeps msg c q ran in
      elim (Bool-cases (is_success q.0)) [
        | inl sent ↦
            let got : mobilesync_receive plist channel q.1 ≡ ret r = rw sent at rest in
            ground (arith, kept, mobilesync_receive-Keeps q.1 r got)
        | inr failed ↦ ground (arith, kept, rest, failed)
      ]

  pub get_records-Stays :
      (operation : Text) (c : Client C) → Stays c (mobilesync_get_records plist channel operation c)
  unfolding mobilesync_get_records
  get_records-Stays operation c e c' h = elim (in_session-cases _ _ c.data_class (e, c') h) [
    | inl refused ↦ ground (arith, refused)
    | inr (t, there, sent) ↦ Keeps-phase c c' (mobilesync_send-Keeps _ c (e, c') sent)
  ]

  pub receive_changes-Stays :
      (c : Client C) → Stays c (code_of (mobilesync_receive_changes plist channel c))
  unfolding mobilesync_receive_changes
  receive_changes-Stays c e c' h =
      let (q, ran, rest) =
        >>=-eq-ret (mobilesync_receive_changes plist channel c) (λ r. ret (r.0, r.2)) h in
      elim (in_session-cases _ _ c.data_class q ran) [
        | inl refused ↦ ground (arith, refused, rest)
        | inr (t, there, run) ↦
            let (r, ran2, rest2) = >>=-eq-ret (mobilesync_receive plist channel c) _ run in
            Keeps-phase c c' (ground (arith, rest, rest2, mobilesync_receive-Keeps c r ran2))
      ]

  pub clear_all_records-Stays :
      (c : Client C) → Stays c (mobilesync_clear_all_records_on_device plist channel c)
  unfolding mobilesync_clear_all_records_on_device
  clear_all_records-Stays c e c' h = elim (in_session-cases _ _ c.data_class (e, c') h) [
    | inl refused ↦ ground (arith, refused)
    | inr (t, there, run) ↦
        let (r, ran, rest) = >>=-eq-ret (ask plist channel _ c) _ run in
        Keeps-phase c c' (ground (arith, rest, ask-Keeps _ c r ran))
  ]

  pub remap_identifiers-Stays :
      (c : Client C) → Stays c (code_of (mobilesync_remap_identifiers plist channel c))
  unfolding mobilesync_remap_identifiers
  remap_identifiers-Stays c e c' h =
      let (q, ran, rest) =
        >>=-eq-ret (mobilesync_remap_identifiers plist channel c) (λ r. ret (r.0, r.2)) h in
      elim (in_session-cases _ _ c.data_class q ran) [
        | inl refused ↦ ground (arith, refused, rest)
        | inr (t, there, run) ↦ elim (Bool-cases (not (is_sending c.direction))) [
          | inl wrong ↦ ground (arith, run, wrong, rest)
          | inr right ↦
              let (r, ran2, rest2) =
                >>=-eq-ret (mobilesync_receive plist channel c) _ {b = q} (rw right at run) in
              Keeps-phase c c' (ground (arith, rest, rest2, mobilesync_receive-Keeps c r ran2))
        ]
      ]

  pub send_entities-Stays :
      (t : Text) (p : Option P) (last : Bool) (actions : Option P) (c : Client C)
      → Stays c (send_entities plist channel t p last actions c)
  unfolding send_entities
  send_entities-Stays t none last actions c e c' h = ground (arith, h)
  send_entities-Stays t (some p) last actions c e c' h =
      elim (Bool-cases (not (is_dict (plist.node_type p)))) [
        | inl wrong ↦ ground (arith, h, wrong)
        | inr right ↦ elim (Bool-cases (not (is_sending c.direction))) [
          | inl wrong2 ↦ ground (arith, h, right, wrong2)
          | inr right2 ↦
              Keeps-phase c c' (mobilesync_send-Keeps _ c (e, c') (rw right2 at (rw right at h)))
        ]
      ]

  pub send_changes-Stays :
      (p : Option P) (last : Bool) (actions : Option P) (c : Client C)
      → Stays c (mobilesync_send_changes plist channel p last actions c)
  unfolding mobilesync_send_changes
  send_changes-Stays p last actions c e c' h = elim (in_session-cases _ _ c.data_class (e, c') h) [
    | inl refused ↦ ground (arith, refused)
    | inr (t, there, run) ↦ send_entities-Stays t p last actions c e c' run
  ]
