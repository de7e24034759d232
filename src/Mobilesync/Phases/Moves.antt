-- ===== src/Mobilesync/Phases/Moves.antt =====
-- The calls that begin a session, turn it round, or end it.
use libimobiledevice.Common.{
  ℕ, ◌≡◌, refl, sym, ap, ◌∙◌, ◌≢◌, Bool, true, false, Option, none, some, arith, if◌then◌else◌, inl,
  inr, Bool-cases, Option-cases,
}
use libimobiledevice.Common.Run.{ret, >>=-eq-ret}
use libimobiledevice.Common.Bytes.{codes}
use libimobiledevice.PlistService.{Channel}
use libimobiledevice.DeviceLink.{Text, Plist}
use libimobiledevice.DeviceLink.Exchange.{device_link_service_send_ping}
use libimobiledevice.Mobilesync.{MobilesyncError, Direction, Client, Anchors}
use libimobiledevice.Mobilesync.Answers.{expect}
use libimobiledevice.Mobilesync.Calls.{
  is_success, is_sending, mobilesync_receive, mobilesync_send, ask, start_session, start_from,
  mobilesync_finish, ping_ready, mobilesync_ready_to_send_changes_from_computer, cancel_session,
}
use libimobiledevice.Mobilesync.Phases.{
  Phase, can_start, start_phase, ready_phase, cancel_phase, phase_in, phase_of, code_of,
}
use libimobiledevice.Mobilesync.Phases.Stays.{
  Keeps-phase, in_session-cases, mobilesync_receive-Keeps,
}

phase_in_open : (t : Text) (d : Direction) → phase_in (some t) d ≢ Phase.idle
phase_in_open t Direction.device_to_computer = λ e. cc
phase_in_open t Direction.computer_to_device = λ e. cc

start_phase_open : (b : Bool) (p : Phase) → p ≢ Phase.idle → start_phase b p ≡ p
start_phase_open false p n = refl
start_phase_open true Phase.idle n = absurd (n refl)
start_phase_open true Phase.pulling n = refl
start_phase_open true Phase.pushing n = refl

ready_idle : (b : Bool) → ready_phase b Phase.idle ≡ Phase.idle
ready_idle true = refl
ready_idle false = refl

ready_open :
    (t : Text) (b : Bool)
    → phase_in (some t) (if b then Direction.computer_to_device else Direction.device_to_computer)
      ≡ ready_phase b Phase.pulling
ready_open t true = refl
ready_open t false = refl

ready_step :
    {C : Type 0} (t : Option Text) (d : Direction) (c' : Client C) (e : MobilesyncError)
    → is_sending d ≡ false
    → c'.data_class ≡ t
    → c'.direction ≡ (if is_success e then Direction.computer_to_device else d)
    → phase_of c' ≡ ready_phase (is_success e) (phase_in t d)
ready_step none d c' e pulls k m =
    ap (λ x. phase_in x c'.direction) k ∙ sym (ready_idle (is_success e))
ready_step (some t) Direction.device_to_computer c' e pulls k m =
    ap (λ x. phase_in x c'.direction) k ∙ ap (phase_in (some t)) m ∙ ready_open t (is_success e)
ready_step (some t) Direction.computer_to_device c' e pulls k m = absurd (ground arith)

module _ {P C : Type 0} (plist : Plist P) (channel : Channel P C) where
  pub finish-idle :
      (c : Client C) (e : MobilesyncError) (c' : Client C)
      → mobilesync_finish plist channel c ≡ ret (e, c')
      → phase_of c' ≡ Phase.idle
  unfolding mobilesync_finish
  finish-idle c e c' h = elim (in_session-cases _ _ c.data_class (e, c') h) [
    | inl refused ↦ ground (arith, refused)
    | inr (t, there, run) ↦
        let (r, ran, rest) = >>=-eq-ret (ask plist channel _ c) _ run in ground (arith, rest)
  ]

  pub cancel-phase :
      (d reason : Option Text) (c : Client C) (e : MobilesyncError) (c' : Client C)
      → d ≡ c.data_class
      → cancel_session plist channel d reason c ≡ ret (e, c')
      → phase_of c' ≡ cancel_phase reason (phase_of c)
  unfolding cancel_session
  cancel-phase none none c e c' k h = ground (arith, h)
  cancel-phase none (some reason) c e c' k h = ground (arith, h, k)
  cancel-phase (some t) none c e c' k h = ground (arith, h)
  cancel-phase (some t) (some reason) c e c' k h =
      let (r, ran, rest) = >>=-eq-ret (mobilesync_send plist channel _ c) _ h in
      ground (arith, rest)

  pub start-phase :
      (d t : Option Text) (a : Option Anchors) (v : ℕ) (c : Client C) (e : MobilesyncError)
      (c' : Client C)
      → d ≡ c.data_class
      → code_of (start_from plist channel d t a v c) ≡ ret (e, c')
      → phase_of c' ≡ start_phase (can_start t a) (phase_of c)
  unfolding start_from start_session
  start-phase none none a v c e c' k h = ground (arith, h)
  start-phase none (some t) none v c e c' k h = ground (arith, h)
  start-phase none (some t) (some a) v c e c' k h =
      let anchor = a.computer_anchor in
      elim (Option-cases anchor) [
        | inl missing ↦ ground (arith, h, missing)
        | inr (b, there) ↦
            let (q, ran, rest) =
              >>=-eq-ret (start_from plist channel none (some t) (some a) v c) (λ r. ret (r.0, r.2))
                h in
            let began : start_session plist channel t a.device_anchor b v c ≡ ret q =
              ground (arith, ran, there) in
            let (r, ran2, rest2) = >>=-eq-ret (ask plist channel _ c) _ began in
            ground (arith, rest, rest2, there, k)
      ]
  start-phase (some d) t a v c e c' k h =
      let same : c' ≡ c = ground (arith, h) in
      let open_phase : phase_of c ≢ Phase.idle = ground (arith, k, phase_in_open d c.direction) in
      ap (λ x. phase_of x) same ∙ sym (start_phase_open (can_start t a) (phase_of c) open_phase)

  pub ping_ready-phase :
      (c : Client C) (e : MobilesyncError) (c' : Client C)
      → is_sending c.direction ≡ false
      → ping_ready plist channel c ≡ ret (e, c')
      → phase_of c' ≡ ready_phase (is_success e) (phase_of c)
  unfolding ping_ready
  ping_ready-phase c e c' pulls h =
      let (r, ran, rest) =
        >>=-eq-ret
          (device_link_service_send_ping plist channel c.parent
            (some (codes "Preparing to get changes for device")))
          _ h in
      ready_step c.data_class c.direction c' e pulls (ground (arith, rest)) (ground (arith, rest))

  pub ready-phase :
      (c : Client C) (e : MobilesyncError) (c' : Client C)
      → mobilesync_ready_to_send_changes_from_computer plist channel c ≡ ret (e, c')
      → phase_of c' ≡ ready_phase (is_success e) (phase_of c)
  unfolding mobilesync_ready_to_send_changes_from_computer
  ready-phase c e c' h = elim (in_session-cases _ _ c.data_class (e, c') h) [
    | inl refused ↦ ground (arith, refused)
    | inr (t, there, run) ↦ elim (Bool-cases (is_sending c.direction)) [
      | inl wrong ↦ ground (arith, run, wrong)
      | inr right ↦
          let (r, ran, rest) =
            >>=-eq-ret (mobilesync_receive plist channel c) _ {b = (e, c')} (rw right at run) in
          let kept = mobilesync_receive-Keeps plist channel c r ran in
          let answer =
            if is_success r.0
            then expect plist (codes "SDMessageDeviceReadyToReceiveChanges")
                MobilesyncError.not_ready r.1
            else r.0 in
          elim (Bool-cases (is_success answer)) [
            | inl answered ↦
                let pinged : ping_ready plist channel r.2 ≡ ret (e, c') = rw answered at rest in
                ping_ready-phase r.2 e c' (ap (λ d. is_sending d) kept.1 ∙ right) pinged
                ∙ ap (ready_phase (is_success e)) (Keeps-phase c r.2 kept)
            | inr refused ↦ ground (arith, rest, refused, Keeps-phase c r.2 kept)
          ]
    ]
  ]
