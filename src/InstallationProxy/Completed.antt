-- ===== src/InstallationProxy/Completed.antt =====
-- What a success of a command that is waited for means.
use libimobiledevice.Common.{
  ℕ, zero, suc, ◌≡◌, ◌≢◌, refl, sym, ap, ◌∙◌, Bool, true, false, List, [], ◌∷◌, ◌++◌, Option, none,
  some, inl, inr, Bool-cases,
}
use libimobiledevice.Common.Run.{
  ret, After, After->>=, After-self, After-mono, After→Ensures, >>=-eq-ret,
}
use libimobiledevice.PlistService.{PlistServiceError}
use libimobiledevice.Dictionary.{Dicts}
use libimobiledevice.InstallationProxy.Error.{InstproxyError, instproxy_error}
use libimobiledevice.InstallationProxy.{
  Proxied, Client, CommandType, StatusCb, invoke, is_communication_problem, verdict,
  receive_status_loop, receive_status_loop_with_callback, perform_over, perform_in,
  instproxy_perform_command,
}
use libimobiledevice.InstallationProxy.Verdict.{
  InProgress, AllInProgress, IsComplete, verdict-going, verdict-done,
}

-- From one state of the connection to another these messages come in, with time-outs between them.
pub data Trace {P C : Type 0} (channel : Proxied P C) : C → List P → C → Type 0 where
  stop : {c : C} → Trace channel c [] c
  quiet :
      {c c1 c2 : C} {ms : List P} (e : PlistServiceError)
      → channel.receive_plist_with_timeout c 1000 ≡ ret (e, none, c1)
      → Trace channel c1 ms c2
      → Trace channel c ms c2
  heard :
      {c c1 c2 : C} {ms : List P} (e : PlistServiceError) (m : P)
      → channel.receive_plist_with_timeout c 1000 ≡ ret (e, some m, c1)
      → Trace channel c1 ms c2
      → Trace channel c (m ∷ ms) c2

-- The callback is called with each of the messages, in their order.
abbrev pub called : {P U : Type 0} → StatusCb P U → P → List P → U → U
called status_cb command [] u = u
called status_cb command (m ∷ ms) u = called status_cb command ms (invoke status_cb command m u)

problem-fails :
    (e : InstproxyError) → is_communication_problem e ≡ true → e ≢ InstproxyError.success
problem-fails e t q = cc (t, ap is_communication_problem q)

module _ {P C U : Type 0} (dicts : Dicts P) (channel : Proxied P C) where
  -- Messages in progress and then a complete one came in, and the callback was called with each.
  abbrev pub Completed : StatusCb P U → P → C → U → C → U → Type 0
  Completed status_cb command c u c' u' =
      (ms : List P) × (m : P) × Trace channel c (ms ++ (m ∷ [])) c'
      × AllInProgress dicts ms
      × IsComplete dicts m
      × (u' ≡ called status_cb command (ms ++ (m ∷ [])) u)

  abbrev Concluded : StatusCb P U → P → C → U → InstproxyError × C × U → Type 0
  Concluded status_cb command c u r =
      r.0 ≡ InstproxyError.success → Completed status_cb command c u r.1 r.2

  Concluded-quiet :
      (status_cb : StatusCb P U) (command : P) (c c1 : C) (u : U) (e : PlistServiceError)
      (r : InstproxyError × C × U)
      → channel.receive_plist_with_timeout c 1000 ≡ ret (e, none, c1)
      → Concluded status_cb command c1 u r
      → Concluded status_cb command c u r
  Concluded-quiet status_cb command c c1 u e r got k s =
      let (ms, m, trace, all, done, q) = k s in (ms, m, Trace.quiet e got trace, all, done, q)

  Concluded-heard :
      (status_cb : StatusCb P U) (command : P) (c c1 : C) (u : U) (e : PlistServiceError) (m : P)
      (r : InstproxyError × C × U)
      → channel.receive_plist_with_timeout c 1000 ≡ ret (e, some m, c1)
      → InProgress dicts m
      → Concluded status_cb command c1 (invoke status_cb command m u) r
      → Concluded status_cb command c u r
  Concluded-heard status_cb command c c1 u e m r got going k s =
      let (ms, last, trace, all, done, q) = k s in
      (m ∷ ms, last, Trace.heard e m got trace, (going, all), done, q)

  message_or_none :
      (f : ℕ) (status_cb : StatusCb P U) (command : P) (c : C) (u : U)
      → ((c1 : C) (u1 : U)
          → After
              (receive_status_loop dicts channel f status_cb command c1 u1)
              (Concluded status_cb command c1 u1))
      → (e : PlistServiceError) (o : Option P) (c1 : C)
      → channel.receive_plist_with_timeout c 1000 ≡ ret (e, o, c1)
      → After
          (elim o [
            | none ↦ receive_status_loop dicts channel f status_cb command c1 u
            | some node ↦ elim (verdict dicts node).1 [
              | true ↦ ret ((verdict dicts node).0, c1, invoke status_cb command node u)
              | false ↦
                  receive_status_loop dicts channel f status_cb command c1
                    (invoke status_cb command node u)
            ]
          ])
          (Concluded status_cb command c u)
  message_or_none f status_cb command c u ih e none c1 got =
      After-mono _ _ (receive_status_loop dicts channel f status_cb command c1 u) (ih c1 u)
        λ r k. Concluded-quiet status_cb command c c1 u e r got k
  message_or_none f status_cb command c u ih e (some m) c1 got =
      elim (Bool-cases (verdict dicts m).1) [
        | inl t ↦
            rw t λ s. ([], m, Trace.heard e m got Trace.stop, tt, verdict-done dicts m t s, refl)
        | inr n ↦
            let u1 = invoke status_cb command m u in
            rw n (
              After-mono _ _ (receive_status_loop dicts channel f status_cb command c1 u1)
                (ih c1 u1)
                λ r k.
                  Concluded-heard status_cb command c c1 u e m r got (verdict-going dicts m n) k)
      ]

  receive_status_loop-Concluded :
      (f : ℕ) (status_cb : StatusCb P U) (command : P) (c : C) (u : U)
      → After
          (receive_status_loop dicts channel f status_cb command c u)
          (Concluded status_cb command c u)
  unfolding receive_status_loop
  receive_status_loop-Concluded zero status_cb command c u = tt
  receive_status_loop-Concluded (suc f) status_cb command c u =
      After->>= (λ r. channel.receive_plist_with_timeout c 1000 ≡ ret r)
        (Concluded status_cb command c u) (channel.receive_plist_with_timeout c 1000) _
        (After-self (channel.receive_plist_with_timeout c 1000))
        λ r got. elim (Bool-cases (is_communication_problem (instproxy_error r.0))) [
          | inl t ↦ rw t (λ s. absurd (problem-fails _ t s))
          | inr n ↦ rw n (
              message_or_none f status_cb command c u
                (receive_status_loop-Concluded f status_cb command) r.0 r.1 r.2 got)
        ]

  performed-Completed :
      (rounds : ℕ) (thread_new : Bool) (parent : Option C) (busy : Bool) (status_cb : StatusCb P U)
      (command : P) (u u' : U) (client' : Option (Client C))
      → perform_in dicts channel thread_new rounds parent busy CommandType.sync status_cb command u
        ≡ ret (InstproxyError.success, client', u')
      → (c c1 c' : C) × (e : PlistServiceError) × (parent ≡ some c)
        × (busy ≡ false)
        × (channel.send_xml_plist c command ≡ ret (e, c1))
        × (client' ≡ some (record { parent = some c'; busy = false }))
        × Completed status_cb command c1 u c' u'
  unfolding perform_in perform_over receive_status_loop_with_callback
  performed-Completed rounds thread_new none busy status_cb command u u' client' run = cc
  performed-Completed rounds thread_new (some c) true status_cb command u u' client' run = cc
  performed-Completed rounds thread_new (some c) false status_cb command u u' client' run =
      let (s, sent, rest) = >>=-eq-ret (channel.send_xml_plist c command) _ run in
      let (r, looped, out) =
        >>=-eq-ret (receive_status_loop dicts channel rounds status_cb command s.1 u) _ rest in
      let k =
        After→Ensures (Concluded status_cb command s.1 u) _
          (receive_status_loop-Concluded rounds status_cb command s.1 u) r looped in
      let ok : r.0 ≡ InstproxyError.success = cc out in
      let same : r.2 ≡ u' = cc out in
      let (ms, m, trace, all, done, q) = k ok in
      (c, s.1, r.1, s.0, refl, refl, sent, cc out, (ms, m, trace, all, done, sym same ∙ q))

  -- When instproxy_perform_command returns a success for a command that it waits for, the client
  -- had a connection and no receiving thread, the command was handed to the connection, and then,
  -- with time-outs between them, messages came in without an error and with no Status or another
  -- one than Complete, and last one without an error and with the Status Complete; the callback was
  -- called with each of these messages, in their order, and with no other. (The code of sending
  -- the command may be any.)
  pub perform_command-Completed :
      (rounds : ℕ) (thread_new : Bool) (client : Client C) (status_cb : StatusCb P U) (command : P)
      (u u' : U) (client' : Option (Client C))
      → instproxy_perform_command dicts channel thread_new rounds
          (some client)
          CommandType.sync
          status_cb
          command
          u
        ≡ ret (InstproxyError.success, client', u')
      → (c c1 c' : C) × (e : PlistServiceError) × (client.parent ≡ some c)
        × (client.busy ≡ false)
        × (channel.send_xml_plist c command ≡ ret (e, c1))
        × (client' ≡ some (record { parent = some c'; busy = false }))
        × Completed status_cb command c1 u c' u'
  unfolding instproxy_perform_command
  perform_command-Completed rounds thread_new client status_cb command u u' client' run =
      performed-Completed rounds thread_new client.parent client.busy status_cb command u u' client'
        run
