-- ===== src/InstallationProxy/Lookup.antt =====
-- src/installation_proxy.c: the result of instproxy_lookup.
use libimobiledevice.Common.{
  ℕ, ◌≡◌, refl, sym, ap, ◌∙◌, Bool, List, [], ◌∷◌, ◌++◌, Option, none, some, inl, inr, Option-cases,
  arith,
}
use libimobiledevice.Common.Bytes.{codes}
use libimobiledevice.Common.Run.{ret, >>=-eq-ret}
use libimobiledevice.PlistService.{PlistServiceError}
use libimobiledevice.DeviceLink.{Text}
use libimobiledevice.Dictionary.{Dicts}
use libimobiledevice.InstallationProxy.Error.{InstproxyError}
use libimobiledevice.InstallationProxy.{
  Proxied, Client, CommandType, invoke, command_for, instproxy_copy_lookup_result_cb,
  instproxy_perform_command,
}
use libimobiledevice.InstallationProxy.Commands.{lookup_options, perform_lookup, instproxy_lookup}
use libimobiledevice.InstallationProxy.Verdict.{AllInProgress, IsComplete}
use libimobiledevice.InstallationProxy.Completed.{Trace, called, perform_command-Completed}

module _ {P : Type 0} (dicts : Dicts P) where
  abbrev result_of : P → Option P
  result_of m = dicts.get_item m (codes "LookupResult")

  -- The last LookupResult in the messages.
  abbrev pub last_result : List P → Option P
  last_result [] = none
  last_result (m ∷ ms) = elim (last_result ms) [ none ↦ result_of m | some r ↦ some r ]

  called-last_result :
      (command : P) (ms : List P) (u : Option P)
      → called (some (instproxy_copy_lookup_result_cb dicts)) command ms u
        ≡ elim (last_result ms) [ none ↦ u | some r ↦ some r ]
  unfolding invoke instproxy_copy_lookup_result_cb
  called-last_result command [] u = refl
  called-last_result command (m ∷ ms) u =
      let ih = called-last_result command ms (instproxy_copy_lookup_result_cb dicts command m u) in
      elim (Option-cases (last_result ms)) [
        | inl n ↦ ground (arith, n, ih, Option-cases (result_of m))
        | inr (r, q) ↦ ground (arith, q, ih)
      ]

  all_called :
      (command : P) (ms : List P)
      → called (some (instproxy_copy_lookup_result_cb dicts)) command ms none ≡ last_result ms
  all_called command ms =
      called-last_result command ms none
      ∙ elim (Option-cases (last_result ms)) [ inl n ↦ rw n refl | inr (r, q) ↦ rw q refl ]

module _ {P C : Type 0} (dicts : Dicts P) (channel : Proxied P C) where
  -- When instproxy_lookup returns a success, the command Lookup, with the given options and bundle
  -- identifiers, was handed to the connection, then messages in progress and a complete one came
  -- in, and the result is the LookupResult of the last message that has one, or NULL if none has.
  pub instproxy_lookup-last_result :
      (rounds : ℕ) (thread_new : Bool) (client : Client C) (appids : Option (List Text))
      (options : Option P) (client' : Option (Client C)) (result : Option P)
      → instproxy_lookup dicts channel thread_new rounds (some client) appids options
        ≡ ret (InstproxyError.success, client', result)
      → (c c1 c' : C) × (e : PlistServiceError) × (ms : List P) × (m : P) × (client.parent ≡ some c)
        × (channel.send_xml_plist c
              (command_for dicts (codes "Lookup") (lookup_options dicts appids options))
            ≡ ret (e, c1))
        × Trace channel c1 (ms ++ (m ∷ [])) c'
        × AllInProgress dicts ms
        × IsComplete dicts m
        × (result ≡ last_result dicts (ms ++ (m ∷ [])))
  unfolding instproxy_lookup perform_lookup
  instproxy_lookup-last_result rounds thread_new client appids options client' result run =
      let command = command_for dicts (codes "Lookup") (lookup_options dicts appids options) in
      let (r, performed, out) =
        >>=-eq-ret
          (instproxy_perform_command dicts channel thread_new rounds (some client) CommandType.sync
            (some (instproxy_copy_lookup_result_cb dicts)) command none)
          _ run in
      let ok : r.0 ≡ InstproxyError.success = cc out in
      let given : r.2 ≡ result = ground (arith, ok, out) in
      let (c, c1, c', e, parent, busy, sent, left, done) =
        perform_command-Completed dicts channel rounds thread_new client
          (some (instproxy_copy_lookup_result_cb dicts)) command none r.2 r.1
          (performed ∙ ap (λ x. ret (x, r.1, r.2)) ok) in
      (
        c,
        c1,
        c',
        e,
        done.0,
        done.1,
        parent,
        sent,
        done.2,
        done.3,
        done.4,
        sym given ∙ done.5 ∙ all_called dicts command (done.0 ++ (done.1 ∷ [])),
      )
