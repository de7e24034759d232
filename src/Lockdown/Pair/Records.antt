-- ===== src/Lockdown/Pair/Records.antt =====
-- src/lockdown.c: what pairing does to the pair records of the computer.
use libimobiledevice.Common.{
  ◌≡◌, refl, ap, ◌∙◌, ◌≢◌, ◌⊎◌, false, List, Option, none, some, arith, inl, inr, Bool-cases,
  Option-cases, ℕ,
}
use libimobiledevice.Common.Run.{
  ret, ◌>>=◌, After, After->>=, After-any, After-if, After-Option, After-mono, After→Ensures,
}
use libimobiledevice.PlistService.Secure.{SecureChannel}
use libimobiledevice.Common.Bytes.{codes}
use libimobiledevice.Dictionary.{Dicts, item_in, string_of}
use libimobiledevice.Userpref.{Usbmuxd}
use libimobiledevice.Lockdown.Error.{LockdownError, is_success}
use libimobiledevice.Lockdown.Client.{Client}
use libimobiledevice.Lockdown.Calls.{exchange, lockdownd_get_value}
use libimobiledevice.Lockdown.Verdict.{lockdownd_strtoerr-fails}
use libimobiledevice.Lockdown.Pair.Record.{
  PairRecord, Verb, Keys, Source, given, filled_record, generated, pair_record_generate,
  lockdownd_get_device_public_key_as_key_data, new_source, own_source, find_source,
}
use libimobiledevice.Lockdown.Pair.Request.{
  pair_accepted, pair_code, after_pairing, pair_answered, pair_with, lockdownd_do_pair,
}

-- Generating keys and names leaves the stored pair records alone, which are what `stored` sees of
-- the computer's state.
pub record KeepsRecords {P H R : Type 0} (keys : Keys P H) (stored : H → R) : Type 0 where
  pub by_keys :
      (p : P) (k : Option (List ℕ)) (v : ℕ) (h : H)
      → stored (keys.generate_keys_and_certs p k v h).2 ≡ stored h
  pub by_uuid : (h : H) → stored (keys.generate_uuid h).1 ≡ stored h

pub pair_code-fails :
    {P : Type 0} (dicts : Dicts P) (verb : Verb) (d : Option P)
    → pair_accepted dicts verb d ≡ false
    → is_success (pair_code dicts verb d) ≡ false
unfolding pair_code
pair_code-fails dicts verb d f =
    elim (Option-cases (string_of dicts (item_in dicts d (codes "Error")))) [
      | inl n ↦ ground (arith, f, n)
      | inr (v, n) ↦ ground (arith, f, n, lockdownd_strtoerr-fails v)
    ]

module _ {P C H R : Type 0} (dicts : Dicts P) (channel : SecureChannel P C) (usbmuxd : Usbmuxd P H)
    (keys : Keys P H) (stored : H → R) (keeps : KeepsRecords keys stored) where
  -- Finding the record to pair with changes no stored one.
  generated-stored :
      (k : Option (List ℕ)) (v : ℕ) (h : H)
      → stored (generated dicts usbmuxd keys k v h).2 ≡ stored h
  unfolding generated filled_record
  generated-stored k v h = keeps.by_uuid _ ∙ keeps.by_keys dicts.new_dict k v h

  generate-stored :
      (c : Client C) (h : H)
      → After (pair_record_generate dicts channel usbmuxd keys c h) (λ r. stored r.0.2 ≡ stored h)
  unfolding pair_record_generate
  generate-stored c h =
      After-any _ (lockdownd_get_device_public_key_as_key_data dicts channel usbmuxd keys c) _
        (λ r. After-if _ (is_success r.0) _ _ (λ t. generated-stored r.1 _ h) (λ f. refl))

  new_source-stored :
      (c : Client C) (h : H)
      → After (new_source dicts channel usbmuxd keys c h) (λ s. stored s.2 ≡ stored h)
  unfolding new_source
  new_source-stored c h =
      After->>= (λ r. stored r.0.2 ≡ stored h) _
        (pair_record_generate dicts channel usbmuxd keys c h) _ (generate-stored c h)
        (λ r q.
          After-Option _ r.0.1 _ _ (λ n. q)
            (λ p s.
              After-if _ (is_success r.0.0) _ _
                (λ t. After-any _ (lockdownd_get_value dicts channel r.1 none _) _ (λ w. q))
                (λ f. q)))

  find_source-stored :
      (s : Option (LockdownError × Option (Source P))) (verb : Verb) (c : Client C) (h : H)
      → After (find_source dicts channel usbmuxd keys s verb c h) (λ s. stored s.2 ≡ stored h)
  unfolding find_source own_source
  find_source-stored (some s) verb c h = refl
  find_source-stored none Verb.pair c h = new_source-stored c h
  find_source-stored none Verb.validate_pair c h = refl
  find_source-stored none Verb.unpair c h = refl

  -- The request is ValidatePair, or has not been a success.
  abbrev pub Harmless : Verb → LockdownError → Type 0
  Harmless verb e = (e ≢ LockdownError.success) ⊎ (verb ≡ Verb.validate_pair)

  validating-stored :
      (verb : Verb) (s : Source P) (d : Option P) (c : Client C) (h : H)
      → verb ≡ Verb.validate_pair
      → after_pairing dicts channel usbmuxd keys verb s d c h ≡ h
  unfolding after_pairing
  validating-stored Verb.validate_pair s d c h e = refl
  validating-stored Verb.pair s d c h e = cc
  validating-stored Verb.unpair s d c h e = cc

  answered-stored :
      (verb : Verb) (s : Source P) (d : Option P) (c : Client C) (h : H)
      → After
          (pair_answered dicts channel usbmuxd keys verb s d c h)
          (λ r. Harmless verb r.0 → stored r.3 ≡ stored h)
  unfolding pair_answered pair_code
  answered-stored verb s d c h = elim (Bool-cases (pair_accepted dicts verb d)) [
    | inl t ↦ λ m. elim m [
      | inl n ↦ absurd (n (rw t refl))
      | inr v ↦ rw t (ap stored (validating-stored verb s d c h v))
    ]
    | inr f ↦ λ m. rw f refl
  ]

  pair_with-stored :
      (verb : Verb) (options : Option P) (s : Source P) (c : Client C) (h : H)
      → After
          (pair_with dicts channel usbmuxd keys verb options s c h)
          (λ r. Harmless verb r.0 → stored r.3 ≡ stored h)
  unfolding pair_with
  pair_with-stored verb options s c h =
      After-any _ (exchange dicts channel c _) _
        (λ r. After-if _ (is_success r.0) _ _ (λ t. answered-stored verb s r.1 r.2 h) (λ f m. refl))

  -- The pair records of the computer are the same after lockdownd_do_pair as before, if it was to
  -- validate a pairing or if its code is not a success, whatever the device answers and wherever
  -- the call fails, provided that generating keys and names leaves the stored records alone.
  pub do_pair-stored :
      (client : Client C) (pair_record : Option PairRecord) (verb : Verb) (options : Option P)
      (h : H) (e : LockdownError) (answer : Option P) (client' : Client C) (h' : H)
      → lockdownd_do_pair dicts channel usbmuxd keys client pair_record verb options h
        ≡ ret (e, answer, client', h')
      → (e ≢ LockdownError.success) ⊎ (verb ≡ Verb.validate_pair)
      → stored h' ≡ stored h
  unfolding lockdownd_do_pair
  do_pair-stored client pair_record verb options h e answer client' h' run =
      After→Ensures (λ r. Harmless verb r.0 → stored r.3 ≡ stored h)
        (find_source dicts channel usbmuxd keys (given dicts pair_record) verb client h >>= _)
        (After->>= (λ s. stored s.2 ≡ stored h) _
          (find_source dicts channel usbmuxd keys (given dicts pair_record) verb client h) _
          (find_source-stored (given dicts pair_record) verb client h)
          (λ s q.
            After-Option _ s.0.1 _ _ (λ n m. q)
              (λ source f.
                After-mono (λ r. Harmless verb r.0 → stored r.3 ≡ stored s.2) _ _
                  (pair_with-stored verb options source s.1 s.2) (λ r k m. k m ∙ q))))
        (e, answer, client', h') run
