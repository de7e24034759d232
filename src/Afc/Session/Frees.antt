-- ===== src/Afc/Session/Frees.antt =====
-- The bodies that the operations of the client share leave its lock as it was.
use libimobiledevice.Common.{
  ℕ, ◌+◌, ◌≡◌, Bool, List, [], ◌++◌, Option, some, arith, ◌==◌, inl, inr, Bool-cases,
}
use libimobiledevice.Common.Run.{Run, ret, ◌>>=◌, >>=-eq-ret}
use libimobiledevice.Common.Bytes.{le_bytes}
use libimobiledevice.Service.{Service}
use libimobiledevice.Afc.Error
use libimobiledevice.Afc.Op
use libimobiledevice.Afc.Client.{Client, afc_lock}
use libimobiledevice.Afc.Command.{exchange, request, fixed_request, is_ready}
use libimobiledevice.Afc.Command.Lock.{
  Balanced, exchange-Released, request-Balanced, fixed_request-Balanced,
}
use libimobiledevice.Afc.Path.{keep, list_reply, ready_request}
use libimobiledevice.Afc.File.{handle_request}
use libimobiledevice.Afc.Session.{without_result}

module _ {S : Type 0} where
  -- A run that comes back with a client leaves its lock as it was in `c`.
  abbrev pub Frees : Client S → Run (ℕ × Option (Client S)) → Type 0
  Frees c m = (e : ℕ) (c' : Client S) → m ≡ ret (e, some c') → Balanced c c'

  -- Work on a reply, after the exchange, does not touch the client.
  abbrev pub Held : {A : Type 0} → Client S → Run (ℕ × A × Client S) → Type 0
  Held {A} c m = (r : ℕ × A × Client S) → m ≡ ret r → Balanced c r.2

module _ {S : Type 0} (service : Service S) (grants : ℕ → Bool) where
  pub ready_request-Frees :
      (operation : ℕ) (d : List ℕ) (final : ℕ → ℕ) (c : Client S)
      → Frees c (ready_request service grants operation d final c)
  unfolding ready_request
  ready_request-Frees operation d final c e c' h = elim (Bool-cases (is_ready c)) [
    | inr unready ↦ ground arith
    | inl ready ↦
        let (r, ran, rest) =
          >>=-eq-ret (request service grants operation d Error.not_enough_data final c)
            (λ r. ret (r.0, some r.2)) {b = (e, some c')} (rw (ready, ready_request) at h) in
        ground (
          arith,
          rest,
          request-Balanced service grants operation d Error.not_enough_data final c r ran,
        )
  ]

  pub handle_request-Frees :
      (operation handle : ℕ) (d : List ℕ) (unsent : ℕ) (c : Client S)
      → Frees c (handle_request service operation handle d unsent (some c))
  unfolding handle_request
  handle_request-Frees operation handle d unsent c e c' h = elim (Bool-cases (handle == 0)) [
    | inl zero_handle ↦ ground arith
    | inr open_handle ↦
        let (r, ran, rest) =
          >>=-eq-ret (fixed_request service operation (le_bytes 8 handle ++ d) unsent c)
            (λ r. ret (r.0, some r.2)) {b = (e, some c')} (rw (open_handle, handle_request) at h) in
        ground (
          arith,
          rest,
          fixed_request-Balanced service operation (le_bytes 8 handle ++ d) unsent c r ran,
        )
  ]

  -- Work on a reply that comes back gives the client back as it is.
  abbrev pub GivesBack :
      {A : Type 0}
      → (ℕ × Option (List ℕ) × Client S → Run (ℕ × Option A × Option (Client S)))
      → Type 0
  GivesBack {A} k =
      (r : ℕ × Option (List ℕ) × Client S) (v : ℕ × Option A × Option (Client S))
      → k r ≡ ret v
      → v.2 ≡ some r.2

  pub answer-Frees :
      {A : Type 0} (c : Client S) (m : Run (ℕ × Option (List ℕ) × Client S))
      (k : ℕ × Option (List ℕ) × Client S → Run (ℕ × Option A × Option (Client S)))
      → Held c m
      → GivesBack k
      → Frees c (without_result (m >>= k))
  answer-Frees c m k held gives e c' h =
      let (r1, ran1, rest1) = >>=-eq-ret (m >>= k) (λ r. ret (r.0, r.2)) h in
      let (r, ran, rest) = >>=-eq-ret m k ran1 in ground (arith, rest1, held r ran, gives r r1 rest)

  pub list_reply-Frees :
      (c : Client S) (m : Run (ℕ × Option (List ℕ) × Client S))
      → Held c m
      → Frees c (without_result (list_reply service grants m))
  unfolding list_reply
  list_reply-Frees c m held = answer-Frees c m _ held (λ r v h. ground arith)

  pub get_devinfo-Held :
      (c : Client S)
      → Held c (exchange service Op.get_devinfo [] Error.not_enough_data keep (afc_lock c))
  unfolding afc_lock
  get_devinfo-Held c r h = ground (
    arith,
    exchange-Released service Op.get_devinfo [] Error.not_enough_data keep
        (record c { mutex = c.mutex + 1 }) r,
  )

  pub request-Held :
      (operation : ℕ) (d : List ℕ) (c : Client S)
      → Held c (request service grants operation d Error.not_enough_data keep c)
  request-Held operation d c =
      request-Balanced service grants operation d Error.not_enough_data keep c

  pub fixed_request-Held :
      (operation : ℕ) (d : List ℕ) (c : Client S)
      → Held c (fixed_request service operation d Error.not_enough_data c)
  fixed_request-Held operation d c =
      fixed_request-Balanced service operation d Error.not_enough_data c
