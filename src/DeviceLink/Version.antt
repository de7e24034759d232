-- ===== src/DeviceLink/Version.antt =====
-- The version exchange succeeds exactly when the device makes its part of it.
use libimobiledevice.Common.{ℕ, ◌≤◌, ◌<◌, ◌≡◌, ◌⊎◌, refl, ap, ◌∙◌, true, Option, none, some, arith}
use libimobiledevice.Common.Run.{ret, >>=-eq-ret}
use libimobiledevice.PlistService.{PlistServiceError, Channel}
use libimobiledevice.DeviceLink.{
  DeviceLinkError, is_success, device_link_error, Plist, version_exchange_name, device_ready_name,
  is_message,
}
use libimobiledevice.DeviceLink.Message.{
  device_link_service_get_message, version_in, versions_ok, is_later, version_error, ready_error,
}
use libimobiledevice.DeviceLink.Exchange.{
  await_ready, accept_version, device_link_service_version_exchange,
}

pub device_link_error-success :
    (e : PlistServiceError)
    → is_success (device_link_error e) ≡ true
    → e ≡ PlistServiceError.success
unfolding device_link_error
device_link_error-success PlistServiceError.success h = refl
device_link_error-success _ h = ground arith

-- The device's first message: its name, at least two more items, and a version that is not later
-- than the client's, major number first.
pub record IsOffer {P : Type 0} (plist : Plist P) (a : P) (major minor : ℕ) : Type 0 where
  pub named :
      is_message version_exchange_name (device_link_service_get_message plist (some a)) ≡ true
  pub long : 3 ≤ plist.array_size a
  pub known :
      (version_in plist (plist.array_item a 1) < major)
      ⊎ ((version_in plist (plist.array_item a 1) ≡ major)
          × (version_in plist (plist.array_item a 2) ≤ minor))

module _ {P : Type 0} (plist : Plist P) where
  version_error-IsOffer :
      (a : P) (major minor : ℕ)
      → is_success (version_error plist (some a) major minor) ≡ true
      → IsOffer plist a major minor
  unfolding version_error is_later
  version_error-IsOffer a major minor h = record {
    named = ground (arith, h);
    long = ground (arith, h);
    known = ground (arith, h);
  }

  IsOffer-version_error :
      (a : P) (major minor : ℕ)
      → IsOffer plist a major minor
      → version_error plist (some a) major minor ≡ DeviceLinkError.success
  unfolding version_error is_later
  IsOffer-version_error a major minor o = ground (arith, o.named, o.long, o.known)

  version_error-none :
      (major minor : ℕ) → version_error plist none major minor ≡ DeviceLinkError.plist_error
  unfolding version_error
  version_error-none major minor = refl

module _ {P C : Type 0} (plist : Plist P) (channel : Channel P C) where
  -- The exchange, step by step: the device's offer is received, the client's answer is sent, and
  -- the device says that it is ready.
  pub record Handshake (major minor : ℕ) (c c' : C) : Type 0 where
    pub offer : P
    pub ready : Option P
    pub c1 : C
    pub c2 : C
    pub received : channel.receive_plist c ≡ ret (PlistServiceError.success, some offer, c1)
    pub offered : IsOffer plist offer major minor
    pub answered :
        channel.send c1 (some (versions_ok plist major)) ≡ ret (PlistServiceError.success, c2)
    pub confirmed : channel.receive_plist c2 ≡ ret (PlistServiceError.success, ready, c')
    pub is_ready : is_message device_ready_name (device_link_service_get_message plist ready) ≡ true

  await_ready-success :
      (c c' : C)
      → await_ready plist channel c ≡ ret (DeviceLinkError.success, some c')
      → (b : Option P) × (channel.receive_plist c ≡ ret (PlistServiceError.success, b, c'))
        × (is_message device_ready_name (device_link_service_get_message plist b) ≡ true)
  unfolding await_ready ready_error
  await_ready-success c c' h =
      let (r, got, rest) = >>=-eq-ret (channel.receive_plist c) _ h in
      (r.1, ground (arith, got, rest, device_link_error-success r.0), ground (arith, rest))

  accept_version-success :
      (major : ℕ) (c c' : C)
      → accept_version plist channel major c ≡ ret (DeviceLinkError.success, some c')
      → (c2 : C) × (channel.send c (some (versions_ok plist major))
          ≡ ret (PlistServiceError.success, c2))
        × (await_ready plist channel c2 ≡ ret (DeviceLinkError.success, some c'))
  unfolding accept_version
  accept_version-success major c c' h =
      let (r, got, rest) = >>=-eq-ret (channel.send c (some (versions_ok plist major))) _ h in
      (r.1, ground (arith, got, rest, device_link_error-success r.0), ground (arith, rest))

  -- The first step, by what was received.
  first_step :
      (major minor : ℕ) (c c' c1 : C) (e : PlistServiceError) (a : Option P)
      → channel.receive_plist c ≡ ret (e, a, c1)
      → device_link_service_version_exchange plist channel (some c) major minor
        ≡ ret (DeviceLinkError.success, some c')
      → (e ≡ PlistServiceError.success)
        × (is_success (version_error plist a major minor) ≡ true)
        × (accept_version plist channel major c1 ≡ ret (DeviceLinkError.success, some c'))
  unfolding device_link_service_version_exchange
  first_step major minor c c' c1 e a got h = (
    ground (arith, got, h, device_link_error-success e),
    ground (arith, got, h),
    ground (arith, got, h),
  )

  Handshake-of :
      (major minor : ℕ) (c c' c1 : C) (a : Option P)
      → channel.receive_plist c ≡ ret (PlistServiceError.success, a, c1)
      → is_success (version_error plist a major minor) ≡ true
      → accept_version plist channel major c1 ≡ ret (DeviceLinkError.success, some c')
      → Handshake major minor c c'
  Handshake-of major minor c c' c1 none got ok rest = absurd (unfold version_error in ground arith)
  Handshake-of major minor c c' c1 (some offer) got ok rest =
      let (c2, answered, rest2) = accept_version-success major c1 c' rest in
      let (b, confirmed, is_ready) = await_ready-success c2 c' rest2 in
      record {
        offer = offer;
        ready = b;
        c1 = c1;
        c2 = c2;
        received = got;
        offered = version_error-IsOffer plist offer major minor ok;
        answered = answered;
        confirmed = confirmed;
        is_ready = is_ready;
      }

  -- When the version exchange returns success, each step of it was made: the first message was
  -- received, is a DLMessageVersionExchange of at least three items, and states a version that is
  -- not later than the given one; DLVersionsOk with the given major number was sent; and then
  -- DLMessageDeviceReady was received.
  pub version_exchange-Handshake :
      (c : C) (major minor : ℕ) (c' : C)
      → device_link_service_version_exchange plist channel (some c) major minor
        ≡ ret (DeviceLinkError.success, some c')
      → Handshake major minor c c'
  unfolding device_link_service_version_exchange
  version_exchange-Handshake c major minor c' h =
      let (r, got, _) = >>=-eq-ret (channel.receive_plist c) _ h in
      let (e, ok, rest) = first_step major minor c c' r.2 r.0 r.1 got h in
      Handshake-of major minor c c' r.2 r.1 (got ∙ ap (λ x. ret (x, r.1, r.2)) e) ok rest

  -- When each step of the version exchange can be made (the device offers a version that is not
  -- later than the given one, DLVersionsOk can be sent, and DLMessageDeviceReady is received), it
  -- returns success and the client in the state after the last.
  Handshake-version_exchange :
      (c : C) (major minor : ℕ) (c' : C)
      → Handshake major minor c c'
      → device_link_service_version_exchange plist channel (some c) major minor
        ≡ ret (DeviceLinkError.success, some c')
  unfolding device_link_service_version_exchange accept_version await_ready ready_error
      device_link_error
  Handshake-version_exchange c major minor c' s = ground (
    arith,
    s.received,
    IsOffer-version_error plist s.offer major minor s.offered,
    s.answered,
    s.confirmed,
    s.is_ready,
  )
