-- ===== src/PlistService/Secure.antt =====
-- src/property_list_service.c: switching SSL on and off, and the calls that lockdownd's client makes.
use libimobiledevice.Common.{ℕ, Bool, true, false, Option, none, some, ◌==◌, if◌then◌else◌}
use libimobiledevice.Common.Run.{Run, ret, ◌>>=◌}
use libimobiledevice.Service.{ServiceError, Service}
use libimobiledevice.PlistService.{
  PlistServiceError, Codec, PlistClient, is_null_client, service_to_property_list_service_error,
  property_list_service_send_xml_plist, property_list_service_receive_plist,
}

abbrev pub succeeded : PlistServiceError → Bool
succeeded PlistServiceError.success = true
succeeded _ = false

-- service_enable_ssl, service_disable_ssl, service_client_new for a port with or without SSL, and
-- service_client_free.
pub record Secure (S : Type 0) : Type 0 where
  pub enable_ssl : S → Run (ServiceError × S)
  pub disable_ssl : S → Run (ServiceError × S)
  pub client_new : ℕ → Bool → Run (ServiceError × Option S)
  pub client_free : S → Run ServiceError

module _ {S : Type 0} (secure : Secure S) where
  -- One of the two calls on a client that may be NULL.
  unfoldable pub switch :
      (S → Run (ServiceError × S)) → PlistClient S → Run (PlistServiceError × PlistClient S)
  switch call none = ret (PlistServiceError.invalid_arg, none)
  switch call (some none) = ret (PlistServiceError.invalid_arg, some none)
  switch call (some (some s)) =
      call s >>= λ r. ret (service_to_property_list_service_error r.0, some (some r.1))

  unfoldable pub property_list_service_enable_ssl :
      PlistClient S → Run (PlistServiceError × PlistClient S)
  property_list_service_enable_ssl c = switch secure.enable_ssl c

  unfoldable pub property_list_service_disable_ssl :
      PlistClient S → Run (PlistServiceError × PlistClient S)
  property_list_service_disable_ssl c = switch secure.disable_ssl c

  -- The client pointer afterwards is NULL unless the call was a success.
  unfoldable pub property_list_service_client_new :
      ℕ → Bool → Run (PlistServiceError × PlistClient S)
  property_list_service_client_new port ssl_enabled =
      if port == 0
      then ret (PlistServiceError.invalid_arg, none)
      else (secure.client_new port ssl_enabled >>= λ r. elim r.0 [
        | ServiceError.success ↦ ret (PlistServiceError.success, some r.1)
        | _ ↦ ret (service_to_property_list_service_error r.0, none)
      ])

  unfoldable pub property_list_service_client_free : PlistClient S → Run PlistServiceError
  property_list_service_client_free none = ret PlistServiceError.invalid_arg
  property_list_service_client_free (some none) =
      ret (service_to_property_list_service_error ServiceError.invalid_arg)
  property_list_service_client_free (some (some s)) =
      secure.client_free s >>= λ e. ret (service_to_property_list_service_error e)

-- What lockdownd's client uses of this file, over the states `C` of a client pointer, which is
-- NULL where `is_null` says so.
pub record SecureChannel (P C : Type 0) : Type 0 where
  pub is_null : C → Bool
  pub send_xml_plist : C → P → Run (PlistServiceError × C)
  pub receive_plist : C → Run (PlistServiceError × Option P × C)
  pub enable_ssl : C → Run (PlistServiceError × C)
  pub disable_ssl : C → Run (PlistServiceError × C)
  pub client_new : ℕ → Bool → Run (PlistServiceError × C)
  pub client_free : C → Run PlistServiceError

abbrev pub secure_channel_of :
    {P S : Type 0}
    → Codec P
    → Service S
    → Secure S
    → ℕ
    → (ℕ → Bool)
    → SecureChannel P (PlistClient S)
secure_channel_of codec service secure rounds grants = record {
  is_null = is_null_client;
  send_xml_plist = λ c p. property_list_service_send_xml_plist codec service c (some p);
  receive_plist = property_list_service_receive_plist codec service rounds grants;
  enable_ssl = property_list_service_enable_ssl secure;
  disable_ssl = property_list_service_disable_ssl secure;
  client_new = property_list_service_client_new secure;
  client_free = property_list_service_client_free secure;
}
