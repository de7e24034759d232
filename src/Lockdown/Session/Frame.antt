-- ===== src/Lockdown/Session/Frame.antt =====
-- src/lockdown.c: a request changes nothing of the client but its connection.
use libimobiledevice.Common.{◌≡◌, refl, Option}
use libimobiledevice.Common.Run.{After, After->>=, After-any, After-if, After-mono}
use libimobiledevice.PlistService.Secure.{SecureChannel}
use libimobiledevice.Common.Bytes.{codes}
use libimobiledevice.DeviceLink.{Text}
use libimobiledevice.Dictionary.{Dicts}
use libimobiledevice.Lockdown.Error.{is_success}
use libimobiledevice.Lockdown.Client.{Client}
use libimobiledevice.Lockdown.Calls.{
  lockdownd_send, lockdownd_receive, exchange, exchange_unchecked, checked, lockdownd_get_value,
  value_request,
}

-- The second client is the first one, over a connection that may have moved on.
pub record Moved {C : Type 0} (client client' : Client C) : Type 0 where
  pub same_session : client'.session_id ≡ client.session_id
  pub same_ssl : client'.ssl_enabled ≡ client.ssl_enabled
  pub same_label : client'.label ≡ client.label
  pub same_device : client'.device ≡ client.device

pub Moved-refl : {C : Type 0} (client : Client C) → Moved client client
Moved-refl client = record {
  same_session = refl;
  same_ssl = refl;
  same_label = refl;
  same_device = refl;
}

pub Moved-trans : {C : Type 0} {a b c : Client C} → Moved a b → Moved b c → Moved a c
Moved-trans m n = record {
  same_session = cc (m.same_session, n.same_session);
  same_ssl = cc (m.same_ssl, n.same_ssl);
  same_label = cc (m.same_label, n.same_label);
  same_device = cc (m.same_device, n.same_device);
}

pub Moved-over :
    {C : Type 0} (client : Client C) (p : C) → Moved client (record client { parent = p })
Moved-over client p = record {
  same_session = refl;
  same_ssl = refl;
  same_label = refl;
  same_device = refl;
}

module _ {P C : Type 0} (dicts : Dicts P) (channel : SecureChannel P C) where
  pub lockdownd_send-Moved :
      (client : Client C) (p : P)
      → After (lockdownd_send dicts channel client p) (λ r. Moved client r.1)
  unfolding lockdownd_send
  lockdownd_send-Moved client p =
      After-any _ (channel.send_xml_plist client.parent p) _ (λ r. Moved-over client r.1)

  pub lockdownd_receive-Moved :
      (client : Client C) → After (lockdownd_receive dicts channel client) (λ r. Moved client r.2)
  unfolding lockdownd_receive
  lockdownd_receive-Moved client =
      After-any _ (channel.receive_plist client.parent) _ (λ r. Moved-over client r.2)

  -- A reception that follows.
  received :
      (a b : Client C) → Moved a b → After (lockdownd_receive dicts channel b) (λ r. Moved a r.2)
  received a b m =
      After-mono (λ r. Moved b r.2) _ (lockdownd_receive dicts channel b)
        (lockdownd_receive-Moved b) (λ r. Moved-trans m)

  pub exchange_unchecked-Moved :
      (client : Client C) (p : P)
      → After (exchange_unchecked dicts channel client p) (λ r. Moved client r.2)
  unfolding exchange_unchecked
  exchange_unchecked-Moved client p =
      After->>= (λ r. Moved client r.1) _ (lockdownd_send dicts channel client p) _
        (lockdownd_send-Moved client p) (λ r m. received client r.1 m)

  pub exchange-Moved :
      (client : Client C) (p : P) → After (exchange dicts channel client p) (λ r. Moved client r.2)
  unfolding exchange
  exchange-Moved client p =
      After->>= (λ r. Moved client r.1) _ (lockdownd_send dicts channel client p) _
        (lockdownd_send-Moved client p)
        (λ r m. After-if _ (is_success r.0) _ _ (λ t. received client r.1 m) (λ f. m))

  pub checked-Moved :
      (client : Client C) (p : P) (name : Text)
      → After (checked dicts channel client p name) (λ r. Moved client r.2)
  unfolding checked
  checked-Moved client p name =
      After->>= (λ r. Moved client r.2) _ (exchange dicts channel client p) _
        (exchange-Moved client p) (λ r m. After-if _ (is_success r.0) _ _ (λ t. m) (λ f. m))

  pub lockdownd_get_value-Moved :
      (client : Client C) (domain key : Option Text)
      → After (lockdownd_get_value dicts channel client domain key) (λ r. Moved client r.2)
  unfolding lockdownd_get_value
  lockdownd_get_value-Moved client domain key =
      After->>= (λ r. Moved client r.2) _
        (checked dicts channel client (value_request dicts client domain key (codes "GetValue"))
          (codes "GetValue"))
        _ (checked-Moved client _ _) (λ r m. After-if _ (is_success r.0) _ _ (λ t. m) (λ f. m))
