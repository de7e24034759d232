-- ===== src/Afc/Receive/Faults.antt =====
-- When afc_receive_data comes back, and the replies on which it breaks its heap.
use libimobiledevice.Common.{ℕ, ◌≤◌, ◌≡◌, false, List}
use libimobiledevice.Common.Bytes.{length}
use libimobiledevice.Common.Run.{ret, Ends}
use libimobiledevice.Service.{ServiceError, Service, receive}
use libimobiledevice.Afc.Error
use libimobiledevice.Afc.Packet.{AfcPacket, header_size, afc_packet_from_le}
use libimobiledevice.Afc.Client.{Client}
use libimobiledevice.Afc.Receive.{content_length, header_error, is_empty}

-- The header of the next reply: it is read whole, is a good one for `p`, and says that `this_len`
-- bytes of contents out of `entire` belong to the packet.
pub record NextReply {S : Type 0} (service : Service S) (s : S) (p : AfcPacket)
    (entire this_len : ℕ) (s1 : S) : Type 0 where
  pub header : List ℕ
  pub got : receive service header_size s ≡ ret (ServiceError.success, header, s1)
  pub long : header_size ≤ length header
  pub good : header_error (afc_packet_from_le header) p.packet_num ≡ Error.success
  pub full : is_empty (afc_packet_from_le header) ≡ false
  pub entire_len : content_length (afc_packet_from_le header).entire_length ≡ entire
  pub this : content_length (afc_packet_from_le header).this_length ≡ this_len

-- The service delivers without an error, and the device's headers are consistent: a read gives at
-- most what was asked for, and a good header's first length is not above its second.
pub record Honest {S : Type 0} (service : Service S) (num : ℕ) : Type 0 where
  pub returns : (len millis : ℕ) (s : S) → Ends (service.receive_with_timeout len millis s)
  pub bounded :
      (len millis : ℕ) (s : S) (e : ServiceError) (bs : List ℕ) (s' : S)
      → service.receive_with_timeout len millis s ≡ ret (e, bs, s')
      → length bs ≤ len
  pub no_error :
      (len millis : ℕ) (s : S) (e : ServiceError) (bs : List ℕ) (s' : S)
      → service.receive_with_timeout len millis s ≡ ret (e, bs, s')
      → e ≡ ServiceError.success
  pub consistent :
      (s : S) (bs : List ℕ) (s' : S)
      → receive service header_size s ≡ ret (ServiceError.success, bs, s')
      → header_error (afc_packet_from_le bs) num ≡ Error.success
      → content_length (afc_packet_from_le bs).this_length
        ≤ content_length (afc_packet_from_le bs).entire_length
