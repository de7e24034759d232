-- ===== src/Afc/Session.antt =====
-- The calls that a program makes on one AFC client, one after the other.
pub mod Frees
pub mod Files
pub mod Lock
use libimobiledevice.Common.{ℕ, ◌≡◌, Bool, List, Option, some}
use libimobiledevice.Common.Run.{Run, ret, ◌>>=◌}
use libimobiledevice.Service.{Service}
use libimobiledevice.Afc.Client.{Client}
use libimobiledevice.Afc.Strings.{Text}
use libimobiledevice.Afc.Path.{
  afc_read_directory, afc_get_device_info, afc_get_device_info_key, afc_get_device_info_plist,
  afc_get_file_info, afc_get_file_info_plist, afc_remove_path, afc_rename_path, afc_make_directory,
  afc_truncate, afc_make_link, afc_set_file_time, afc_remove_path_and_contents,
}
use libimobiledevice.Afc.File.{
  afc_file_open, afc_file_read, afc_file_write, afc_file_close, afc_file_lock, afc_file_seek,
  afc_file_tell, afc_file_truncate,
}

-- The operations of the client, with their arguments.
pub data Call : Type 0 where
  read_directory get_device_info_key get_file_info get_file_info_plist remove_path make_directory
        remove_path_and_contents :
      Option Text → Call
  get_device_info get_device_info_plist : Call
  rename_path : Option Text → Option Text → Call
  truncate set_file_time : Option Text → ℕ → Call
  make_link : ℕ → Option Text → Option Text → Call
  file_open : Text → ℕ → Call
  file_read file_lock file_truncate : ℕ → ℕ → Call
  file_write : ℕ → List ℕ → Call
  file_close file_tell : ℕ → Call
  file_seek : ℕ → ℕ → ℕ → Call

-- The code and the client of an answer with a result.
abbrev pub without_result {ℓ} :
    {A : Type ℓ} {C : Type 0} → Run (ℕ × Option A × Option C) → Run (ℕ × Option C)
without_result m = m >>= λ r. ret (r.0, r.2)

module _ {S : Type 0} (service : Service S) where
  -- The call, with what the allocator grants during it.
  unfoldable pub perform : (ℕ → Bool) → Call → Client S → Run (ℕ × Option (Client S))
  perform g (Call.read_directory p) c = without_result (afc_read_directory service g (some c) p)
  perform g (Call.get_device_info_key k) c =
      without_result (afc_get_device_info_key service g (some c) k)
  perform g (Call.get_file_info p) c = without_result (afc_get_file_info service g (some c) p)
  perform g (Call.get_file_info_plist p) c =
      without_result (afc_get_file_info_plist service g (some c) p)
  perform g (Call.remove_path p) c = afc_remove_path service g (some c) p
  perform g (Call.make_directory p) c = afc_make_directory service g (some c) p
  perform g (Call.remove_path_and_contents p) c = afc_remove_path_and_contents service g (some c) p
  perform g Call.get_device_info c = without_result (afc_get_device_info service g (some c))
  perform g Call.get_device_info_plist c =
      without_result (afc_get_device_info_plist service g (some c))
  perform g (Call.rename_path from to) c = afc_rename_path service g (some c) from to
  perform g (Call.truncate p n) c = afc_truncate service g (some c) p n
  perform g (Call.set_file_time p t) c = afc_set_file_time service g (some c) p t
  perform g (Call.make_link t target name) c = afc_make_link service g (some c) t target name
  perform g (Call.file_open p m) c = without_result (afc_file_open service g (some c) p m)
  perform g (Call.file_read h n) c = without_result (afc_file_read service (some c) h n)
  perform g (Call.file_lock h o) c = afc_file_lock service (some c) h o
  perform g (Call.file_truncate h n) c = afc_file_truncate service (some c) h n
  perform g (Call.file_write h d) c = without_result (afc_file_write service (some c) h d)
  perform g (Call.file_close h) c = afc_file_close service (some c) h
  perform g (Call.file_tell h) c = without_result (afc_file_tell service (some c) h)
  perform g (Call.file_seek h o w) c = afc_file_seek service (some c) h o w

-- The clients that a program can come to by calls that return.
pub data Reach {S : Type 0} (service : Service S) (c : Client S) : Client S → Type 0 where
  here : Reach service c c
  next :
      {c1 c2 : Client S} (grants : ℕ → Bool) (call : Call) (e : ℕ)
      → Reach service c c1
      → perform service grants call c1 ≡ ret (e, some c2)
      → Reach service c c2
