-- ===== src/Afc/Path.antt =====
-- src/afc.c: the operations on paths, and those that read the device's information.
use libimobiledevice.Common.{ℕ, Bool, not, List, [], ◌++◌, Option, none, some, ◌==◌, if◌then◌else◌}
use libimobiledevice.Common.Bytes.{le_bytes}
use libimobiledevice.Common.Run.{Run, ret, faults, ◌>>=◌}
use libimobiledevice.Service.{Service}
use libimobiledevice.Afc.Error
use libimobiledevice.Afc.Op
use libimobiledevice.Afc.Client.{Client, afc_lock}
use libimobiledevice.Afc.Command.{c_string, is_ready, code_only, exchange, request}
use libimobiledevice.Afc.Strings.{Text, Node, make_strings_list, make_dictionary, find_value}

abbrev pub keep : ℕ → ℕ
keep e = e

-- The bytes of a buffer, none of NULL.
abbrev pub bytes_of : Option (List ℕ) → List ℕ
bytes_of none = []
bytes_of (some d) = d

-- The unknown error of a removal means that the directory is not empty.
unfoldable pub removal_error : ℕ → ℕ
removal_error e = if e == Error.unknown_error then Error.dir_not_empty else e

-- The operations take the client that `client` leads to and the paths, `none` being NULL; the
-- pointers to results are not NULL, and those that must be are NULL. A value for a result that the
-- call does not store is `none`.
module _ {S : Type 0} (service : Service S) (grants : ℕ → Bool) where
  abbrev pub Listing : Type 0
  Listing = Run (ℕ × Option (List Text) × Option (Client S))

  -- The list of a reply, where the code is a success.
  unfoldable pub list_reply : Run (ℕ × Option (List ℕ) × Client S) → Listing
  list_reply m = m >>= λ r.
      if not (r.0 == Error.success)
      then ret (r.0, none, some r.2)
      else make_strings_list (bytes_of r.1) >>= λ l. ret (r.0, l, some r.2)

  unfoldable pub afc_read_directory : Option (Client S) → Option Text → Listing
  afc_read_directory none path = ret (Error.invalid_arg, none, none)
  afc_read_directory (some c) none = ret (Error.invalid_arg, none, some c)
  afc_read_directory (some c) (some path) =
      list_reply (request service grants Op.read_dir (c_string path) Error.not_enough_data keep c)

  unfoldable pub afc_get_device_info : Option (Client S) → Listing
  afc_get_device_info none = ret (Error.invalid_arg, none, none)
  afc_get_device_info (some c) =
      list_reply (exchange service Op.get_devinfo [] Error.not_enough_data keep (afc_lock c))

  -- The call on the list goes through its NULL-terminated array; a list that is NULL is read too.
  unfoldable pub afc_get_device_info_key :
      Option (Client S) → Option Text → Run (ℕ × Option Text × Option (Client S))
  afc_get_device_info_key c none = ret (Error.invalid_arg, none, c)
  afc_get_device_info_key c (some key) = afc_get_device_info c >>= λ r.
      if not (r.0 == Error.success)
      then ret (r.0, none, r.2)
      else elim r.1 [ none ↦ faults | some kvps ↦ find_value key kvps >>= λ v. ret (r.0, v, r.2) ]

  abbrev pub Items : Type 0
  Items = Run (ℕ × Option (List (Text × Node)) × Option (Client S))

  unfoldable pub afc_get_device_info_plist : Option (Client S) → Items
  afc_get_device_info_plist none = ret (Error.invalid_arg, none, none)
  afc_get_device_info_plist (some c) =
      exchange service Op.get_devinfo [] Error.not_enough_data keep (afc_lock c) >>= λ r.
      if not (r.0 == Error.success)
      then ret (r.0, none, some r.2)
      else make_dictionary (bytes_of r.1) >>= λ d. ret (r.0, d, some r.2)

  -- The list is made of a buffer that is not NULL, whatever the code.
  unfoldable pub afc_get_file_info : Option (Client S) → Option Text → Listing
  afc_get_file_info none path = ret (Error.invalid_arg, none, none)
  afc_get_file_info (some c) none = ret (Error.invalid_arg, none, some c)
  afc_get_file_info (some c) (some path) =
      request service grants Op.get_file_info (c_string path) Error.not_enough_data keep c >>= λ r.
      elim r.1 [
        | none ↦ ret (r.0, none, some r.2)
        | some d ↦ make_strings_list d >>= λ l. ret (r.0, l, some r.2)
      ]

  unfoldable pub afc_get_file_info_plist : Option (Client S) → Option Text → Items
  afc_get_file_info_plist none path = ret (Error.invalid_arg, none, none)
  afc_get_file_info_plist (some c) none = ret (Error.invalid_arg, none, some c)
  afc_get_file_info_plist (some c) (some path) =
      request service grants Op.get_file_info (c_string path) Error.not_enough_data keep c >>= λ r.
      elim r.1 [
        | none ↦ ret (r.0, none, some r.2)
        | some d ↦ make_dictionary d >>= λ l. ret (r.0, l, some r.2)
      ]

  abbrev pub Answer : Type 0
  Answer = Run (ℕ × Option (Client S))

  -- A request on a client that is ready, and an invalid argument otherwise.
  unfoldable pub ready_request : ℕ → List ℕ → (ℕ → ℕ) → Client S → Answer
  ready_request operation d final c =
      if is_ready c
      then code_only (request service grants operation d Error.not_enough_data final c)
      else ret (Error.invalid_arg, some c)

  unfoldable pub afc_remove_path : Option (Client S) → Option Text → Answer
  afc_remove_path none path = ret (Error.invalid_arg, none)
  afc_remove_path (some c) none = ret (Error.invalid_arg, some c)
  afc_remove_path (some c) (some path) =
      ready_request Op.remove_path (c_string path) removal_error c

  unfoldable pub afc_rename_path : Option (Client S) → Option Text → Option Text → Answer
  afc_rename_path none from to = ret (Error.invalid_arg, none)
  afc_rename_path (some c) none to = ret (Error.invalid_arg, some c)
  afc_rename_path (some c) (some from) none = ret (Error.invalid_arg, some c)
  afc_rename_path (some c) (some from) (some to) =
      ready_request Op.rename_path (c_string from ++ c_string to) keep c

  -- The source checks neither the path nor the client's fields here: strlen reads a NULL path.
  unfoldable pub afc_make_directory : Option (Client S) → Option Text → Answer
  afc_make_directory none path = ret (Error.invalid_arg, none)
  afc_make_directory (some c) none = faults
  afc_make_directory (some c) (some path) =
      code_only (request service grants Op.make_dir (c_string path) Error.not_enough_data keep c)

  unfoldable pub afc_truncate : Option (Client S) → Option Text → ℕ → Answer
  afc_truncate none path newsize = ret (Error.invalid_arg, none)
  afc_truncate (some c) none newsize = ret (Error.invalid_arg, some c)
  afc_truncate (some c) (some path) newsize =
      ready_request Op.truncate (le_bytes 8 newsize ++ c_string path) keep c

  unfoldable pub afc_make_link : Option (Client S) → ℕ → Option Text → Option Text → Answer
  afc_make_link none linktype target linkname = ret (Error.invalid_arg, none)
  afc_make_link (some c) linktype none linkname = ret (Error.invalid_arg, some c)
  afc_make_link (some c) linktype (some target) none = ret (Error.invalid_arg, some c)
  afc_make_link (some c) linktype (some target) (some linkname) =
      ready_request Op.make_link (le_bytes 8 linktype ++ (c_string target ++ c_string linkname))
        keep c

  unfoldable pub afc_set_file_time : Option (Client S) → Option Text → ℕ → Answer
  afc_set_file_time none path mtime = ret (Error.invalid_arg, none)
  afc_set_file_time (some c) none mtime = ret (Error.invalid_arg, some c)
  afc_set_file_time (some c) (some path) mtime =
      ready_request Op.set_file_mod_time (le_bytes 8 mtime ++ c_string path) keep c

  unfoldable pub afc_remove_path_and_contents : Option (Client S) → Option Text → Answer
  afc_remove_path_and_contents none path = ret (Error.invalid_arg, none)
  afc_remove_path_and_contents (some c) none = ret (Error.invalid_arg, some c)
  afc_remove_path_and_contents (some c) (some path) =
      ready_request Op.remove_path_and_contents (c_string path) keep c
