-- ===== src/Afc/Session/Lock.antt =====
-- Whatever the calls and the answers, the client's lock is free between calls.
use libimobiledevice.Common.{ℕ, ◌≡◌, refl, Bool, [], ◌++◌, none, some, arith, ◌∙◌, ap}
use libimobiledevice.Common.Run.{ret, >>=-eq-ret}
use libimobiledevice.Common.Bytes.{le_bytes}
use libimobiledevice.Service.{Service}
use libimobiledevice.Afc.Error
use libimobiledevice.Afc.Op
use libimobiledevice.Afc.Client.{Client, afc_lock}
use libimobiledevice.Afc.Command.{c_string, exchange, request}
use libimobiledevice.Afc.Command.Lock.{Balanced}
use libimobiledevice.Afc.Strings.{Text}
use libimobiledevice.Afc.Path.{
  keep, removal_error, list_reply, afc_read_directory, afc_get_device_info, afc_get_device_info_key,
  afc_get_device_info_plist, afc_get_file_info, afc_get_file_info_plist, afc_remove_path,
  afc_rename_path, afc_make_directory, afc_truncate, afc_make_link, afc_set_file_time,
  afc_remove_path_and_contents,
}
use libimobiledevice.Afc.File.{afc_file_close, afc_file_lock, afc_file_seek, afc_file_truncate}
use libimobiledevice.Afc.Session.{Call, perform, without_result, Reach, here, next}
use libimobiledevice.Afc.Session.Frees.{
  Frees, ready_request-Frees, handle_request-Frees, answer-Frees, list_reply-Frees,
  get_devinfo-Held, request-Held,
}
use libimobiledevice.Afc.Session.Files.{
  file_open-Frees, file_read-Frees, file_tell-Frees, file_write-Frees,
}

module _ {S : Type 0} (service : Service S) (grants : ℕ → Bool) where
  device_info_key-Frees :
      (key : Text) (c : Client S)
      → Frees c (without_result (afc_get_device_info_key service grants (some c) (some key)))
  unfolding afc_get_device_info_key afc_get_device_info
  device_info_key-Frees key c e c' h =
      let listed =
        list_reply service grants
          (exchange service Op.get_devinfo [] Error.not_enough_data keep (afc_lock c)) in
      let (r1, ran1, rest1) =
        >>=-eq-ret (afc_get_device_info_key service grants (some c) (some key))
          (λ r. ret (r.0, r.2)) h in
      let (r, ran, rest) = >>=-eq-ret listed _ ran1 in
      let client : r.2 ≡ some c' = ground (arith, rest, rest1) in
      list_reply-Frees service grants c _ (get_devinfo-Held service grants c) r.0 c'
        (ap (λ m. without_result m) ran ∙ ap (λ o. ret (r.0, o)) client)

  -- Every call.
  pub perform-Frees : (call : Call) (c : Client S) → Frees c (perform service grants call c)
  unfolding perform
  perform-Frees (Call.remove_path none) c e c' h = unfold afc_remove_path in ground arith
  perform-Frees (Call.remove_path (some p)) c e c' h =
      unfold afc_remove_path in
      ready_request-Frees service grants Op.remove_path (c_string p) removal_error c e c' h
  perform-Frees (Call.make_directory none) c e c' h = unfold afc_make_directory in ground arith
  perform-Frees (Call.make_directory (some p)) c e c' h =
      unfold afc_make_directory in
      let (r, ran, rest) =
        >>=-eq-ret (request service grants Op.make_dir (c_string p) Error.not_enough_data keep c)
          (λ r. ret (r.0, some r.2)) {b = (e, some c')} h in
      ground (arith, rest, request-Held service grants Op.make_dir (c_string p) c r ran)
  perform-Frees (Call.remove_path_and_contents none) c e c' h =
      unfold afc_remove_path_and_contents in ground arith
  perform-Frees (Call.remove_path_and_contents (some p)) c e c' h =
      unfold afc_remove_path_and_contents in
      ready_request-Frees service grants Op.remove_path_and_contents (c_string p) keep c e c' h
  perform-Frees (Call.rename_path none to) c e c' h = unfold afc_rename_path in ground arith
  perform-Frees (Call.rename_path (some from) none) c e c' h =
      unfold afc_rename_path in ground arith
  perform-Frees (Call.rename_path (some from) (some to)) c e c' h =
      unfold afc_rename_path in
      ready_request-Frees service grants Op.rename_path (c_string from ++ c_string to) keep c e c' h
  perform-Frees (Call.truncate none n) c e c' h = unfold afc_truncate in ground arith
  perform-Frees (Call.truncate (some p) n) c e c' h =
      unfold afc_truncate in
      ready_request-Frees service grants Op.truncate (le_bytes 8 n ++ c_string p) keep c e c' h
  perform-Frees (Call.set_file_time none n) c e c' h = unfold afc_set_file_time in ground arith
  perform-Frees (Call.set_file_time (some p) n) c e c' h =
      unfold afc_set_file_time in
      ready_request-Frees service grants Op.set_file_mod_time (le_bytes 8 n ++ c_string p) keep c e
        c' h
  perform-Frees (Call.make_link t none name) c e c' h = unfold afc_make_link in ground arith
  perform-Frees (Call.make_link t (some target) none) c e c' h =
      unfold afc_make_link in ground arith
  perform-Frees (Call.make_link t (some target) (some name)) c e c' h =
      unfold afc_make_link in
      ready_request-Frees service grants Op.make_link
        (le_bytes 8 t ++ (c_string target ++ c_string name)) keep c e c' h
  perform-Frees (Call.file_lock n o) c e c' h =
      unfold afc_file_lock in
      handle_request-Frees service grants Op.file_lock n (le_bytes 8 o) Error.unknown_error c e c' h
  perform-Frees (Call.file_truncate n o) c e c' h =
      unfold afc_file_truncate in
      handle_request-Frees service grants Op.file_set_size n (le_bytes 8 o) Error.not_enough_data c
        e c' h
  perform-Frees (Call.file_close n) c e c' h =
      unfold afc_file_close in
      handle_request-Frees service grants Op.file_close n [] Error.unknown_error c e c' h
  perform-Frees (Call.file_seek n o w) c e c' h =
      unfold afc_file_seek in
      handle_request-Frees service grants Op.file_seek n (le_bytes 8 w ++ le_bytes 8 o)
        Error.not_enough_data c e c' h
  perform-Frees (Call.read_directory none) c e c' h = unfold afc_read_directory in ground arith
  perform-Frees (Call.read_directory (some p)) c e c' h =
      unfold afc_read_directory in
      list_reply-Frees service grants c _ (request-Held service grants Op.read_dir (c_string p) c) e
        c' h
  perform-Frees Call.get_device_info c e c' h =
      unfold afc_get_device_info in
      list_reply-Frees service grants c _ (get_devinfo-Held service grants c) e c' h
  perform-Frees Call.get_device_info_plist c e c' h =
      unfold afc_get_device_info_plist in
      answer-Frees service grants c _ _ (get_devinfo-Held service grants c) (λ r v k. ground arith)
        e c' h
  perform-Frees (Call.get_file_info none) c e c' h = unfold afc_get_file_info in ground arith
  perform-Frees (Call.get_file_info (some p)) c e c' h =
      unfold afc_get_file_info in
      answer-Frees service grants c _ _
        (request-Held service grants Op.get_file_info (c_string p) c) (λ r v k. ground arith) e c' h
  perform-Frees (Call.get_file_info_plist none) c e c' h =
      unfold afc_get_file_info_plist in ground arith
  perform-Frees (Call.get_file_info_plist (some p)) c e c' h =
      unfold afc_get_file_info_plist in
      answer-Frees service grants c _ _
        (request-Held service grants Op.get_file_info (c_string p) c) (λ r v k. ground arith) e c' h
  perform-Frees (Call.get_device_info_key none) c e c' h =
      unfold afc_get_device_info_key in ground arith
  perform-Frees (Call.get_device_info_key (some key)) c e c' h = device_info_key-Frees key c e c' h
  perform-Frees (Call.file_open p m) c e c' h = file_open-Frees service grants p m c e c' h
  perform-Frees (Call.file_read n l) c e c' h = file_read-Frees service grants n l c e c' h
  perform-Frees (Call.file_write n d) c e c' h = file_write-Frees service grants n d c e c' h
  perform-Frees (Call.file_tell n) c e c' h = file_tell-Frees service grants n c e c' h

-- Whatever the device answers and whatever the allocator grants, after any sequence of calls that
-- return the lock of the client is held exactly as often as before the first: each call that locks
-- the client unlocks it on every way out, failures included.
pub Reach-Balanced :
    {S : Type 0} {service : Service S} {c c' : Client S} → Reach service c c' → Balanced c c'
Reach-Balanced here = refl
Reach-Balanced {service = service} {c = c} (next {c1 = c1} {c2 = c2} grants call e r h) =
    perform-Frees service grants call c1 e c2 h ∙ Reach-Balanced r
