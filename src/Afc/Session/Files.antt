-- ===== src/Afc/Session/Files.antt =====
-- The operations on open files leave the client's lock as it was.
use libimobiledevice.Common.{
  ℕ, ◌+◌, ◌≡◌, Bool, List, ◌++◌, Option, some, arith, not, ◌==◌, ◌||◌, inl, inr, Bool-cases,
}
use libimobiledevice.Common.Run.{ret, ◌>>=◌, >>=-eq-ret}
use libimobiledevice.Common.Bytes.{le_bytes}
use libimobiledevice.Service.{Service}
use libimobiledevice.Afc.Error
use libimobiledevice.Afc.Op
use libimobiledevice.Afc.Client.{Client, afc_lock, afc_unlock, store_data, afc_dispatch_packet}
use libimobiledevice.Afc.Client.Dispatch.{afc_dispatch_packet-Same}
use libimobiledevice.Afc.Receive.{afc_receive_data}
use libimobiledevice.Afc.Receive.Keeps.{afc_receive_data-Keeps}
use libimobiledevice.Afc.Command.{c_string, is_ready}
use libimobiledevice.Afc.Command.Lock.{Released}
use libimobiledevice.Afc.Strings.{Text}
use libimobiledevice.Afc.File.{
  reply_handle, reply_position, read_reply, write_exchange, written_count, afc_file_open,
  afc_file_read, afc_file_write, afc_file_tell,
}
use libimobiledevice.Afc.Session.{without_result}
use libimobiledevice.Afc.Session.Frees.{Frees, answer-Frees, request-Held, fixed_request-Held}

module _ {S : Type 0} (service : Service S) (grants : ℕ → Bool) where
  pub file_open-Frees :
      (p : Text) (mode : ℕ) (c : Client S)
      → Frees c (without_result (afc_file_open service grants (some c) p mode))
  unfolding afc_file_open
  file_open-Frees p mode c e c' h = elim (Bool-cases (is_ready c)) [
    | inr unready ↦ ground arith
    | inl ready ↦
        answer-Frees service grants c _
          (λ r. reply_handle r.0 r.1 >>= λ n. ret (r.0, some n, some r.2))
          (request-Held service grants Op.file_open (le_bytes 8 mode ++ c_string p) c)
          (λ r v k. ground arith) e c' (rw (ready, afc_file_open) at h)
  ]

  pub file_read-Frees :
      (n len : ℕ) (c : Client S) → Frees c (without_result (afc_file_read service (some c) n len))
  unfolding afc_file_read
  file_read-Frees n len c e c' h = elim (Bool-cases (not (is_ready c) || n == 0)) [
    | inl refused ↦ ground arith
    | inr open_handle ↦
        answer-Frees service grants c _ (λ r. ret (r.0, read_reply service r.0 r.1 len, some r.2))
          (fixed_request-Held service grants Op.file_read (le_bytes 8 n ++ le_bytes 8 len) c)
          (λ r v k. ground arith) e c' (rw (open_handle, afc_file_read) at h)
  ]

  pub file_tell-Frees :
      (n : ℕ) (c : Client S) → Frees c (without_result (afc_file_tell service (some c) n))
  unfolding afc_file_tell
  file_tell-Frees n c e c' h = elim (Bool-cases (n == 0)) [
    | inl refused ↦ ground arith
    | inr open_handle ↦
        answer-Frees service grants c _ (λ r. reply_position r.1 >>= λ p. ret (r.0, p, some r.2))
          (fixed_request-Held service grants Op.file_tell (le_bytes 8 n) c) (λ r v k. ground arith)
          e c' (rw (open_handle, afc_file_tell) at h)
  ]

  write_exchange-Released :
      (n : ℕ) (d : List ℕ) (c : Client S) (v : ℕ × Option ℕ × Option (Client S)) (c' : Client S)
      → write_exchange service n d c ≡ ret v
      → v.2 ≡ some c'
      → Released c c'
  unfolding write_exchange afc_unlock
  write_exchange-Released n d c v c' h k =
      let (q, ran, rest) =
        >>=-eq-ret (afc_dispatch_packet service Op.file_write (le_bytes 8 n) d c) _ h in
      let same =
        afc_dispatch_packet-Same service Op.file_write (le_bytes 8 n) d c q.0 q.1 q.2 ran in
      elim (Bool-cases (not (q.0 == Error.success))) [
        | inl failed ↦ ground (arith, rest, failed, same)
        | inr sent ↦
            let (a, ran2, rest2) =
              >>=-eq-ret (afc_receive_data service q.2)
                (λ a. ret (a.0, some (written_count q.1), some (afc_unlock a.2))) {b = v}
                (rw sent at rest) in
            ground (arith, rest2, same, afc_receive_data-Keeps service q.2 a ran2)
      ]

  pub file_write-Frees :
      (n : ℕ) (d : List ℕ) (c : Client S)
      → Frees c (without_result (afc_file_write service (some c) n d))
  unfolding afc_file_write store_data afc_lock
  file_write-Frees n d c e c' h =
      let (v, ran, rest) =
        >>=-eq-ret (afc_file_write service (some c) n d) (λ r. ret (r.0, r.2)) h in
      ground (arith, ran, rest, write_exchange-Released n d (record c { mutex = c.mutex + 1 }) v c')
