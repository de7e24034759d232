-- ===== src/Examples/Stored.antt =====
-- Property lists as bytes, and a usbmuxd that keeps one pair record.
use libimobiledevice.Common.{
  ℕ, zero, suc, ◌+◌, ◌≤◌, ◌≡◌, refl, true, false, List, [], ◌∷◌, ◌++◌, Option, none, some, arith,
  append-nil, append_assoc,
}
use libimobiledevice.Common.Bytes.{length, take, drop, take-append, drop-append, codes}
use libimobiledevice.Userpref.{UserprefError, Usbmuxd, Stored, enoent}
use libimobiledevice.Lockdown.Pair.Record.{Keys}
use libimobiledevice.Lockdown.Pair.HostId.{StoreLaws}
use libimobiledevice.Lockdown.Pair.Records.{KeepsRecords}
use libimobiledevice.Examples.Nodes.{Node}

abbrev counted : List ℕ → List ℕ
counted bs = length bs ∷ bs

unfoldable pub encode : Node → List ℕ
encode Node.end = 0 ∷ []
encode Node.empty = 1 ∷ []
encode (Node.item a b) = 2 ∷ encode a ++ encode b
encode (Node.entry k a b) = 3 ∷ counted k ++ encode a ++ encode b
encode (Node.text t) = 4 ∷ counted t
encode (Node.number n) = 5 ∷ n ∷ []
encode (Node.truth false) = 6 ∷ []
encode (Node.truth true) = 7 ∷ []
encode (Node.blob bs) = 8 ∷ counted bs

unfoldable pub depth : Node → ℕ
depth (Node.item a b) = suc (depth a + depth b)
depth (Node.entry k a b) = suc (depth a + depth b)
depth _ = 1

abbrev pub Decoded : Type 0
Decoded = Option (Node × List ℕ)

abbrev pub second : (Node → Node) → Decoded → Decoded
second f none = none
second f (some (b, r)) = some (f b, r)

unfoldable pub decode : ℕ → List ℕ → Decoded
decode zero r = none
decode (suc f) [] = none
decode (suc f) (zero ∷ r) = some (Node.end, r)
decode (suc f) (suc zero ∷ r) = some (Node.empty, r)
decode (suc f) (suc (suc zero) ∷ r) = elim (decode f r) [
  | none ↦ none
  | some p ↦ second (Node.item p.0) (decode f p.1)
]
decode (suc f) (suc (suc (suc zero)) ∷ n ∷ r) = elim (decode f (drop n r)) [
  | none ↦ none
  | some p ↦ second (Node.entry (take n r) p.0) (decode f p.1)
]
decode (suc f) (suc (suc (suc (suc zero))) ∷ n ∷ r) = some (Node.text (take n r), drop n r)
decode (suc f) (suc (suc (suc (suc (suc zero)))) ∷ n ∷ r) = some (Node.number n, r)
decode (suc f) (suc (suc (suc (suc (suc (suc zero))))) ∷ r) = some (Node.truth false, r)
decode (suc f) (suc (suc (suc (suc (suc (suc (suc zero)))))) ∷ r) = some (Node.truth true, r)
decode (suc f) (suc (suc (suc (suc (suc (suc (suc (suc zero))))))) ∷ n ∷ r) =
    some (Node.blob (take n r), drop n r)
decode (suc f) _ = none

depth_positive : (n : Node) → 1 ≤ depth n
unfolding depth
depth_positive (Node.item a b) = omega arith
depth_positive (Node.entry k a b) = omega arith
depth_positive _ = omega arith

decode-encode :
    (n : Node) (f : ℕ) (r : List ℕ) → depth n ≤ f → decode f (encode n ++ r) ≡ some (n, r)
unfolding decode encode depth
decode-encode n zero r h = absurd (omega (arith, depth_positive n))
decode-encode Node.end (suc f) r h = refl
decode-encode Node.empty (suc f) r h = refl
decode-encode (Node.item a b) (suc f) r h = rw (append_assoc (encode a) (encode b) r) (
    rw (decode-encode a f (encode b ++ r) (omega arith))
      (rw (decode-encode b f r (omega arith)) refl))
decode-encode (Node.entry k a b) (suc f) r h = rw (append_assoc (k ++ encode a) (encode b) r) (
    rw (append_assoc k (encode a) (encode b ++ r)) (
      rw (drop-append k (encode a ++ (encode b ++ r)) (length k) refl) (
        rw (decode-encode a f (encode b ++ r) (omega arith)) (
          rw (decode-encode b f r (omega arith)) (
            rw (append_assoc (k ++ encode a) (encode b) r) (
              rw (append_assoc k (encode a) (encode b ++ r))
                (rw (take-append k (encode a ++ (encode b ++ r)) (length k) refl) refl)))))))
decode-encode (Node.text t) (suc f) r h =
    rw (take-append t r (length t) refl) (rw (drop-append t r (length t) refl) refl)
decode-encode (Node.number n) (suc f) r h = refl
decode-encode (Node.truth false) (suc f) r h = refl
decode-encode (Node.truth true) (suc f) r h = refl
decode-encode (Node.blob bs) (suc f) r h =
    rw (take-append bs r (length bs) refl) (rw (drop-append bs r (length bs) refl) refl)

-- The depth goes before the bytes, so that it is known how far to read.
unfoldable pub to_bin : Node → List ℕ
to_bin n = depth n ∷ encode n

abbrev pub first : Decoded → Option Node
first none = none
first (some (n, r)) = some n

unfoldable pub from_memory : List ℕ → Option Node
from_memory [] = none
from_memory (f ∷ bs) = first (decode f bs)

from-to : (n : Node) → from_memory (to_bin n) ≡ some n
unfolding from_memory to_bin
from-to n = rw (← append-nil (encode n)) (rw (decode-encode n (depth n) [] (omega arith)) refl)

abbrev pub Store : Type 0
Store = Option (List ℕ)

abbrev stored_in : Store → Stored
stored_in none = Stored.errno enoent
stored_in (some bs) = Stored.record_data bs

-- The record of the only device, and the SystemBUID "b".
abbrev pub keeper : Usbmuxd Node Store
keeper = record {
  read_buid = λ h. some (codes "b");
  read_pair_record = λ udid h. stored_in h;
  save_pair_record_with_device_id = λ udid n bs h. (true, some bs);
  delete_pair_record = λ udid h. (true, none);
  from_memory = from_memory;
  to_bin = to_bin;
}

pub keeper-StoreLaws : StoreLaws keeper
keeper-StoreLaws = record { read-save = λ udid n bs h. refl; from-to = from-to }

-- One private key is made, and the HostID "h".
abbrev pub maker : Keys Node Store
maker = record {
  generate_keys_and_certs = λ p k v h.
      (UserprefError.success, Node.entry (codes "RootPrivateKey") (Node.blob (9 ∷ [])) p, h);
  generate_uuid = λ h. (codes "h", h);
}

pub maker-KeepsRecords : KeepsRecords maker (λ h. h)
maker-KeepsRecords = record { by_keys = λ p k v h. refl; by_uuid = λ h. refl }
