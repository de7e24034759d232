-- ===== src/Examples/Inspector.antt =====
-- The theorems on the web inspector, over a mailbox of messages.
use libimobiledevice.Common.{
  ℕ, zero, suc, ◌/◌, ◌≡◌, refl, false, List, [], ◌∷◌, ◌++◌, Option, none, some, arith,
}
use libimobiledevice.Common.Bytes.{length, codes}
use libimobiledevice.Common.Run.{Run, ret}
use libimobiledevice.PlistService.{PlistServiceError, Codec}
use libimobiledevice.Lockdown.Client.{Client}
use libimobiledevice.Lockdown.Start.Service.{Descriptor}
use libimobiledevice.Webinspector.{
  WebinspectorError, Inspected, webinspector_send, webinspector_receive_with_timeout,
}
use libimobiledevice.Webinspector.Client.{service_name}
use libimobiledevice.Webinspector.Messages.{IsMailbox, in_chunks}
use libimobiledevice.Webinspector.RoundTrip.{webinspector_receive-send}
use libimobiledevice.Webinspector.Unfinished.{RunsDry, only_parts, webinspector_receive-unfinished}
use libimobiledevice.Examples.Nodes.{Node, dict_of, nodes, nodes-DictLaws, Phone, phone}
use libimobiledevice.Examples.Handshakes.{sent, in_session}

-- What was sent, and what is to be received.
abbrev pub Mailbox : Type 0
Mailbox = List Node × List Node

abbrev pub fetch : List Node → List Node → Run (PlistServiceError × Option Node × Mailbox)
fetch out [] = ret (PlistServiceError.receive_timeout, none, (out, []))
fetch out (m ∷ rest) = ret (PlistServiceError.success, some m, (out, rest))

abbrev posted : List Node → Option Node → List Node
posted out none = out
posted out (some m) = out ++ (m ∷ [])

abbrev mailbox : Inspected Node Mailbox
mailbox = record {
  send_binary_plist = λ c o. ret (PlistServiceError.success, (posted c.0 o, c.1));
  receive_plist_with_timeout = λ c timeout_ms. fetch c.0 c.1;
}

abbrev out_of : Mailbox → List Node
out_of c = c.0

abbrev in_of : Mailbox → List Node
in_of c = c.1

mailbox-IsMailbox : IsMailbox mailbox out_of in_of
mailbox-IsMailbox = record {
  sends = λ c m. ((c.0 ++ (m ∷ []), c.1), refl, refl);
  receives = λ c timeout_ms m rest e. ((c.0, rest), ground (arith, e), refl);
}

mailbox-RunsDry : RunsDry mailbox in_of
mailbox-RunsDry c timeout_ms e = ((c.0, []), ground (arith, e))

-- The bytes of a data node, as they are.
abbrev bytes_of : Node → List ℕ
bytes_of (Node.blob bs) = bs
bytes_of _ = []

abbrev raw : Codec Node
raw = record {
  to_bin = bytes_of;
  to_xml = bytes_of;
  from_bin = λ bs. some (Node.blob bs);
  from_xml = λ bs. some (Node.blob bs);
}

abbrev sevens : ℕ → List ℕ
sevens zero = []
sevens (suc n) = 7 ∷ sevens n

length-sevens : (n : ℕ) → length (sevens n) ≡ n
length-sevens zero = refl
length-sevens (suc n) = omega (arith, length-sevens n)

-- One whole chunk and four bytes.
abbrev long : List ℕ
long = sevens 8100

abbrev pub waiting : List Node → Mailbox
waiting l = ([], l)

webinspector_receive-send_example :
    (c' d' : Mailbox) × (webinspector_send raw nodes mailbox 2
        (some (waiting []))
        (some (Node.blob long))
      ≡ ret (WebinspectorError.success, some c'))
    × (out_of c' ≡ [] ++ in_chunks nodes (length long / 8096) long)
    × (webinspector_receive_with_timeout raw nodes mailbox 2
          (some (waiting (in_chunks nodes (length long / 8096) long ++ (Node.end ∷ []))))
          100
        ≡ ret (WebinspectorError.success, some (Node.blob long), some d'))
    × (in_of d' ≡ Node.end ∷ [])
webinspector_receive-send_example =
    webinspector_receive-send raw nodes mailbox out_of in_of mailbox-IsMailbox nodes-DictLaws
      (λ bs. refl) 2 100 (Node.blob long) (Node.end ∷ []) (waiting [])
      (waiting (in_chunks nodes (length long / 8096) long ++ (Node.end ∷ [])))
      (omega (arith, length-sevens 8100)) (omega (arith, length-sevens 8100))
      (omega (arith, length-sevens 8100)) refl refl

-- One whole chunk.
abbrev whole : List ℕ
whole = sevens 8096

webinspector_receive-unfinished_example :
    (c' d' : Mailbox) × (webinspector_send raw nodes mailbox 2
        (some (waiting []))
        (some (Node.blob whole))
      ≡ ret (WebinspectorError.success, some c'))
    × (out_of c' ≡ [] ++ only_parts nodes 1 whole)
    × (webinspector_receive_with_timeout raw nodes mailbox 2
          (some (waiting (only_parts nodes 1 whole)))
          100
        ≡ ret (WebinspectorError.mux_error, none, some d'))
webinspector_receive-unfinished_example =
    webinspector_receive-unfinished raw nodes mailbox out_of in_of mailbox-IsMailbox nodes-DictLaws
      (λ bs. refl) mailbox-RunsDry 0 2 100 (Node.blob whole) (waiting [])
      (waiting (only_parts nodes 1 whole)) (omega (arith, length-sevens 8096)) (omega arith) refl

abbrev inspector_sent : Node
inspector_sent = dict_of (
    (codes "Service", Node.text service_name)
    ∷ (codes "Request", Node.text (codes "StartService"))
    ∷ [])

abbrev inspecting : Client Phone
inspecting = record in_session { parent = phone (sent ++ (inspector_sent ∷ [])) [] false }

abbrev inspector_service : Descriptor
inspector_service = record { port = 1025; ssl_enabled = false; identifier = some service_name }
