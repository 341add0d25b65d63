-- ===== src/WebSocket/Loop/Order.antt =====
-- engine.io/v4/client/transport/websocket/transport.go: the messages that a run hands on.
use go_socket_io.Base.{
  ◌≤◌, ◌≡◌, refl, Option, some, List, [], ◌∷◌, ◌++◌, Bytes, length, arith, append-nil,
}
use go_socket_io.Url.{Url}
use go_socket_io.WebSocket.{Transport}
use go_socket_io.WebSocket.Loop.{
  Loop, reading, finished, handing_on, System, started, finish, take_stop, Step, read_stopped,
  read_cancelled, message_received, receive_failed, handed_on, handing_stopped, handing_cancelled,
  stops, context_ends, Reach, here, next,
}

-- What was received and not handed on, while the loop goes on.
abbrev pending : Loop → List Bytes
pending reading = []
pending finished = []
pending (handing_on message) = message ∷ []

-- The messages handed on are those received, but for one at most, which a stop may drop.
abbrev pub Follows : Loop → List Bytes → List Bytes → Type 0
Follows finished received delivered =
    (rest : List Bytes) × (received ≡ delivered ++ rest) × (length rest ≤ 1)
Follows loop received delivered = received ≡ delivered ++ pending loop

IsInOrder : System → Type 0
IsInOrder s = Follows s.loop s.received s.delivered

pending-Follows :
    (l : Loop) (received delivered : List Bytes)
    → Follows l received delivered
    → Follows finished received delivered
pending-Follows reading r d e = ([], e, omega arith)
pending-Follows finished r d e = e
pending-Follows (handing_on m) r d e = (m ∷ [], e, omega arith)

finish-IsInOrder : (s : System) (e : Option Bytes) → IsInOrder s → IsInOrder (finish s e)
unfolding IsInOrder finish
finish-IsInOrder s e o = pending-Follows s.loop s.received s.delivered o

take_stop-IsInOrder : (s : System) → IsInOrder s → IsInOrder (take_stop s)
unfolding IsInOrder finish
take_stop-IsInOrder s o = pending-Follows s.loop s.received s.delivered o

Step-IsInOrder : {s s' : System} → Step s s' → IsInOrder s → IsInOrder s'
unfolding IsInOrder
Step-IsInOrder {s = s} (read_stopped l g) o = take_stop-IsInOrder s o
Step-IsInOrder {s = s} (read_cancelled e l g) o = finish-IsInOrder s (some e) o
Step-IsInOrder {s = s} (message_received m l) o = ground (arith, append-nil s.delivered)
Step-IsInOrder {s = s} (receive_failed e l) o = finish-IsInOrder s (some e) o
Step-IsInOrder {s = s} (handed_on m l) o = ground (arith, append-nil (s.delivered ++ m ∷ []))
Step-IsInOrder {s = s} (handing_stopped m l g) o = take_stop-IsInOrder s o
Step-IsInOrder {s = s} (handing_cancelled m e l g) o = finish-IsInOrder s (some e) o
Step-IsInOrder stops o = o
Step-IsInOrder (context_ends e c) o = o

Reach-IsInOrder : {s s' : System} → IsInOrder s → Reach s s' → IsInOrder s'
Reach-IsInOrder o here = o
Reach-IsInOrder o (next r st) = Step-IsInOrder st (Reach-IsInOrder o r)

-- Whatever the order of the steps of a run: the messages put into the channel are those that the
-- connection gave, in their order, without the one that the loop still hands on; after the end of
-- the loop, the last of them at most is missing.
pub delivers_in_order :
    (t : Transport) (url : Url) (sid : Bytes) (e : Option Bytes) {s : System}
    → Reach (started t url sid e) s
    → Follows s.loop s.received s.delivered
unfolding IsInOrder started
delivers_in_order t url sid e r = Reach-IsInOrder {s = started t url sid e} refl r
