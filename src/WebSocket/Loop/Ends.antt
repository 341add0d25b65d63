-- ===== src/WebSocket/Loop/Ends.antt =====
-- engine.io/v4/client/transport/websocket/transport.go: how a run ends, and what is left of a `Stop`
-- that no loop took.
use go_socket_io.Base.{◌≡◌, refl, true, Option, none, List, [], ◌∷◌, Bytes, arith}
use go_socket_io.Url.{Url}
use go_socket_io.WebSocket.{Transport, run, stop}
use go_socket_io.WebSocket.Loop.{
  Loop, finished, System, started, finish, take_stop, Step, read_stopped, read_cancelled,
  message_received, receive_failed, handed_on, handing_stopped, handing_cancelled, stops,
  context_ends, Reach, here, next,
}

-- A loop that goes on has told nobody; one that has ended has told the client what it returns.
abbrev pub Told : Loop → List (Option Bytes) → Option Bytes → Type 0
Told finished closes result = closes ≡ result ∷ []
Told loop closes result = closes ≡ []

IsTold : System → Type 0
IsTold s = Told s.loop s.closes s.result

Step-IsTold : {s s' : System} → Step s s' → IsTold s → IsTold s'
unfolding IsTold finish
Step-IsTold (read_stopped l g) o = ground arith
Step-IsTold (read_cancelled e l g) o = ground arith
Step-IsTold (message_received m l) o = ground arith
Step-IsTold (receive_failed e l) o = ground arith
Step-IsTold (handed_on m l) o = ground arith
Step-IsTold (handing_stopped m l g) o = ground arith
Step-IsTold (handing_cancelled m e l g) o = ground arith
Step-IsTold stops o = o
Step-IsTold (context_ends e c) o = o

Reach-IsTold : {s s' : System} → IsTold s → Reach s s' → IsTold s'
Reach-IsTold o here = o
Reach-IsTold o (next r st) = Step-IsTold st (Reach-IsTold o r)

-- Whatever the order of the steps of a run, `onClose` holds exactly what the loop returned when the
-- loop has ended, and nothing before.
pub tells_the_client :
    (t : Transport) (url : Url) (sid : Bytes) (e : Option Bytes) {s : System}
    → Reach (started t url sid e) s
    → Told s.loop s.closes s.result
unfolding IsTold started
tells_the_client t url sid e r = Reach-IsTold {s = started t url sid e} refl r

-- A value in the channel of stops that nobody takes any more.
IsStale : System → Type 0
IsStale s = (s.loop ≡ finished) × (s.transport.stop_pooling ≡ true)

Step-IsStale : {s s' : System} → Step s s' → IsStale s → IsStale s'
unfolding IsStale finish stop
Step-IsStale (read_stopped l g) o = ground arith
Step-IsStale (read_cancelled e l g) o = ground arith
Step-IsStale (message_received m l) o = ground arith
Step-IsStale (receive_failed e l) o = ground arith
Step-IsStale (handed_on m l) o = ground arith
Step-IsStale (handing_stopped m l g) o = ground arith
Step-IsStale (handing_cancelled m e l g) o = ground arith
Step-IsStale stops o = ground arith
Step-IsStale (context_ends e c) o = ground arith

Reach-IsStale : {s s' : System} → IsStale s → Reach s s' → IsStale s'
Reach-IsStale o here = o
Reach-IsStale o (next r st) = Step-IsStale st (Reach-IsStale o r)

-- A `Stop` after the loop has ended is not taken by any later step, and stays for the next run of
-- the transport: that run, whatever its context, can end at its first step, with no message
-- received and with the client told that the connection was closed without an error.
pub stop_stays :
    (s : System) (url : Url) (sid : Bytes) (e : Option Bytes) {s' : System}
    → s.loop ≡ finished
    → Reach (record s { transport = stop s.transport }) s'
    → let begun = started s'.transport url sid e in
      Step begun (take_stop begun)
      × ((take_stop begun).loop ≡ finished)
      × ((take_stop begun).received ≡ [])
      × ((take_stop begun).closes ≡ none ∷ [])
unfolding started run stop finish IsStale
stop_stays s url sid e l r =
    let stale = Reach-IsStale {s = record s { transport = stop s.transport }} (l, refl) r in
    (read_stopped refl stale.1, refl, refl, refl)
