-- ===== src/WebSocket/Loop.antt =====
-- engine.io/v4/client/transport/websocket/transport.go: the read loop of one run as a sequence of
-- steps, from the dial that succeeded.
pub mod Order
pub mod Ends
use go_socket_io.Base.{
  ◌≡◌, Bool, true, false, Option, none, some, List, [], ◌∷◌, ◌++◌, Bytes, Result, ok, err,
}
use go_socket_io.Url.{Url, UrlLibrary}
use go_socket_io.WebSocket.{Transport, run, stop, dialled}

-- Where the loop stands: it waits for a message, it hands one on, or it has ended.
pub data Loop : Type 0 where
  reading finished : Loop
  handing_on : Bytes → Loop

-- `ctx_err` is what `Err` of the run's context returns; `received` are the messages that the
-- connection gave and `delivered` those put into the channel of messages, in their order; `closes`
-- is what was put into `onClose`, which has room for one value, and `result` what the loop returns.
pub record System : Type 0 where
  pub transport : Transport
  pub loop : Loop
  pub ctx_err : Option Bytes
  pub received : List Bytes
  pub delivered : List Bytes
  pub closes : List (Option Bytes)
  pub result : Option Bytes

-- What `Run` starts.
unfoldable pub started : Transport → Url → Bytes → Option Bytes → System
unfolding run
started t url sid ctx_err = record {
  transport = run t url sid;
  loop = reading;
  ctx_err = ctx_err;
  received = [];
  delivered = [];
  closes = [];
  result = none;
}

-- `Run` with `connectWebSocket`: the read loop, or the error of the dial. `dial` is that of the
-- connection, for the address and the origin.
unfoldable pub connect_web_socket :
    UrlLibrary
    → (Option Url × Option Url → Option Bytes)
    → Transport
    → Url
    → Bytes
    → Option Bytes
    → Result Bytes System
unfolding started run dialled
connect_web_socket lib dial t url sid ctx_err = elim (dial (dialled lib (run t url sid))) [
  | none ↦ ok (started t url sid ctx_err)
  | some e ↦ err e
]

-- A value that is dropped if the channel is full.
abbrev put_close : List (Option Bytes) → Option Bytes → List (Option Bytes)
put_close [] e = e ∷ []
put_close (c ∷ closes) e = c ∷ closes

-- The client is told, and the loop returns.
unfoldable pub finish : System → Option Bytes → System
finish s e = record s { loop = finished; closes = put_close s.closes e; result = e }

abbrev pub take_stop : System → System
take_stop s = finish (record s { transport = record s.transport { stop_pooling = false } }) none

pub data Step (s : System) : System → Type 0 where
  read_stopped : s.loop ≡ reading → s.transport.stop_pooling ≡ true → Step s (take_stop s)
  read_cancelled : (e : Bytes) → s.loop ≡ reading → s.ctx_err ≡ some e → Step s (finish s (some e))
  message_received :
      (message : Bytes)
      → s.loop ≡ reading
      → Step s (record s { loop = handing_on message; received = s.received ++ message ∷ [] })
  receive_failed : (e : Bytes) → s.loop ≡ reading → Step s (finish s (some e))
  handed_on :
      (message : Bytes)
      → s.loop ≡ handing_on message
      → Step s (record s { loop = reading; delivered = s.delivered ++ message ∷ [] })
  handing_stopped :
      (message : Bytes)
      → s.loop ≡ handing_on message
      → s.transport.stop_pooling ≡ true
      → Step s (take_stop s)
  handing_cancelled :
      (message e : Bytes)
      → s.loop ≡ handing_on message
      → s.ctx_err ≡ some e
      → Step s (finish s (some e))
  -- `Stop`
  stops : Step s (record s { transport = stop s.transport })
  -- The context of the run ends.
  context_ends : (e : Bytes) → s.ctx_err ≡ none → Step s (record s { ctx_err = some e })

-- Any number of steps.
pub data Reach (s : System) : System → Type 0 where
  here : Reach s s
  next : {s' s'' : System} → Reach s s' → Step s' s'' → Reach s s''
