-- ===== src/Polling/Loop.antt =====
-- engine.io/v4/client/transport/polling/transport.go: one run of the transport as a sequence of
-- steps, from the end of `Run`. There are the polling loop, one call of `RequestHandshake`, calls of
-- `Stop`, and the client that calls `SetHandshake` for a packet which it got. Any of them may take
-- the next step.
pub mod OnePoll
pub mod Stopping
pub mod Invariant
use go_socket_io.Base.{
  ℕ, suc, ◌+◌, ◌≡◌, ◌≢◌, Bool, true, false, Option, none, some, List, [], ◌∷◌, ◌++◌, Bytes, Result,
  ok, err, if◌then◌else◌,
}
use go_socket_io.Url.{Url}
use go_socket_io.EngineClient.{HandshakeResponse, Gate, shut, opened}
use go_socket_io.Polling.{
  Transport, Reply, Error, transport_stopped, canceled, context_error, fetch, run, set_handshake,
  stop_flag, stop_broadcast, stop_signal,
}

-- Where the polling loop stands: at the gate, at the head of the loop, in a request, handing a body
-- on, in the pause behind an error, or at its end.
pub data Loop : Type 0 where
  at_gate at_head requesting pausing finished : Loop
  handing_on : Bytes → Loop

-- The call of `RequestHandshake`: not made yet, in its request, handing the body on, or returned
-- with an error or none.
pub data Asker : Type 0 where
  not_called in_request : Asker
  delivering : Bytes → Asker
  returned : Option Error → Asker

-- The call of `Stop` that found the transport running, between its three parts, and at its end.
pub data Stopper : Type 0 where
  no_stop flagged broadcasted stop_returned : Stopper

-- `ctx_err` is what `Err` of the run's context returns; `delivered` are the bodies put into the
-- channel of messages and `closes` what was put into `onClose`, in their order; `requests` counts
-- the requests of the loop.
pub record System : Type 0 where
  pub transport : Transport
  pub loop : Loop
  pub asker : Asker
  pub stopper : Stopper
  pub ctx_err : Option Bytes
  pub delivered : List Bytes
  pub closes : List (Option Bytes)
  pub requests : ℕ

-- What `Run` starts.
unfoldable pub started : Transport → Url → Bytes → Option Bytes → System
unfolding run
started t url sid ctx_err = record {
  transport = run t url sid true true;
  loop = at_gate;
  asker = not_called;
  stopper = no_stop;
  ctx_err = ctx_err;
  delivered = [];
  closes = [];
  requests = 0;
}

-- `finishPolling`
unfoldable pub finish_polling : System → System
finish_polling s = record s {
  transport = record s.transport { stopped = true };
  loop = finished;
  closes = if s.transport.has_on_close then s.closes ++ s.ctx_err ∷ [] else s.closes;
}

-- The loop takes the value of `stopPooling` and ends.
abbrev pub take_stop : System → System
take_stop s = finish_polling (record s { transport = record s.transport { stop_pooling = false } })

abbrev or_pause : System → Option Bytes → System
or_pause s none = record s { loop = pausing }
or_pause s (some e) = finish_polling s

abbrev on_error : System → Error → System
on_error s transport_stopped = finish_polling s
on_error s e = if s.transport.stopped then finish_polling s else or_pause s s.ctx_err

-- The loop behind a call of `poll`.
unfoldable pub after_poll : System → Option Error → System
unfolding finish_polling
after_poll s none = record s { loop = at_head }
after_poll s (some e) = on_error s e

-- The loop behind the request in `poll`.
unfoldable pub after_request : System → Result Error Bytes → System
unfolding after_poll
after_request s (ok body) = record s { loop = handing_on body }
after_request s (err e) = after_poll s (some e)

abbrev pub deliver : System → Bytes → System
deliver s body = record s { delivered = s.delivered ++ body ∷ [] }

-- `RequestHandshake` behind the request in `poll`.
abbrev pub asked : Result Error Bytes → Asker
asked (ok body) = delivering body
asked (err e) = returned (some e)

-- The error of a call that was stopped while it handed its body on.
abbrev pub stopped_error : Option Bytes → Error
stopped_error none = canceled
stopped_error (some e) = context_error e

pub data Step (s : System) : System → Type 0 where
  -- The gate is nil or closed.
  gate_passed :
      s.loop ≡ at_gate → s.transport.handshake_done ≢ shut → Step s (record s { loop = at_head })
  gate_stopped : s.loop ≡ at_gate → s.transport.stop_pooling ≡ true → Step s (take_stop s)
  gate_cancelled : (e : Bytes) → s.loop ≡ at_gate → s.ctx_err ≡ some e → Step s (finish_polling s)
  head_stopped : s.loop ≡ at_head → s.transport.stop_pooling ≡ true → Step s (take_stop s)
  head_cancelled : (e : Bytes) → s.loop ≡ at_head → s.ctx_err ≡ some e → Step s (finish_polling s)
  -- The `default` of the `select`: neither of the other two is ready.
  request_sent :
      s.loop ≡ at_head
      → s.transport.stop_pooling ≡ false
      → s.ctx_err ≡ none
      → Step s (record s { loop = requesting; requests = s.requests + 1 })
  request_answered :
      (r : Reply) → s.loop ≡ requesting → Step s (after_request s (fetch s.transport r))
  handed_on : (body : Bytes) → s.loop ≡ handing_on body → Step s (after_poll (deliver s body) none)
  handing_cancelled :
      (body e : Bytes)
      → s.loop ≡ handing_on body
      → s.ctx_err ≡ some e
      → Step s (after_poll s (some (context_error e)))
  handing_stopped :
      (body : Bytes)
      → s.loop ≡ handing_on body
      → s.transport.stop_ch ≡ opened
      → Step s (after_poll s (some transport_stopped))
  pause_over : s.loop ≡ pausing → Step s (record s { loop = at_head })
  pause_stopped : s.loop ≡ pausing → s.transport.stop_pooling ≡ true → Step s (take_stop s)
  pause_cancelled : (e : Bytes) → s.loop ≡ pausing → s.ctx_err ≡ some e → Step s (finish_polling s)
  -- `RequestHandshake`
  ask : s.asker ≡ not_called → Step s (record s { asker = in_request })
  ask_answered :
      (r : Reply) → s.asker ≡ in_request → Step s (record s { asker = asked (fetch s.transport r) })
  ask_handed_on :
      (body : Bytes)
      → s.asker ≡ delivering body
      → Step s (record (deliver s body) { asker = returned none })
  ask_cancelled :
      (body e : Bytes)
      → s.asker ≡ delivering body
      → s.ctx_err ≡ some e
      → Step s (record s { asker = returned (some (context_error e)) })
  ask_stopped :
      (body : Bytes)
      → s.asker ≡ delivering body
      → s.transport.stop_ch ≡ opened
      → Step s (record s { asker = returned (some (stopped_error s.ctx_err)) })
  -- `SetHandshake`, which the client calls for a packet.
  handshake_set :
      (r : HandshakeResponse) (t : Transport)
      → s.delivered ≢ []
      → set_handshake s.transport r ≡ some t
      → Step s (record s { transport = t })
  -- `Stop`: the compare-and-swap, the broadcast, the value for the loop.
  stop_begins :
      s.transport.stopped ≡ false
      → Step s (record s { transport = stop_flag s.transport; stopper = flagged })
  stop_broadcasts :
      (t : Transport)
      → s.stopper ≡ flagged
      → stop_broadcast s.transport ≡ some t
      → Step s (record s { transport = t; stopper = broadcasted })
  stop_signals :
      s.stopper ≡ broadcasted
      → Step s (record s { transport = stop_signal s.transport; stopper = stop_returned })
  -- The context of the run ends.
  context_ends : (e : Bytes) → s.ctx_err ≡ none → Step s (record s { ctx_err = some e })

-- Any number of steps.
pub data Reach (s : System) : System → Type 0 where
  here : Reach s s
  next : {s' s'' : System} → Reach s s' → Step s' s'' → Reach s s''
