-- ===== src/Polling/Tests.antt =====
-- Tests and witnesses of the polling transport.
use go_socket_io.Base.{
  ◌⊎◌, ◌+◌, ◌≤◌, ◌<◌, ◌≡◌, ◌≢◌, ◌↔◌, refl, true, false, none, [], codes, ok, arith, equal,
}
use go_socket_io.Base.Int.{pos}
use go_socket_io.Url.{Url}
use go_socket_io.EngineClient.{absent, shut, HandshakeResponse}
use go_socket_io.Polling.{
  Transport, Response, answered, fetch, run, set_handshake, ping_period, stop_flag, stop_broadcast,
  stop_signal, read_body, read_limit, read_at_most,
}
use go_socket_io.Polling.Payload.{Fits, fetch_iff}
use go_socket_io.Polling.Loop.{
  finished, take_stop, at_gate, requesting, System, started, in_request, stop_returned, Reach, here,
  next, ask, stop_begins, stop_broadcasts, stop_signals, gate_stopped, ask_answered, ask_handed_on,
  handshake_set, gate_passed, request_sent, after_request, after_poll,
}
use go_socket_io.Polling.Loop.OnePoll.{one_poll}
use go_socket_io.Polling.Loop.Invariant.{ToldOnce, run_closes_once}
use go_socket_io.Polling.Loop.Stopping.{rank, Ending, loop_steps, stop_sends_nothing, stop_ends}

abbrev address : Url
address = record {
  scheme = codes "http";
  host = codes "localhost";
  path = codes "/socket.io/";
  raw_query = codes "EIO=4";
}

abbrev small : Transport
small = record {
  url = none;
  sid = [];
  has_messages = true;
  has_on_close = true;
  handshake_done = absent;
  stop_ch = shut;
  stop_once = false;
  stop_pooling = false;
  cancelled = false;
  stopped = false;
  pinger = pos 10000000000;
  max_payload_size = pos 3;
}

abbrev response : Response
response = record { status = 200; content = codes "2ab"; broken = none }

fetch_iff_example :
    (fetch small (answered response) ≡ ok (codes "2ab"))
    ↔ ((200 ≤ 200) × (200 < 300) × Fits 3 response (codes "2ab"))
fetch_iff_example =
    fetch_iff small 3 response (codes "2ab") refl refl (omega arith) (omega arith) (omega arith)

abbrev begin : System
begin = started small address [] none

-- `RequestHandshake` delivers, the client calls `SetHandshake`, and the loop sends its request.
abbrev handshake : HandshakeResponse
handshake = record {
  sid = codes "abc";
  upgrades = [];
  ping_interval = pos 25000;
  ping_timeout = pos 20000;
}

-- The state of a run, with the loop in its first request.
record Polls (s : System) : Type 0 where
  reach : Reach begin s
  polls : s.loop ≡ requesting

polling_begins : (s : System) × Polls s
unfolding started run fetch read_body read_limit read_at_most set_handshake ping_period
    after_request after_poll equal
polling_begins = (
  _,
  record {
    reach =
        next
          (next
            (next
              (next (next (next here (ask refl)) (ask_answered (answered response) refl))
                (ask_handed_on (codes "2ab") refl))
              (handshake_set handshake _ (λ e. cc) refl))
            (gate_passed refl (λ e. cc)))
          (request_sent refl refl refl);
    polls = refl;
  },
)

one_poll_example : polling_begins.0.asker ≢ in_request
one_poll_example = one_poll small address none polling_begins.1.reach polling_begins.1.polls

run_closes_once_example : ToldOnce polling_begins.0.loop polling_begins.0.closes
run_closes_once_example = run_closes_once small address [] none polling_begins.1.reach

-- The state of a run that was stopped at the gate.
record Stopped (s : System) : Type 0 where
  stopped_reach : Reach begin s
  done : s.stopper ≡ stop_returned
  at_gate_still : s.loop ≡ at_gate
  signalled : s.transport.stop_pooling ≡ true

stopped_at_gate : (s : System) × Stopped s
unfolding started run stop_broadcast stop_flag stop_signal
stopped_at_gate = (
  _,
  record {
    stopped_reach =
        next (next (next here (stop_begins refl)) (stop_broadcasts _ refl refl))
          (stop_signals refl);
    done = refl;
    at_gate_still = refl;
    signalled = refl;
  },
)

-- The loop takes the stop.
abbrev taken : Reach stopped_at_gate.0 (take_stop stopped_at_gate.0)
taken = let s = stopped_at_gate.1 in next here (gate_stopped s.at_gate_still s.signalled)

stop_ends_example :
    let s' = take_stop stopped_at_gate.0 in
    ((s'.loop ≡ finished) ⊎ Ending s')
    × (loop_steps taken + rank s'.loop ≤ rank stopped_at_gate.0.loop)
    × (rank stopped_at_gate.0.loop ≤ 3)
stop_ends_example =
    let s = stopped_at_gate.1 in stop_ends small address [] none s.stopped_reach s.done taken

stop_sends_nothing_example : (take_stop stopped_at_gate.0).requests ≡ stopped_at_gate.0.requests
stop_sends_nothing_example =
    let s = stopped_at_gate.1 in
    stop_sends_nothing small address [] none s.stopped_reach s.done
      (next here (gate_stopped s.at_gate_still s.signalled))
