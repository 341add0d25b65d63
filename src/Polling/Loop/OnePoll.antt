-- ===== src/Polling/Loop/OnePoll.antt =====
-- engine.io/v4/client/transport/polling/transport.go: what `handshakeDone` is for.
use go_socket_io.Base.{equal, ◌≡◌, ◌≢◌, refl, Bool, true, false, Option, [], Bytes, arith}
use go_socket_io.Url.{Url}
use go_socket_io.EngineClient.{shut}
use go_socket_io.Polling.{Transport, set_handshake, stop_flag, stop_broadcast, stop_signal}
use go_socket_io.Polling.Loop.{
  Loop, at_gate, requesting, finished, Asker, in_request, returned, System, started, finish_polling,
  after_poll, after_request, Step, gate_passed, gate_stopped, gate_cancelled, head_stopped,
  head_cancelled, request_sent, request_answered, handed_on, handing_cancelled, handing_stopped,
  pause_over, pause_stopped, pause_cancelled, ask, ask_answered, ask_handed_on, ask_cancelled,
  ask_stopped, handshake_set, stop_begins, stop_broadcasts, stop_signals, context_ends, Reach, here,
  next,
}

abbrev has_returned : Asker → Bool
has_returned (returned e) = true
has_returned asker = false

abbrev waits : Loop → Bool
waits at_gate = true
waits finished = true
waits loop = false

-- Until `RequestHandshake` has returned, nothing was delivered and the gate is shut; while it is,
-- the loop waits or has ended.
record IsOrdered (s : System) : Type 0 where
  early : has_returned s.asker ≡ false → (s.transport.handshake_done ≡ shut) × (s.delivered ≡ [])
  quiet : s.transport.handshake_done ≡ shut → waits s.loop ≡ true

Step-IsOrdered : {s s' : System} → Step s s' → IsOrdered s → IsOrdered s'
unfolding finish_polling after_request after_poll set_handshake stop_flag stop_broadcast stop_signal
Step-IsOrdered (gate_passed l g) o = ground arith
Step-IsOrdered (gate_stopped l g) o = ground arith
Step-IsOrdered (gate_cancelled e l g) o = ground arith
Step-IsOrdered (head_stopped l g) o = ground arith
Step-IsOrdered (head_cancelled e l g) o = ground arith
Step-IsOrdered (request_sent l g n) o = ground arith
Step-IsOrdered (request_answered r l) o = ground arith
Step-IsOrdered (handed_on b l) o = ground arith
Step-IsOrdered (handing_cancelled b e l c) o = ground arith
Step-IsOrdered (handing_stopped b l c) o = ground arith
Step-IsOrdered (pause_over l) o = ground arith
Step-IsOrdered (pause_stopped l g) o = ground arith
Step-IsOrdered (pause_cancelled e l g) o = ground arith
Step-IsOrdered (ask a) o = ground arith
Step-IsOrdered (ask_answered r a) o = ground arith
Step-IsOrdered (ask_handed_on b a) o = ground arith
Step-IsOrdered (ask_cancelled b e a c) o = ground arith
Step-IsOrdered (ask_stopped b a c) o = ground arith
Step-IsOrdered (handshake_set r t d q) o = ground arith
Step-IsOrdered (stop_begins f) o = ground arith
Step-IsOrdered (stop_broadcasts t f q) o = ground arith
Step-IsOrdered (stop_signals f) o = ground arith
Step-IsOrdered (context_ends e c) o = ground arith

started-IsOrdered : (t : Transport) (url : Url) (e : Option Bytes) → IsOrdered (started t url [] e)
unfolding started equal
started-IsOrdered t url e = record { early = λ h. (refl, refl); quiet = λ h. refl }

Reach-IsOrdered : {s s' : System} → IsOrdered s → Reach s s' → IsOrdered s'
Reach-IsOrdered o here = o
Reach-IsOrdered o (next r st) = Step-IsOrdered st (Reach-IsOrdered o r)

-- Two polls are never in flight together: in a run that begins with no session id, whatever the
-- order of the steps, the loop has no request under way while the one of `RequestHandshake` is. The
-- client calls `SetHandshake` only when it got a body.
pub one_poll :
    (t : Transport) (url : Url) (e : Option Bytes) {s : System}
    → Reach (started t url [] e) s
    → s.loop ≡ requesting
    → s.asker ≢ in_request
one_poll t url e {s} r l a =
    let o = Reach-IsOrdered (started-IsOrdered t url e) r in
    let shut_gate = o.early (rw a refl) in ground (arith, o.quiet shut_gate.0)
