-- ===== src/Polling/Loop/Invariant.antt =====
-- engine.io/v4/client/transport/polling/transport.go: how a run ends, and the parts of `Stop`.
use go_socket_io.Base.{length, ◌≡◌, Bool, true, false, Option, List, [], Bytes, arith}
use go_socket_io.Url.{Url}
use go_socket_io.EngineClient.{opened}
use go_socket_io.Polling.{Transport, set_handshake, stop_flag, stop_broadcast, stop_signal}
use go_socket_io.Polling.Loop.{
  Loop, finished, Stopper, no_stop, broadcasted, stop_returned, System, started, finish_polling,
  after_poll, after_request, Step, gate_passed, gate_stopped, gate_cancelled, head_stopped,
  head_cancelled, request_sent, request_answered, handed_on, handing_cancelled, handing_stopped,
  pause_over, pause_stopped, pause_cancelled, ask, ask_answered, ask_handed_on, ask_cancelled,
  ask_stopped, handshake_set, stop_begins, stop_broadcasts, stop_signals, context_ends, Reach, here,
  next,
}

-- A loop that goes on has told nobody; one that has ended has told the client once.
abbrev pub ToldOnce : Loop → List (Option Bytes) → Type 0
ToldOnce finished closes = length closes ≡ 1
ToldOnce loop closes = closes ≡ []

abbrev pub is_finished : Loop → Bool
is_finished finished = true
is_finished loop = false

abbrev has_begun : Stopper → Bool
has_begun no_stop = false
has_begun stopper = true

abbrev has_broadcast : Stopper → Bool
has_broadcast broadcasted = true
has_broadcast stop_returned = true
has_broadcast stopper = false

-- What holds at every moment of a run.
pub record IsRun (s : System) : Type 0 where
  pub told : ToldOnce s.loop s.closes
  pub listens : s.transport.has_on_close ≡ true
  pub ended : is_finished s.loop ≡ true → s.transport.stopped ≡ true
  pub flag : has_begun s.stopper ≡ true → s.transport.stopped ≡ true
  pub once : s.transport.stop_once ≡ true → s.transport.stop_ch ≡ opened
  pub broadcast : has_broadcast s.stopper ≡ true → s.transport.stop_ch ≡ opened
  pub signal :
      s.stopper ≡ stop_returned → is_finished s.loop ≡ false → s.transport.stop_pooling ≡ true

pub Step-IsRun : {s s' : System} → Step s s' → IsRun s → IsRun s'
unfolding finish_polling after_request after_poll set_handshake stop_flag stop_broadcast stop_signal
Step-IsRun (gate_passed l g) o = ground arith
Step-IsRun (gate_stopped l g) o = ground arith
Step-IsRun (gate_cancelled e l g) o = ground arith
Step-IsRun (head_stopped l g) o = ground arith
Step-IsRun (head_cancelled e l g) o = ground arith
Step-IsRun (request_sent l g n) o = ground arith
Step-IsRun (request_answered r l) o = ground arith
Step-IsRun (handed_on b l) o = ground arith
Step-IsRun (handing_cancelled b e l c) o = ground arith
Step-IsRun (handing_stopped b l c) o = ground arith
Step-IsRun (pause_over l) o = ground arith
Step-IsRun (pause_stopped l g) o = ground arith
Step-IsRun (pause_cancelled e l g) o = ground arith
Step-IsRun (ask a) o = ground arith
Step-IsRun (ask_answered r a) o = ground arith
Step-IsRun (ask_handed_on b a) o = ground arith
Step-IsRun (ask_cancelled b e a c) o = ground arith
Step-IsRun (ask_stopped b a c) o = ground arith
Step-IsRun (handshake_set r t d q) o = ground arith
Step-IsRun (stop_begins f) o = ground arith
Step-IsRun (stop_broadcasts t f q) o = ground arith
Step-IsRun (stop_signals f) o = ground arith
Step-IsRun (context_ends e c) o = ground arith

pub started-IsRun :
    (t : Transport) (url : Url) (sid : Bytes) (e : Option Bytes) → IsRun (started t url sid e)
unfolding started
started-IsRun t url sid e = ground arith

pub Reach-IsRun : {s s' : System} → IsRun s → Reach s s' → IsRun s'
Reach-IsRun o here = o
Reach-IsRun o (next r st) = Step-IsRun st (Reach-IsRun o r)

-- Whatever the order of the steps of a run, exactly one value has been put into `onClose` when the
-- loop has ended, and none before.
pub run_closes_once :
    (t : Transport) (url : Url) (sid : Bytes) (e : Option Bytes) {s : System}
    → Reach (started t url sid e) s
    → ToldOnce s.loop s.closes
run_closes_once t url sid e r = (Reach-IsRun (started-IsRun t url sid e) r).told
