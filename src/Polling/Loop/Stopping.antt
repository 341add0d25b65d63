-- ===== src/Polling/Loop/Stopping.antt =====
-- engine.io/v4/client/transport/polling/transport.go: what is left of a run when `Stop` has returned.
use go_socket_io.Base.{
  ◌+◌, Bool, true, inl, inr, Bool-cases, ℕ, ◌≤◌, ◌⊎◌, ◌≡◌, refl, false, Option, [], Bytes, arith,
  ◌∙◌,
}
use go_socket_io.Url.{Url}
use go_socket_io.Polling.{Transport, failed, fetch}
use go_socket_io.Polling.Loop.Invariant.{IsRun, Step-IsRun, Reach-IsRun, started-IsRun, is_finished}
use go_socket_io.Polling.Loop.{
  Loop, at_gate, at_head, requesting, pausing, finished, handing_on, stop_returned, System, started,
  finish_polling, after_poll, after_request, Step, gate_passed, gate_stopped, gate_cancelled,
  head_stopped, head_cancelled, request_sent, request_answered, handed_on, handing_cancelled,
  handing_stopped, pause_over, pause_stopped, pause_cancelled, ask, ask_answered, ask_handed_on,
  ask_cancelled, ask_stopped, handshake_set, stop_begins, stop_broadcasts, stop_signals,
  context_ends, Reach, here, next,
}

-- How many steps the loop can take at most, once it is stopped.
abbrev pub rank : Loop → ℕ
rank finished = 0
rank at_head = 1
rank at_gate = 2
rank pausing = 2
rank (handing_on body) = 2
rank requesting = 3

rank-le : (l : Loop) → rank l ≤ 3
rank-le l = ground arith

-- Whether a step is one of the polling loop, or one of `RequestHandshake`, the client, `Stop` or the
-- context.
abbrev pub is_loop_step : {s s' : System} → Step s s' → Bool
is_loop_step (gate_passed l g) = true
is_loop_step (gate_stopped l g) = true
is_loop_step (gate_cancelled e l g) = true
is_loop_step (head_stopped l g) = true
is_loop_step (head_cancelled e l g) = true
is_loop_step (request_sent l g n) = true
is_loop_step (request_answered r l) = true
is_loop_step (handed_on b l) = true
is_loop_step (handing_cancelled b e l c) = true
is_loop_step (handing_stopped b l c) = true
is_loop_step (pause_over l) = true
is_loop_step (pause_stopped l g) = true
is_loop_step (pause_cancelled e l g) = true
is_loop_step (ask a) = false
is_loop_step (ask_answered r a) = false
is_loop_step (ask_handed_on b a) = false
is_loop_step (ask_cancelled b e a c) = false
is_loop_step (ask_stopped b a c) = false
is_loop_step (handshake_set r t d q) = false
is_loop_step (stop_begins f) = false
is_loop_step (stop_broadcasts t f q) = false
is_loop_step (stop_signals f) = false
is_loop_step (context_ends e c) = false

abbrev cost : Bool → ℕ
cost true = 1
cost false = 0

-- How many steps of a run are the loop's.
abbrev pub loop_steps : {s s' : System} → Reach s s' → ℕ
loop_steps here = 0
loop_steps (next r st) = loop_steps r + cost (is_loop_step st)

-- A step of the loop brings its end nearer, any other leaves it where it was, and none sends a
-- request.
abbrev Nearer : System → System → Bool → Type 0
Nearer s s' of_loop =
    (s'.stopper ≡ stop_returned)
    × (s'.requests ≡ s.requests)
    × (rank s'.loop + cost of_loop ≤ rank s.loop)

Step-Nearer :
    {s s' : System} (st : Step s s')
    → IsRun s
    → s.stopper ≡ stop_returned
    → Nearer s s' (is_loop_step st)
unfolding finish_polling after_request after_poll
Step-Nearer (gate_passed l g) o h = ground arith
Step-Nearer (gate_stopped l g) o h = ground arith
Step-Nearer (gate_cancelled e l g) o h = ground arith
Step-Nearer (head_stopped l g) o h = ground arith
Step-Nearer (head_cancelled e l g) o h = ground arith
Step-Nearer (request_sent l g n) o h = ground arith
Step-Nearer (request_answered r l) o h = ground arith
Step-Nearer (handed_on b l) o h = ground arith
Step-Nearer (handing_cancelled b e l c) o h = ground arith
Step-Nearer (handing_stopped b l c) o h = ground arith
Step-Nearer (pause_over l) o h = ground arith
Step-Nearer (pause_stopped l g) o h = ground arith
Step-Nearer (pause_cancelled e l g) o h = ground arith
Step-Nearer (ask a) o h = ground arith
Step-Nearer (ask_answered r a) o h = ground arith
Step-Nearer (ask_handed_on b a) o h = ground arith
Step-Nearer (ask_cancelled b e a c) o h = ground arith
Step-Nearer (ask_stopped b a c) o h = ground arith
Step-Nearer (handshake_set r t d q) o h = ground arith
Step-Nearer (stop_begins f) o h = ground arith
Step-Nearer (stop_broadcasts t f q) o h = ground arith
Step-Nearer (stop_signals f) o h = ground arith
Step-Nearer (context_ends e c) o h = ground arith

Reach-Nearer :
    {s s' : System}
    → IsRun s
    → s.stopper ≡ stop_returned
    → (r : Reach s s')
    → IsRun s'
      × (s'.stopper ≡ stop_returned)
      × (s'.requests ≡ s.requests)
      × (loop_steps r + rank s'.loop ≤ rank s.loop)
Reach-Nearer o h here = (o, h, refl, omega arith)
Reach-Nearer o h (next r st) =
    let (o', h', same, far) = Reach-Nearer o h r in
    let near = Step-Nearer st o' h' in
    (Step-IsRun st o', near.0, near.1 ∙ same, omega (arith, far, near.2))

-- A step of the loop that ends it.
abbrev pub Ending : System → Type 0
Ending s = (s' : System) × (st : Step s s') × (is_loop_step st ≡ true) × (s'.loop ≡ finished)

some_step_ends :
    (s : System) (l : Loop)
    → IsRun s
    → s.stopper ≡ stop_returned
    → s.loop ≡ l
    → is_finished l ≡ false
    → Ending s
unfolding finish_polling after_request after_poll fetch
some_step_ends s at_gate o h e g = (_, gate_stopped e (ground arith), refl, refl)
some_step_ends s at_head o h e g = (_, head_stopped e (ground arith), refl, refl)
some_step_ends s requesting o h e g = (_, request_answered (failed []) e, refl, ground arith)
some_step_ends s pausing o h e g = (_, pause_stopped e (ground arith), refl, refl)
some_step_ends s finished o h e g = absurd (ground arith)
some_step_ends s (handing_on b) o h e g = (_, handing_stopped b e (ground arith), refl, refl)

finished_or_Ending :
    (s : System) → IsRun s → s.stopper ≡ stop_returned → (s.loop ≡ finished) ⊎ Ending s
finished_or_Ending s o h = elim (Bool-cases (is_finished s.loop)) [
  | inl over ↦ inl (ground (arith, over))
  | inr goes ↦ inr (some_step_ends s s.loop o h refl goes)
]

module _ (t : Transport) (url : Url) (sid : Bytes) (e : Option Bytes) {s : System} where
  -- Once `Stop` has returned, the loop sends no more request in this run, whatever steps follow.
  pub stop_sends_nothing :
      {s' : System}
      → Reach (started t url sid e) s
      → s.stopper ≡ stop_returned
      → Reach s s'
      → s'.requests ≡ s.requests
  stop_sends_nothing r h r' = (Reach-Nearer (Reach-IsRun (started-IsRun t url sid e) r) h r').2

  -- Once `Stop` has returned, the loop ends within three steps of its own, whatever steps the
  -- others take: in each later state it has ended, or some step of its own ends it at once (if it is
  -- in a request, the one that the request fails, as a cancelled one does), and of all the steps
  -- until then at most three are the loop's, each of which lowers what is left.
  pub stop_ends :
      {s' : System}
      → Reach (started t url sid e) s
      → s.stopper ≡ stop_returned
      → (r : Reach s s')
      → ((s'.loop ≡ finished) ⊎ Ending s')
        × (loop_steps r + rank s'.loop ≤ rank s.loop)
        × (rank s.loop ≤ 3)
  stop_ends {s' = s'} begun h r =
      let o = Reach-IsRun (started-IsRun t url sid e) begun in
      let (o', h', same, far) = Reach-Nearer o h r in
      (finished_or_Ending s' o' h', far, rank-le s.loop)
