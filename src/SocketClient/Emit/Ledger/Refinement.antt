-- ===== src/SocketClient/Emit/Ledger/Refinement.antt =====
-- socket.io/v5/client/emitters.go: what emissions do to the ledger of acknowledgements, and the life
-- of a client as moves of it.
use mathlib.Core.Path.{subst}
use go_socket_io.Base.{
  ◌+◌, ◌≤◌, false, ℕ, ◌≡◌, refl, Bool, true, ◌||◌, Option, none, some, List, [], Bytes, Result, ok,
  err, arith, inl, inr, Bool-cases,
}
use go_socket_io.SocketParser.Packet.{Event}
use go_socket_io.SocketParser.Serialize.{Arg, Packet}
use go_socket_io.SocketClient.{Parser, Client, Effect}
use go_socket_io.SocketClient.Emit.{
  EventArgument, Argument, Sent, Emits, passes, cancelled, emit_connected, EmitOptions, prepare,
  send_packet_with_ack_timeout, send_packet, wrap, register, with_wrapped, send_event, wants_ack,
  event_message, emit_prepared, EmitError, is_some,
}
use go_socket_io.SocketClient.Emit.Run.{
  Step, message, emit, register_handler, timer_fires, context_done, answer_received, Reach, here,
  next, on_timer,
}
use go_socket_io.SocketClient.Emit.Ledger.{
  Ledger, settles, Move, idle, asks, Moves, stay, after, view, Same-Move, OutSame, OutMove,
}
use go_socket_io.SocketClient.Emit.Ledger.Messages.{
  on-Same, on_message-Move, fired-Move, on_context_done-Same, on_received-Same,
}

-- An emission that wants an answer takes the next id.
module _ {C H A T D : Type 0} (p : Parser C H) (c : Client H A T D) where
  register-Move :
      (h : Option H) (timeout : Option ℕ) (f : Option T)
      → (is_some h || is_some timeout) ≡ true
      → Move (view c) (view (register p c h timeout f))
  register-Move none none f wanted = ground arith
  register-Move (some h) none f wanted = asks refl (λ j. ground arith)
  register-Move h (some d) f wanted = asks refl (λ j. ground arith)

  send_packet-same :
      (es : List (Effect H A T)) (packet : Packet) → (send_packet p c es packet).0 ≡ c
  unfolding send_packet
  send_packet-same es packet = ground arith

wrap-wanted :
    {C H : Type 0} (p : Parser C H) (callback : Option C) (h : Option H)
    → wrap p callback ≡ ok h
    → is_some h ≡ is_some callback
unfolding wrap
wrap-wanted p callback h q = ground arith

module _ {C H A T D : Type 0} (p : Parser C H) (c : Client H A T D) where
  with_wrapped-Move :
      (packet : Packet) (timeout : Option ℕ) (f : Option T) (r : Result EmitError (Option H))
      → ((h : Option H) → r ≡ ok h → (is_some h || is_some timeout) ≡ true)
      → Move (view c) (view (with_wrapped p c packet timeout f r).0)
  with_wrapped-Move packet timeout f (err e) wanted = idle refl (λ j. refl)
  with_wrapped-Move packet timeout f (ok h) wanted =
      rw (send_packet-same p (register p c h timeout f))
        (register-Move p c h timeout f (wanted h refl))

  send_event-Move :
      (ns : Bytes) (o : EmitOptions C T) (e : Option (Event Arg))
      → Move (view c) (view (send_event p c ns o e).0)
  unfolding send_packet_with_ack_timeout
  send_event-Move ns o e = elim (Bool-cases (wants_ack o)) [
    | inl wants ↦ rw wants (
        with_wrapped-Move (event_message ns e) o.timeout o.timeout_callback (wrap p o.ack_callback)
          (λ h q. rw (wrap-wanted p o.ack_callback h q) wants))
    | inr plain ↦
        rw plain (rw (send_packet-same p c [] (event_message ns e)) (idle refl (λ j. refl)))
  ]

  emit_prepared-Move :
      (ns : Bytes) (r : Result EmitError (EmitOptions C T × Option (Event Arg)))
      → Move (view c) (view (emit_prepared p c ns r).0)
  emit_prepared-Move ns (err e) = idle refl (λ j. refl)
  emit_prepared-Move ns (ok (o, e)) = send_event-Move ns o e

  Emits-Move :
      (d : Bool) (m : Bytes) (e : EventArgument) (args : List (Argument C T))
      {r : Client H A T D × List (Effect H A T) × Sent}
      → Emits p c d m e args r
      → Move (view c) (view r.0)
  unfolding emit_connected
  Emits-Move d m e args (passes ns known open' q) = rw q (emit_prepared-Move m (prepare e args))
  Emits-Move d m e args (cancelled over q) = rw q (idle refl (λ j. refl))

pub Step-Move :
    {C H A T D : Type 0} {p : Parser C H} {c c' : Client H A T D} {es : List (Effect H A T)}
    → Step p c c' es
    → Move (view c) (view c')
unfolding on_timer
Step-Move {p = p} {c = c} (message bs q) = subst (OutMove c) q (on_message-Move c p bs)
Step-Move {p = p} {c = c} (emit d m e args r q) = Emits-Move p c d m e args q
Step-Move {p = p} {c = c} {c' = c'} (register_handler event callback q) =
    Same-Move c c' (subst (OutSame c) q (on-Same c p event callback))
Step-Move {c = c} (timer_fires m q) = rw q at (fired-Move c m (c.waiters m))
Step-Move {c = c} {c' = c'} (context_done m q) = Same-Move c c' (rw q at (on_context_done-Same c m))
Step-Move {c = c} {c' = c'} (answer_received m q) = Same-Move c c' (rw q at (on_received-Same c m))

pub Reach-Moves :
    {C H A T D : Type 0} {p : Parser C H} {c c' : Client H A T D}
    → Reach p c c'
    → Moves (view c) (view c')
Reach-Moves here = stay
Reach-Moves (next r st) = after (Reach-Moves r) (Step-Move st)

-- Only ids that were given out wait.
abbrev pub IsBounded : Ledger → Type 0
IsBounded a = (j : ℕ) → a.waits j ≡ true → j ≤ a.last

Move-IsBounded : {a b : Ledger} → IsBounded a → Move a b → IsBounded b
Move-IsBounded o (idle l w) = λ j h. ground (arith, w j, o j)
Move-IsBounded o (asks l w) = λ j h. ground (arith, w j, o j)
Move-IsBounded o (settles n l w) = λ j h. ground (arith, w j, o j)

Moves-IsBounded : {a b : Ledger} → IsBounded a → Moves a b → IsBounded b
Moves-IsBounded o stay = o
Moves-IsBounded o (after ms m) = Move-IsBounded (Moves-IsBounded o ms) m

-- The client refines the ledger of acknowledgements: whatever messages, emissions, timers and
-- answers come, every step is a move of the ledger, so that a whole run is a run of it. If only ids
-- that were given out wait at the beginning, as in a new client, then at every later moment the id
-- that the next emission gets is free.
pub refines_ledger :
    {C H A T D : Type 0} {p : Parser C H} {c c' : Client H A T D}
    → IsBounded (view c)
    → Reach p c c'
    → Moves (view c) (view c') × ((view c').waits ((view c').last + 1) ≡ false)
refines_ledger {c' = c'} o r =
    let ms = Reach-Moves r in
    let kept = Moves-IsBounded o ms ((view c').last + 1) in (ms, ground (arith, kept))
