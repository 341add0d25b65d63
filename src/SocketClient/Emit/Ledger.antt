-- ===== src/SocketClient/Emit/Ledger.antt =====
-- socket.io/v5/client: the ledger of acknowledgements, which forgets what is called and when, and
-- the view of a client as a ledger.
pub mod Messages
pub mod Refinement
use mathlib.Core.Path.{subst}
use go_socket_io.Base.{
  ℕ, ◌+◌, ◌≤◌, ◌≡◌, ◌∙◌, refl, ap, Bool, true, false, ◌||◌, Option, none, some, List, [], Bytes,
  Result, ok, err, arith, ◌==◌, if◌then◌else◌, inl, inr, Bool-cases, Result-cases,
}
use go_socket_io.Base.Int.{ℤ, pos, negsuc}
use go_socket_io.SocketParser.Packet.{Message, Event, packet_ack, packet_connect}
use go_socket_io.SocketParser.Serialize.{Arg, Packet}
use go_socket_io.SocketClient.{
  Parser, Namespace, Client, Effect, Outcome, done, panic, on, namespace, Waiter,
}
use go_socket_io.SocketClient.Messages.{
  on_message, handle_message, handle_ack, on_ack, dispatch, in_namespace,
}
use go_socket_io.SocketClient.Emit.{
  EventArgument, Argument, Sent, Emits, passes, cancelled, emit_connected, EmitOptions, prepare,
  send_packet_with_ack_timeout, send_packet, wrap, register, with_wrapped, send_event, wants_ack,
  event_message, emit_prepared, EmitError, is_some,
}
use go_socket_io.SocketClient.Emit.Run.{
  Step, message, emit, register_handler, timer_fires, context_done, answer_received, Reach, here,
  next, fired, on_timer, on_context_done, on_received,
}

-- The last id given out, and the ids that wait for an answer.
pub record Ledger : Type 0 where
  pub last : ℕ
  pub waits : ℕ → Bool

-- What the ledger allows: nothing, the next id asks for an answer, or an id is settled.
pub data Move (a b : Ledger) : Type 0 where
  idle : b.last ≡ a.last → ((j : ℕ) → b.waits j ≡ a.waits j) → Move a b
  asks :
      b.last ≡ a.last + 1
      → ((j : ℕ) → b.waits j ≡ (if b.last == j then true else a.waits j))
      → Move a b
  settles :
      (n : ℕ)
      → b.last ≡ a.last
      → ((j : ℕ) → b.waits j ≡ (if n == j then false else a.waits j))
      → Move a b

pub data Moves (a : Ledger) : Ledger → Type 0 where
  stay : Moves a a
  after : {b d : Ledger} → Moves a b → Move b d → Moves a d

abbrev pub view : {H A T D : Type 0} → Client H A T D → Ledger
view c = record { last = c.ack_counter; waits = λ n. is_some (c.ack_callbacks n) }

-- The acknowledgements are left alone.
abbrev pub Same : {H A T D : Type 0} → Client H A T D → Client H A T D → Type 0
Same c c' = (c'.ack_counter ≡ c.ack_counter) × (c'.ack_callbacks ≡ c.ack_callbacks)

pub Same-Move : {H A T D : Type 0} (c c' : Client H A T D) → Same c c' → Move (view c) (view c')
Same-Move c c' s = idle s.0 (λ j. rw s.1 refl)

abbrev pub OutSame :
    {H A T D : Type 0} → Client H A T D → Outcome (Client H A T D) (Effect H A T) → Type 0
OutSame c (done c' es) = Same c c'
OutSame c panic = Unit

abbrev pub OutMove :
    {H A T D : Type 0} → Client H A T D → Outcome (Client H A T D) (Effect H A T) → Type 0
OutMove c (done c' es) = Move (view c) (view c')
OutMove c panic = Unit

pub OutSame-Move :
    {H A T D : Type 0} (c : Client H A T D) (r : Outcome (Client H A T D) (Effect H A T))
    → OutSame c r
    → OutMove c r
OutSame-Move c (done c' es) s = Same-Move c c' s
OutSame-Move c panic s = s
