-- ===== src/SocketClient/Emit.antt =====
-- socket.io/v5/client/emitters.go: what the client sends. The arguments are in Emit/Options.
-- `Emit` blocks until its namespace is connected or the context is done.
pub mod Acks
pub mod Ledger
pub mod Answers
pub mod Run
mod Options
unfoldable pub use Options.*
use go_socket_io.Base.{
  ℕ, suc, ◌+◌, ◌≡◌, Bool, true, false, ◌||◌, Option, none, some, List, [], ◌∷◌, ◌++◌, Bytes, Result,
  ok, err, ◌>>=◌, ◌==◌, if◌then◌else◌,
}
use go_socket_io.Base.Int.{ℤ, pos}
use go_socket_io.SocketParser.Packet.{Message, Event, Error, packet_event, packet_connect}
use go_socket_io.SocketParser.Parse.{empty_message_of}
use go_socket_io.SocketParser.Serialize.{Arg, Packet}
use go_socket_io.SocketClient.{
  Parser, Namespace, AckCallback, direct, channel, Waiter, Client, Effect, send, run, run_timeout,
  start_timer, put_ℕ,
}

-- How a call ends: with an error of its own, or with what `Send` of the engine returns for the
-- bytes.
pub data Sent : Type 0 where
  failed : EmitError → Sent
  handed_over : Bytes → Sent

abbrev pub event_message : Bytes → Option (Event Arg) → Packet
event_message ns e = record (empty_message_of packet_event) { ns = ns; event = e }

module _ {C H : Type 0} where
  -- The wrapped callback, if there is a callback; a nil function is refused.
  unfoldable pub wrap : Parser C H → Option C → Result EmitError (Option H)
  wrap p none = ok none
  wrap p (some callback) = elim (p.wrap_callback callback) [
    | none ↦ err not_a_function
    | some h ↦ ok (some h)
  ]

module _ {H A T : Type 0} where
  abbrev timer : ℕ → Option ℕ → List (Effect H A T)
  timer counter none = []
  timer counter (some d) = start_timer counter d ∷ []

module _ {C H A T D : Type 0} (p : Parser C H) where
  abbrev hand_over :
      Client H A T D
      → List (Effect H A T)
      → Result Error Bytes
      → Client H A T D × List (Effect H A T) × Sent
  hand_over c es (err e) = (c, es, failed (not_serialized e))
  hand_over c es (ok bs) = (c, es ++ send bs ∷ [], handed_over bs)

  -- `sendPacket`, behind other effects of the call.
  unfoldable pub send_packet :
      Client H A T D → List (Effect H A T) → Packet → Client H A T D × List (Effect H A T) × Sent
  send_packet c es packet = hand_over c es (p.serialize (some packet))

  abbrev register : Client H A T D → Option H → Option ℕ → Option T → Client H A T D
  register c none none f = record c { ack_counter = c.ack_counter + 1 }
  register c (some h) none f = record c {
    ack_counter = c.ack_counter + 1;
    ack_callbacks = put_ℕ c.ack_callbacks (c.ack_counter + 1) (some (direct h));
  }
  register c h (some d) f = record c {
    ack_counter = c.ack_counter + 1;
    ack_callbacks = put_ℕ c.ack_callbacks (c.ack_counter + 1) (some channel);
    waiters =
        put_ℕ c.waiters (c.ack_counter + 1)
          (some (record { callback = h; timeout_callback = f; received = none }));
  }

  abbrev with_wrapped :
      Client H A T D
      → Packet
      → Option ℕ
      → Option T
      → Result EmitError (Option H)
      → Client H A T D × List (Effect H A T) × Sent
  with_wrapped c packet timeout f (err e) = (c, [], failed e)
  with_wrapped c packet timeout f (ok h) =
      send_packet (register c h timeout f) (timer (c.ack_counter + 1) timeout)
        (record packet { ack_id = some (pos (c.ack_counter + 1)) })

  -- `sendPacketWithAckTimeout`
  unfoldable pub send_packet_with_ack_timeout :
      Client H A T D
      → Packet
      → Option C
      → Option ℕ
      → Option T
      → Client H A T D × List (Effect H A T) × Sent
  unfolding send_packet wrap
  send_packet_with_ack_timeout c packet callback timeout f =
      with_wrapped c packet timeout f (wrap p callback)

  abbrev send_event :
      Client H A T D
      → Bytes
      → EmitOptions C T
      → Option (Event Arg)
      → Client H A T D × List (Effect H A T) × Sent
  send_event c ns o e =
      if wants_ack o
      then send_packet_with_ack_timeout c (event_message ns e) o.ack_callback o.timeout
          o.timeout_callback
      else send_packet c [] (event_message ns e)

  abbrev emit_prepared :
      Client H A T D
      → Bytes
      → Result EmitError (EmitOptions C T × Option (Event Arg))
      → Client H A T D × List (Effect H A T) × Sent
  emit_prepared c ns (err e) = (c, [], failed e)
  emit_prepared c ns (ok (o, e)) = send_event c ns o e

  -- `namespace.Emit`, behind the wait for the connection.
  unfoldable pub emit_connected :
      Client H A T D
      → Bytes
      → EventArgument
      → List (Argument C T)
      → Client H A T D × List (Effect H A T) × Sent
  unfolding send_packet_with_ack_timeout prepare send_packet
  emit_connected c ns e args = emit_prepared c ns (prepare e args)

  -- `connectSocketIO`: the connect packet of the default namespace, with the handshake data as its
  -- payload; an error is only logged.
  unfoldable pub connect_socket_io :
      (D → Arg) → Client H A T D → Client H A T D × List (Effect H A T) × Sent
  unfolding send_packet
  connect_socket_io to_arg c = send_packet c [] (record (empty_message_of packet_connect) {
    ns = c.default_ns;
    payload = some (to_arg c.handshake_data);
  })

-- `Emit` as a whole: the gate is open, or the context is done; if both, either may be chosen. With
-- neither it blocks.
pub data Emits {C H A T D : Type 0} (p : Parser C H) (c : Client H A T D) (ctx_done : Bool)
    (n : Bytes) (e : EventArgument) (args : List (Argument C T))
    : Client H A T D × List (Effect H A T) × Sent → Type 0 where
  passes :
      {r : Client H A T D × List (Effect H A T) × Sent} (ns : Namespace H A)
      → c.namespaces n ≡ some ns
      → ns.connected ≡ true
      → r ≡ emit_connected p c n e args
      → Emits p c ctx_done n e args r
  cancelled :
      {r : Client H A T D × List (Effect H A T) × Sent}
      → ctx_done ≡ true
      → r ≡ (c, [], failed context_done)
      → Emits p c ctx_done n e args r
