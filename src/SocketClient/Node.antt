-- ===== src/SocketClient/Node.antt =====
-- socket.io/v5/client/client.go and constructor.go: a Socket.IO client together with the Engine.IO
-- client that it works on. A handler that the Engine.IO client calls for a packet runs before the
-- call for the packet returns.
pub mod Constructor
pub mod Delivery
pub mod Opening
mod Tests
use go_socket_io.Base.{
  ℕ, Bool, true, Option, none, some, List, [], ◌∷◌, ◌++◌, Bytes, codes, length, ◌==◌, if◌then◌else◌,
}
use go_socket_io.SocketParser.Serialize.{Arg}
use go_socket_io.EngineClient as EngineClient
use go_socket_io.EngineClient.{HandshakeResponse, Transports, Call, handle}
use go_socket_io.EngineClient.Lifecycle as Lifecycle
use go_socket_io.EngineClient.Packets.{handle_packet}
use go_socket_io.SocketClient.{Parser, Client, Effect, Outcome, done, panic, on}
use go_socket_io.SocketClient.Messages as Messages
use go_socket_io.SocketClient.Emit.{
  EventArgument, Argument, Sent, failed, handed_over, emit_connected,
}
use go_socket_io.SocketClient.Emit as Emit

-- The methods of the client that `NewClient` registers with the Engine.IO client.
pub data Handler : Type 0 where
  connect_socket_io on_message : Handler

pub record Node (H A T D Tr : Type 0) : Type 0 where
  pub socket : Client H A T D
  pub engine : EngineClient.Client Tr Handler

-- How a call ends: the new state, the error that it returns, and the effects.
abbrev pub Ended : Type 0 → Type 0 → Type 0 → Type 0 → Type 0 → Type 0 → Type 0
Ended X H A T D Tr = Outcome (Node H A T D Tr × Option X) (Effect H A T)

-- The error of a call of `Emit`: its own, or that of `Send`.
pub data NodeError : Type 0 where
  emit_error : Emit.EmitError → NodeError
  engine_error : EngineClient.Error → NodeError

abbrev pub to_node_error : Option EngineClient.Error → Option NodeError
to_node_error none = none
to_node_error (some e) = some (engine_error e)

module _ {H A T D Tr : Type 0} where
  abbrev with_engine :
      Client H A T D
      → List (Effect H A T)
      → EngineClient.Outcome (EngineClient.Client Tr Handler)
      → Ended NodeError H A T D Tr
  with_engine c es EngineClient.panic = panic
  with_engine c es (EngineClient.done engine e) =
      done (record { socket = c; engine = engine }, to_node_error e) es

-- The handler that was called for a packet, by the calls after it and before it.
unfoldable pub handler_called :
    {Tr : Type 0} → List (Call Tr Handler) → ℕ → Option (Handler × Bytes)
handler_called [] old = none
handler_called (handle f body ∷ calls) old = if length calls == old then some (f, body) else none
handler_called (call ∷ calls) old = none

module _ {C H A T D Tr : Type 0} (ts : Transports Tr Handler) (parser : Parser C H) where
  -- The loop over the callbacks of `Connect`.
  unfoldable pub register_callbacks :
      Client H A T D → List C → Outcome (Client H A T D) (Effect H A T)
  unfolding on
  register_callbacks c [] = done c []
  register_callbacks c (callback ∷ callbacks) = elim (on parser c (codes "connect") callback) [
    | panic ↦ panic
    | done c' es ↦ register_callbacks c' callbacks
  ]

  -- `Connect`, when no other step comes between the parts of that of the Engine.IO client.
  unfoldable pub connect : Node H A T D Tr → List C → Ended NodeError H A T D Tr
  unfolding register_callbacks
  connect n callbacks = elim (register_callbacks n.socket callbacks) [
    | panic ↦ panic
    | done c es ↦ with_engine c es (Lifecycle.connect ts n.engine)
  ]

  -- `Close`, likewise.
  unfoldable pub close : Node H A T D Tr → Ended NodeError H A T D Tr
  close n =
      let (engine, t) = Lifecycle.close_begin n.engine in
      with_engine n.socket [] (Lifecycle.close_finish ts engine t)

module _ {C H A T D Tr : Type 0} (ts : Transports Tr Handler) (packets : EngineClient.Parser)
    (parser : Parser C H) where
  abbrev sent :
      Node H A T D Tr → Client H A T D × List (Effect H A T) × Sent → Ended NodeError H A T D Tr
  sent n (c, es, failed e) = done (record n { socket = c }, some (emit_error e)) es
  sent n (c, es, handed_over bs) = with_engine c es (Lifecycle.send_open ts packets n.engine bs)

  -- `Emit` on a namespace that is connected, at a moment when `Send` does not wait.
  unfoldable pub emit :
      Node H A T D Tr → Bytes → EventArgument → List (Argument C T) → Ended NodeError H A T D Tr
  emit n ns e args = sent n (emit_connected parser n.socket ns e args)

  -- `connectSocketIO`, at such a moment; an error is only logged.
  unfoldable pub connect_socket : (D → Arg) → Node H A T D Tr → Ended NodeError H A T D Tr
  connect_socket to_arg n = sent n (Emit.connect_socket_io parser to_arg n.socket)

  abbrev pub on_handled :
      Client H A T D
      → EngineClient.Client Tr Handler
      → Option EngineClient.Error
      → Option (Handler × Bytes)
      → Ended NodeError H A T D Tr
  on_handled c engine e (some (on_message, body)) = elim (Messages.on_message parser c body) [
    | panic ↦ panic
    | done c' es ↦ done (record { socket = c'; engine = engine }, to_node_error e) es
  ]
  on_handled c engine e call = done (record { socket = c; engine = engine }, to_node_error e) []

  -- A packet from the transport: `handlePacket`, and the handler that it calls.
  unfoldable pub receive :
      (Bytes → Option HandshakeResponse) → Node H A T D Tr → Bytes → Ended NodeError H A T D Tr
  unfolding handler_called
  receive unmarshal n bs = elim (handle_packet ts packets unmarshal n.engine bs) [
    | EngineClient.panic ↦ panic
    | EngineClient.done engine e ↦
        on_handled n.socket engine e (handler_called engine.calls (length n.engine.calls))
  ]
