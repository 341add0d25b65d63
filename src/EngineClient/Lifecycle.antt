-- ===== src/EngineClient/Lifecycle.antt =====
-- engine.io/v4/client/client.go: `Connect`, `Send`, `On` and `Close`, and the life of a client as a
-- sequence of steps. `Connect` is three steps, since the message loop runs before the gate of the
-- handshake is made; `Close` is two, before and after the transport is stopped.
use go_socket_io.Base.{
  Bool, true, false, ◌≡◌, Option, none, some, Bytes, Result, ok, err, codes, equal, if◌then◌else◌,
}
use go_socket_io.EngineParser as EngineParser
use go_socket_io.EngineParser.{packet_message}
use go_socket_io.EngineClient.{
  HandshakeResponse, Error, parser_error, client_closed, Parser, run, request_handshake, stop, Gate,
  absent, shut, opened, Client, Transports, Outcome, done, panic, after, packet_of, transmit,
}
use go_socket_io.EngineClient.Packets.{handle_packet}

-- A channel that is closed again is a panic; a nil one is left alone by `Close`.
abbrev pub close_messages : Gate → Option Gate
close_messages absent = some absent
close_messages shut = some opened
close_messages opened = none

-- A receive from a nil channel is left out by `Send`.
abbrev pub lets_pass : Gate → Bool
lets_pass absent = true
lets_pass shut = false
lets_pass opened = true

module _ {Tr F : Type 0} where
  abbrev with_messages : Client Tr F → Option Gate → Option Error → Outcome (Client Tr F)
  with_messages c none e = panic
  with_messages c (some gate) e = done (record c { messages = gate }) e

  -- `On`
  unfoldable pub on : Client Tr F → Bytes → F → Client Tr F
  on c event handler =
      if equal event (codes "connect")
      then record c { after_connect = some handler }
      else if equal event (codes "message")
      then record c { message_handler = some handler }
      else if equal event (codes "close")
      then record c { close_handler = some handler }
      else c

  -- The first part of `Close`: the transport is taken out of the client and the ticker is stopped.
  unfoldable pub close_begin : Client Tr F → Client Tr F × Option Tr
  close_begin c = (record c { transport = none; ticking = false }, c.transport)

module _ {Tr F : Type 0} (ts : Transports Tr F) where
  abbrev close_stopped : Client Tr F → Option Error → Outcome (Client Tr F)
  close_stopped c (some e) = done c (some e)
  close_stopped c none = with_messages c (close_messages c.messages) none

  -- The rest of `Close`, with the transport that was taken out.
  unfoldable pub close_finish : Client Tr F → Option Tr → Outcome (Client Tr F)
  close_finish c none = done c none
  close_finish c (some t) = close_stopped (after c (stop t)) (ts.answer c.calls (stop t))

  abbrev handshake_failed : Client Tr F → Tr → Error → Outcome (Client Tr F)
  handshake_failed c t e = with_messages (after c (stop t)) (close_messages c.messages) (some e)

  abbrev requested : Client Tr F → Tr → Option Error → Outcome (Client Tr F)
  requested c t none = done c none
  requested c t (some e) = handshake_failed c t e

  abbrev request : Client Tr F → Option Tr → Outcome (Client Tr F)
  request c none = panic
  request c (some t) =
      requested (after c (request_handshake t)) t (ts.answer c.calls (request_handshake t))

  abbrev run_with : Client Tr F → Option Tr → Outcome (Client Tr F)
  run_with c none = panic
  run_with c (some t) = done (after c (run t c.sid)) (ts.answer c.calls (run t c.sid))

  -- `Connect`, up to the start of the message loop.
  unfoldable pub connect_run : Client Tr F → Outcome (Client Tr F)
  connect_run c = run_with (record c { messages = shut }) c.transport

  -- `Connect` from the request of the handshake on.
  unfoldable pub connect_request : Client Tr F → Outcome (Client Tr F)
  connect_request c = request c c.transport

-- In between, `Connect` makes the gate of the handshake.
unfoldable pub connect_gate : {Tr F : Type 0} → Client Tr F → Client Tr F
connect_gate c = record c { wait_handshake = shut; had_handshake = false }

module _ {Tr F : Type 0} (ts : Transports Tr F) where
  abbrev connect_rest : Outcome (Client Tr F) → Outcome (Client Tr F)
  connect_rest panic = panic
  connect_rest (done c (some e)) = done c (some e)
  connect_rest (done c none) = connect_request ts (connect_gate c)

  -- `Connect`, when no other step comes between its parts.
  unfoldable pub connect : Client Tr F → Outcome (Client Tr F)
  unfolding connect_run connect_gate connect_request
  connect c = connect_rest (connect_run ts c)

module _ {Tr F : Type 0} (ts : Transports Tr F) (p : Parser) where
  abbrev send_serialized_to :
      Client Tr F → Tr → Result EngineParser.Error Bytes → Outcome (Client Tr F)
  send_serialized_to c t (err e) = done c (some (parser_error e))
  send_serialized_to c t (ok msg) = transmit ts p c (some t) msg

  abbrev send_on : Client Tr F → Option Tr → Bytes → Outcome (Client Tr F)
  send_on c none message = done c (some client_closed)
  send_on c (some t) message =
      send_serialized_to c t (p.serialize (packet_of packet_message message))

  -- `Send` behind its two waits.
  unfoldable pub send_open : Client Tr F → Bytes → Outcome (Client Tr F)
  send_open c message = send_on c c.transport message

-- `Send` as a whole, at a moment when both gates let it pass. While one of them is shut it waits.
pub data Sends {Tr F : Type 0} (ts : Transports Tr F) (p : Parser) (c : Client Tr F)
    (message : Bytes) : Outcome (Client Tr F) → Type 0 where
  passes :
      {r : Outcome (Client Tr F)}
      → lets_pass c.wait_handshake ≡ true
      → lets_pass c.wait_upgrade ≡ true
      → send_open ts p c message ≡ r
      → Sends ts p c message r

-- One step of a client.
pub data Step {Tr F : Type 0} (ts : Transports Tr F) (p : Parser)
    (unmarshal : Bytes → Option HandshakeResponse) (c : Client Tr F) : Client Tr F → Type 0 where
  packet :
      {c' : Client Tr F} {e : Option Error} (bs : Bytes)
      → handle_packet ts p unmarshal c bs ≡ done c' e
      → Step ts p unmarshal c c'
  sends :
      {c' : Client Tr F} {e : Option Error} (message : Bytes)
      → Sends ts p c message (done c' e)
      → Step ts p unmarshal c c'
  runs :
      {c' : Client Tr F} {e : Option Error}
      → connect_run ts c ≡ done c' e
      → Step ts p unmarshal c c'
  makes_gate : {c' : Client Tr F} → connect_gate c ≡ c' → Step ts p unmarshal c c'
  requests :
      {c' : Client Tr F} {e : Option Error}
      → connect_request ts c ≡ done c' e
      → Step ts p unmarshal c c'
  registers :
      {c' : Client Tr F} (event : Bytes) (f : F) → on c event f ≡ c' → Step ts p unmarshal c c'
  closes : {c' : Client Tr F} → (close_begin c).0 ≡ c' → Step ts p unmarshal c c'
  stops :
      {c' : Client Tr F} {e : Option Error} (t : Option Tr)
      → close_finish ts c t ≡ done c' e
      → Step ts p unmarshal c c'

-- Any number of steps.
pub data Reach {Tr F : Type 0} (ts : Transports Tr F) (p : Parser)
    (unmarshal : Bytes → Option HandshakeResponse) (c : Client Tr F) : Client Tr F → Type 0 where
  here : Reach ts p unmarshal c c
  next :
      {c' c'' : Client Tr F}
      → Reach ts p unmarshal c c'
      → Step ts p unmarshal c' c''
      → Reach ts p unmarshal c c''
