-- ===== src/EngineClient.antt =====
-- engine.io/v4/client/client.go: the Engine.IO client, its state and its calls of the transports.
-- A panic of the runtime (a nil dereference, a channel that is nil or closed and is closed, a ticker
-- whose period is not positive) is `panic`. Logging is left out.
pub mod Logging
pub mod Handshake
pub mod Packets
pub mod Lifecycle
pub mod Gates
pub mod Panics
pub mod Closed
pub mod Delivery
pub mod Constructor
mod Tests
use go_socket_io.Base.{
  ℕ, ◌+◌, Bool, true, false, Option, none, some, List, [], ◌∷◌, Bytes, Result, ok, err, equal,
  if◌then◌else◌,
}
use go_socket_io.Base.Int.{ℤ}
use go_socket_io.EngineParser as EngineParser

-- `HandshakeResponse` of engine.io/v4/defs.go; an `int` is an integer.
pub record HandshakeResponse : Type 0 where
  pub sid : Bytes
  pub upgrades : List Bytes
  pub ping_interval : ℤ
  pub ping_timeout : ℤ

pub data Error : Type 0 where
  parser_error : EngineParser.Error → Error
  bad_json no_sid no_packet client_closed : Error
  transport_error : Bytes → Error

-- `Parser`, the interface of dep.go.
pub record Parser : Type 0 where
  pub parse : Bytes → Result EngineParser.Error EngineParser.Message
  pub serialize : EngineParser.Message → Result EngineParser.Error Bytes

-- What the client calls: a method of a transport (`Tr`), or a handler (`F`).
pub data Call (Tr F : Type 0) : Type 0 where
  run : Tr → Bytes → Call Tr F
  set_handshake : Tr → HandshakeResponse → Call Tr F
  request_handshake : Tr → Call Tr F
  stop : Tr → Call Tr F
  send_message : Tr → Bytes → Call Tr F
  handle : F → Bytes → Call Tr F
  start_handler : F → Call Tr F

-- A channel that is only ever closed: nil, made, or closed.
pub data Gate : Type 0 where
  absent shut opened : Gate

-- `Client`, the fields that `client.go` works with. `calls` is what it has called, the last call
-- first. A `sync.Once` is whether it is done; the periods are in nanoseconds, and `ticking` is whether
-- the ticker runs.
pub record Client (Tr F : Type 0) : Type 0 where
  pub transport : Option Tr
  pub supported_transports : List (Bytes × Tr)
  pub sid : Bytes
  pub ping_interval : Option ℤ
  pub ticking : Bool
  pub ping_timeout : ℤ
  pub message_handler : Option F
  pub close_handler : Option F
  pub after_connect : Option F
  pub wait_upgrade : Gate
  pub had_upgrade : Bool
  pub wait_handshake : Gate
  pub had_handshake : Bool
  pub messages : Gate
  pub calls : List (Call Tr F)

-- The transports as the client meets them: their names, and what a method returns after the calls
-- before it. `Stop` is followed by a signal on `transportClosed`.
pub record Transports (Tr F : Type 0) : Type 0 where
  pub name : Tr → Bytes
  pub answer : List (Call Tr F) → Call Tr F → Option Error

pub data Outcome {ℓ} (S : Type ℓ) : Type ℓ where
  done : S → Option Error → Outcome S
  panic : Outcome S

-- `Once.Do` of a function that closes the channel.
abbrev pub close_once : Gate → Bool → Option Gate
close_once gate true = some gate
close_once absent false = none
close_once shut false = some opened
close_once opened false = none

-- A packet with no `Force`.
abbrev pub packet_of : ℕ → Bytes → EngineParser.Message
packet_of type body = record { force = none; type = type; body = body }

module _ {Tr F : Type 0} where
  -- The client behind a call.
  abbrev pub after : Client Tr F → Call Tr F → Client Tr F
  after c call = record c { calls = call ∷ c.calls }

  abbrev with_upgrade_gate : Client Tr F → Option Gate → Option Error → Outcome (Client Tr F)
  with_upgrade_gate c none e = panic
  with_upgrade_gate c (some gate) e = done (record c { wait_upgrade = gate; had_upgrade = true }) e

  abbrev with_handshake_gate : Client Tr F → Option Gate → Option Error → Outcome (Client Tr F)
  with_handshake_gate c none e = panic
  with_handshake_gate c (some gate) e =
      done (record c { wait_handshake = gate; had_handshake = true }) e

  -- The gates are opened, and then the error is returned.
  unfoldable pub open_upgrade : Client Tr F → Option Error → Outcome (Client Tr F)
  open_upgrade c e = with_upgrade_gate c (close_once c.wait_upgrade c.had_upgrade) e

  unfoldable pub open_handshake : Client Tr F → Option Error → Outcome (Client Tr F)
  open_handshake c e = with_handshake_gate c (close_once c.wait_handshake c.had_handshake) e

module _ {Tr F : Type 0} (ts : Transports Tr F) (p : Parser) where
  abbrev pub transmit : Client Tr F → Option Tr → Bytes → Outcome (Client Tr F)
  transmit c none msg = panic
  transmit c (some t) msg =
      done (after c (send_message t msg)) (ts.answer c.calls (send_message t msg))

  abbrev send_serialized : Client Tr F → Result EngineParser.Error Bytes → Outcome (Client Tr F)
  send_serialized c (err e) = done c (some (parser_error e))
  send_serialized c (ok msg) = transmit c c.transport msg

  -- `sendPacket`; `none` is a nil packet.
  unfoldable pub send_packet : Client Tr F → Option EngineParser.Message → Outcome (Client Tr F)
  send_packet c none = done c (some no_packet)
  send_packet c (some packet) = send_serialized c (p.serialize packet)
