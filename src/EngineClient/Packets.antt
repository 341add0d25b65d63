-- ===== src/EngineClient/Packets.antt =====
-- engine.io/v4/client/client.go: `handlePacket`, one round of the message loop.
use go_socket_io.Base.{
  Option, none, some, [], Bytes, Result, ok, err, codes, equal, ◌==◌, if◌then◌else◌,
}
use go_socket_io.EngineParser as EngineParser
use go_socket_io.EngineParser.{
  packet_open, packet_close, packet_ping, packet_pong, packet_message, packet_upgrade,
}
use go_socket_io.EngineClient.{
  HandshakeResponse, parser_error, Parser, handle, Client, Transports, Outcome, done, panic, after,
  open_upgrade, send_packet, packet_of,
}
use go_socket_io.EngineClient.Handshake.{handle_handshake}

module _ {Tr F : Type 0} where
  -- A handler is called if there is one.
  abbrev pub call_handler : Client Tr F → Option F → Bytes → Client Tr F
  call_handler c none body = c
  call_handler c (some f) body = after c (handle f body)

  -- The gate is opened whether the upgrade packet could be sent or not.
  abbrev pub upgrade_answered : Outcome (Client Tr F) → Outcome (Client Tr F)
  upgrade_answered panic = panic
  upgrade_answered (done c e) = open_upgrade c e

module _ {Tr F : Type 0} (ts : Transports Tr F) (p : Parser)
    (unmarshal : Bytes → Option HandshakeResponse) where
  -- The switch of `handlePacket`.
  unfoldable pub handle_parsed : Client Tr F → EngineParser.Message → Outcome (Client Tr F)
  unfolding handle_handshake open_upgrade send_packet
  handle_parsed c packet =
      if packet.type == packet_open
      then handle_handshake ts p unmarshal c packet.body
      else if packet.type == packet_close
      then done (call_handler c c.close_handler []) none
      else if packet.type == packet_ping
      then send_packet ts p c (some (packet_of packet_pong []))
      else if packet.type == packet_pong
      then (if equal packet.body (codes "probe")
          then upgrade_answered (send_packet ts p c (some (packet_of packet_upgrade [])))
          else done c none)
      else if packet.type == packet_message
      then done (call_handler c c.message_handler packet.body) none
      else done c none

  abbrev pub parsed :
      Client Tr F → Result EngineParser.Error EngineParser.Message → Outcome (Client Tr F)
  parsed c (err e) = done c (some (parser_error e))
  parsed c (ok packet) = handle_parsed c packet

  unfoldable pub handle_packet : Client Tr F → Bytes → Outcome (Client Tr F)
  unfolding handle_parsed
  handle_packet c packet_data = parsed c (p.parse packet_data)
