-- ===== src/EngineClient/Panics.antt =====
-- engine.io/v4/client/client.go with the parser of engine.io/v4/parser: the packets on which the
-- message loop panics.
use go_socket_io.Base.{
  ℕ, ◌+◌, ◌%◌, ◌<◌, ◌≡◌, ◌≢◌, ◌↔◌, ◌⊎◌, Option, none, [], ◌∷◌, Bytes, codes, equal_iff, ok, arith,
}
use go_socket_io.EngineParser.{EngineIoV4Parser, parse, serialize}
use go_socket_io.EngineClient.{
  HandshakeResponse, Parser, absent, Client, Transports, panic, open_upgrade, send_packet,
}
use go_socket_io.EngineClient.Packets.{handle_packet, handle_parsed}
use go_socket_io.EngineClient.Gates.{IsGated}

-- The parser of engine.io/v4/parser, as the client calls it.
abbrev pub as_parser : EngineIoV4Parser → Parser
as_parser q = record { parse = parse; serialize = serialize q }

-- A ping when `Close` has taken the transport out, or the answer to a probe when it has, or when no
-- upgrade was ever begun.
abbrev pub Crashes : {Tr F : Type 0} → Client Tr F → ℕ → Bytes → Type 0
Crashes c b body =
    ((b ≡ b'2') × (c.transport ≡ none))
    ⊎ ((b ≡ b'3') × (body ≡ codes "probe") × ((c.transport ≡ none) ⊎ (c.wait_upgrade ≡ absent)))

module _ {Tr F : Type 0} (ts : Transports Tr F) (q : EngineIoV4Parser)
    (unmarshal : Bytes → Option HandshakeResponse) (c : Client Tr F) where
  serialize_empty :
      (t : ℕ)
      → serialize q (record { force = none; type = t; body = [] }) ≡ ok ((t + 0x30) % 256 ∷ [])
  unfolding serialize
  serialize_empty t = ground arith

  -- A packet other than a handshake panics exactly when it is a ping and `Close` has taken the
  -- transport out of the client, or when it is the answer to a probe and the transport is taken out
  -- or no upgrade was ever begun: the gate to open is a nil channel then.
  pub handle_packet-panic :
      (b : ℕ) (body : Bytes)
      → IsGated c
      → b < 256
      → b ≢ b'0'
      → (handle_packet ts (as_parser q) unmarshal c (b ∷ body) ≡ panic) ↔ Crashes c b body
  unfolding handle_packet parse handle_parsed send_packet open_upgrade
  handle_packet-panic b body g h ne =
      ground (arith, serialize_empty 3, serialize_empty 5, equal_iff body (codes "probe"))
