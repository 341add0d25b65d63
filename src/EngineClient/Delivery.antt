-- ===== src/EngineClient/Delivery.antt =====
-- engine.io/v4/client/client.go with the parser of engine.io/v4/parser: messages from one client to
-- another, and an upgrade from its first call to its last.
use go_socket_io.Base.{
  equal, true, false, ℕ, ◌+◌, ◌%◌, ◌≤◌, ◌≡◌, refl, Option, none, some, List, [], ◌∷◌, Bytes, codes,
  length, ok, arith,
}
use go_socket_io.EngineParser.{
  EngineIoV4Parser, parse, serialize, limit, packet_message, packet_ping,
}
use go_socket_io.EngineClient.{
  HandshakeResponse, Call, run, stop, send_message, shut, opened, Client, Transports, done, after,
  open_upgrade, send_packet,
}
use go_socket_io.EngineClient.Packets.{handle_packet, handle_parsed, call_handler}
use go_socket_io.EngineClient.Handshake.{transport_upgrade}
use go_socket_io.EngineClient.Lifecycle.{send_open}
use go_socket_io.EngineClient.Panics.{as_parser}

serialize_within :
    (q : EngineIoV4Parser) (t : ℕ) (body : Bytes)
    → length body ≤ limit q
    → serialize q (record { force = none; type = t; body = body }) ≡ ok ((t + 0x30) % 256 ∷ body)
unfolding serialize
serialize_within q t body h = ground arith

module _ {Tr F : Type 0} (ts : Transports Tr F) (q : EngineIoV4Parser)
    (unmarshal : Bytes → Option HandshakeResponse) where
  -- A message within the size limit that one client sends is one call of its transport, with bytes
  -- that make another client call its message handler with that message, and do nothing else.
  pub send_open-handle_packet :
      (c d : Client Tr F) (t : Tr) (message : Bytes)
      → length message ≤ limit q
      → c.transport ≡ some t
      → (bs : Bytes) × (send_open ts (as_parser q) c message
          ≡ done (after c (send_message t bs)) (ts.answer c.calls (send_message t bs)))
        × (handle_packet ts (as_parser q) unmarshal d bs
            ≡ done (call_handler d d.message_handler message) none)
  unfolding send_open handle_packet handle_parsed parse
  send_open-handle_packet c d t message h known =
      (b'4' ∷ message, rw (known, serialize_within q packet_message message h) refl, refl)

  upgrading : Client Tr F → Tr → Tr → Client Tr F
  upgrading c old new = record c {
    transport = some new;
    wait_upgrade = shut;
    had_upgrade = false;
    calls = send_message new (codes "2probe") ∷ run new c.sid ∷ stop old ∷ c.calls;
  }

  -- When the transports return no errors, an upgrade stops the old transport, runs the new one
  -- under the session id and probes it, with the gate shut; the answer to the probe, "3probe", makes
  -- the client send the upgrade packet on the new transport and opens the gate. The size limit has
  -- room for the probe.
  pub upgrade_completes :
      (c : Client Tr F) (old new : Tr)
      → 5 ≤ limit q
      → c.transport ≡ some old
      → ((calls : List (Call Tr F)) (call : Call Tr F) → ts.answer calls call ≡ none)
      → (u d : Client Tr F) × (transport_upgrade ts (as_parser q) c new ≡ done u none)
        × (u.wait_upgrade ≡ shut)
        × (handle_packet ts (as_parser q) unmarshal u (codes "3probe") ≡ done d none)
        × (d.wait_upgrade ≡ opened)
        × (d.transport ≡ some new)
        × (d.calls
            ≡ send_message new (codes "5")
              ∷ send_message new (codes "2probe")
              ∷ run new c.sid
              ∷ stop old
              ∷ c.calls)
  unfolding transport_upgrade send_packet handle_packet handle_parsed parse open_upgrade upgrading
      equal
  upgrade_completes c old new h known fine = (
    upgrading c old new,
    record (after (upgrading c old new) (send_message new (codes "5"))) {
      wait_upgrade = opened;
      had_upgrade = true;
    },
    rw (known, fine)
        (rw fine
          (rw (serialize_within q packet_ping (codes "probe") h, send_packet) (rw fine refl))),
    refl,
    rw (serialize_within q 5 [] (omega arith), fine) refl,
    refl,
    refl,
    refl,
  )
