-- ===== src/EngineClient/Tests.antt =====
-- Tests and witnesses of the Engine.IO client. Transports and handlers are numbers: 1 is polling
-- and 2 is websocket.
use go_socket_io.Base.{
  ℕ, ◌≡◌, ◌↔◌, refl, true, false, Option, none, some, List, [], ◌∷◌, Bytes, codes, arith, equal,
  ◌==◌, if◌then◌else◌,
}
use go_socket_io.Base.Int.{pos, negsuc}
use go_socket_io.EngineParser.{EngineIoV4Parser, parse, serialize, limit}
use go_socket_io.EngineClient.{
  Outcome, HandshakeResponse, transport_error, Call, run, stop, send_message, absent, shut, opened,
  Client, Transports, done, panic, after, client_closed, open_handshake, send_packet,
}
use go_socket_io.EngineClient.Handshake.{
  find_transport, choose_upgrade, transport_upgrade, handle_handshake, tell_transports,
  new_interval, new_timeout, milliseconds,
}
use go_socket_io.EngineClient.Handshake.Gates.{
  IsUpgraded, transport_upgrade-IsUpgraded, IsShaken, handle_handshake-IsShaken,
}
use go_socket_io.EngineClient.Handshake.Choice.{
  ChosenAt, choose_upgrade_iff, negative_interval-panic,
}
use go_socket_io.EngineClient.Packets.{handle_packet, handle_parsed, call_handler}
use go_socket_io.EngineClient.Lifecycle.{
  connect, close_begin, close_finish, send_open, here, next, closes, Sends, passes,
}
use go_socket_io.EngineClient.Gates.{IsGated, Reach-IsGated}
use go_socket_io.EngineClient.Panics.{as_parser, Crashes, handle_packet-panic}
use go_socket_io.EngineClient.Closed.{IsOpen, SameGates, OutSameGates, close_final}
use go_socket_io.EngineClient.Delivery.{send_open-handle_packet, upgrade_completes}

abbrev engine_parser : EngineIoV4Parser
engine_parser = record { max_serialize_size = pos 100 }

abbrev transports : Transports ℕ ℕ
transports = record {
  name = λ t. if t == 1 then codes "polling" else codes "websocket";
  answer = λ calls call. none;
}

abbrev failing : Transports ℕ ℕ
failing = record transports { answer = λ calls call. some (transport_error (codes "refused")) }

abbrev both : List (Bytes × ℕ)
both = (codes "websocket", 2) ∷ (codes "polling", 1) ∷ []

abbrev response : HandshakeResponse
response = record {
  sid = codes "abc";
  upgrades = codes "websocket" ∷ [];
  ping_interval = pos 25000;
  ping_timeout = pos 20000;
}

-- Whatever the text, it is read as that response.
abbrev unmarshal : Bytes → Option HandshakeResponse
unmarshal bs = some response

abbrev impatient : Bytes → Option HandshakeResponse
impatient bs = some (record response { ping_interval = negsuc 0 })

abbrev fresh : Client ℕ ℕ
fresh = record {
  transport = some 1;
  supported_transports = both;
  sid = [];
  ping_interval = some (pos 10000000000);
  ticking = true;
  ping_timeout = pos 0;
  message_handler = some 7;
  close_handler = none;
  after_connect = none;
  wait_upgrade = absent;
  had_upgrade = false;
  wait_handshake = shut;
  had_handshake = false;
  messages = shut;
  calls = [];
}

fresh-IsGated : IsGated fresh
fresh-IsGated = ground arith

-- A handshake tells both transports, and then the upgrade begins.
upgrade_begins :
    handle_packet transports (as_parser engine_parser) unmarshal fresh (codes "0{}")
    ≡ done
        (record fresh {
          transport = some 2;
          sid = codes "abc";
          ping_interval = some (pos 25000000000);
          ping_timeout = pos 20000000000;
          wait_upgrade = shut;
          wait_handshake = opened;
          had_handshake = true;
          calls =
              send_message 2 (codes "2probe")
              ∷ run 2 (codes "abc")
              ∷ stop 1
              ∷ Call.set_handshake 1 response
              ∷ Call.set_handshake 2 response
              ∷ [];
        })
        none
unfolding handle_packet handle_parsed handle_handshake parse serialize open_handshake send_packet
    transport_upgrade tell_transports new_interval new_timeout milliseconds choose_upgrade
    find_transport limit equal
upgrade_begins = refl

handle_packet-panic_example :
    (handle_packet transports (as_parser engine_parser) unmarshal fresh (codes "3probe") ≡ panic)
    ↔ Crashes fresh b'3' (codes "probe")
handle_packet-panic_example =
    handle_packet-panic transports engine_parser unmarshal fresh b'3' (codes "probe") fresh-IsGated
      (omega arith) (omega arith)

-- A client whose handshake is over, when `Close` has begun.
abbrev closing : Client ℕ ℕ
closing = (close_begin (record fresh { wait_handshake = opened; had_handshake = true })).0

close_final_example :
    (Sends transports
        (as_parser engine_parser)
        closing
        (codes "hi")
        (done closing (some client_closed))
      ↔ (IsOpen closing
          × (◌≡◌ {A = Outcome (Client ℕ ℕ)}
              (done closing (some client_closed))
              (done closing (some client_closed)))))
    × (SameGates (record fresh { wait_handshake = opened; had_handshake = true }) closing)
    × (OutSameGates closing (close_finish transports closing (some 1)))
    × (connect transports closing ≡ panic)
close_final_example =
    close_final transports (as_parser engine_parser) unmarshal
      (record fresh { wait_handshake = opened; had_handshake = true }) closing (codes "hi")
      (done closing (some client_closed)) (some 1) here

-- A handshake that is handled before `Connect` has made its gate closes a nil channel.
early_handshake :
    handle_packet transports
      (as_parser engine_parser)
      unmarshal
      (record fresh { wait_handshake = absent })
      (codes "0{}")
    ≡ panic
unfolding handle_packet handle_parsed handle_handshake parse serialize open_handshake send_packet
    transport_upgrade tell_transports new_interval new_timeout milliseconds choose_upgrade
    find_transport limit equal
early_handshake = refl

-- Before the handshake, `Send` waits although `Close` has begun.
waits_closed : ¬ (
    Sends transports
      (as_parser engine_parser)
      (close_begin fresh).0
      (codes "hi")
      (done (close_begin fresh).0 (some client_closed)))
unfolding close_begin
waits_closed (passes a b q) = cc

Reach-IsGated_example : IsGated (close_begin fresh).0
Reach-IsGated_example =
    Reach-IsGated {ts = transports} {p = as_parser engine_parser} {unmarshal = unmarshal}
      {c = fresh} {c' = (close_begin fresh).0} fresh-IsGated (next here (closes refl))

transport_upgrade-IsUpgraded_example :
    IsUpgraded 2 (transport_upgrade failing (as_parser engine_parser) fresh 2)
transport_upgrade-IsUpgraded_example =
    transport_upgrade-IsUpgraded failing (as_parser engine_parser) fresh 2

handle_handshake-IsShaken_example :
    IsShaken (handle_handshake failing (as_parser engine_parser) unmarshal fresh (codes "{}"))
handle_handshake-IsShaken_example =
    handle_handshake-IsShaken failing (as_parser engine_parser) unmarshal fresh (codes "{}")
      response fresh-IsGated refl (λ e. cc)

choose_upgrade_iff_example :
    (choose_upgrade (codes "polling") both (codes "webtransport" ∷ codes "websocket" ∷ []) ≡ some 2)
    ↔ ChosenAt (codes "polling") both 2 (codes "webtransport" ∷ codes "websocket" ∷ [])
choose_upgrade_iff_example =
    choose_upgrade_iff (codes "polling") both 2 (codes "webtransport" ∷ codes "websocket" ∷ [])

negative_interval-panic_example :
    handle_handshake transports (as_parser engine_parser) impatient fresh (codes "{}") ≡ panic
negative_interval-panic_example =
    negative_interval-panic transports (as_parser engine_parser) impatient fresh (codes "{}")
      (record response { ping_interval = negsuc 0 }) 0 refl (λ e. cc) refl (omega arith)

limit_100 : limit engine_parser ≡ 100
unfolding limit
limit_100 = refl

send_open-handle_packet_example :
    (bs : Bytes) × (send_open transports (as_parser engine_parser) fresh (codes "hi")
      ≡ done (after fresh (send_message 1 bs)) none)
    × (handle_packet transports (as_parser engine_parser) unmarshal fresh bs
        ≡ done (call_handler fresh (some 7) (codes "hi")) none)
send_open-handle_packet_example =
    send_open-handle_packet transports engine_parser unmarshal fresh fresh 1 (codes "hi")
      (rw limit_100 (omega arith)) refl

upgrade_completes_example :
    (u d : Client ℕ ℕ) × (transport_upgrade transports (as_parser engine_parser) fresh 2
      ≡ done u none)
    × (u.wait_upgrade ≡ shut)
    × (handle_packet transports (as_parser engine_parser) unmarshal u (codes "3probe")
        ≡ done d none)
    × (d.wait_upgrade ≡ opened)
    × (d.transport ≡ some 2)
    × (d.calls
        ≡ send_message 2 (codes "5") ∷ send_message 2 (codes "2probe") ∷ run 2 [] ∷ stop 1 ∷ [])
upgrade_completes_example =
    upgrade_completes transports engine_parser unmarshal fresh 1 2 (rw limit_100 (omega arith)) refl
      (λ calls call. refl)
