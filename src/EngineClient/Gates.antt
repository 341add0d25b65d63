-- ===== src/EngineClient/Gates.antt =====
-- engine.io/v4/client/client.go: the two gates and the `sync.Once` of each, over the life of a
-- client.
use go_socket_io.Base.Int.{ℤ}
use go_socket_io.Base.{
  Bool-cases, Option-cases, Result-cases, inl, inr, equal, ◌≡◌, ◌↔◌, Bool, true, Option, none, some,
  List, [], ◌∷◌, Bytes, arith,
}
use go_socket_io.EngineParser as EngineParser
use go_socket_io.EngineClient.{
  HandshakeResponse, Error, Parser, Gate, opened, Client, Transports, Outcome, done, panic,
  open_upgrade, open_handshake, send_packet,
}
use mathlib.Core.Path.{subst}
use go_socket_io.EngineParser.{packet_pong, packet_upgrade}
use go_socket_io.EngineClient.{packet_of}
use go_socket_io.EngineClient.Packets.{handle_parsed, handle_packet, upgrade_answered, call_handler}
use go_socket_io.EngineClient.Lifecycle.{
  Step, packet, sends, runs, makes_gate, requests, registers, closes, stops, Reach, here, next,
  passes, connect_run, connect_gate, connect_request, close_finish, close_begin, send_open, on,
}
use go_socket_io.EngineClient.Handshake.{
  transport_upgrade, handle_handshake, connected, upgraded, upgrade_among, upgrade_to,
  with_interval, told, apply_handshake, choose_upgrade, new_interval, start_after_connect,
}

-- A gate is closed exactly when its `sync.Once` is done.
abbrev pub IsOnce : Gate → Bool → Type 0
IsOnce gate had = (gate ≡ opened) ↔ (had ≡ true)

abbrev pub IsGated : {Tr F : Type 0} → Client Tr F → Type 0
IsGated c = IsOnce c.wait_upgrade c.had_upgrade × IsOnce c.wait_handshake c.had_handshake

abbrev pub OutIsGated : {Tr F : Type 0} → Outcome (Client Tr F) → Type 0
OutIsGated (done c e) = IsGated c
OutIsGated panic = Unit

module _ {Tr F : Type 0} (c : Client Tr F) (g : IsGated c) where
  pub open_upgrade-IsGated : (e : Option Error) → OutIsGated (open_upgrade c e)
  unfolding open_upgrade
  open_upgrade-IsGated e = ground arith

  pub open_handshake-IsGated : (e : Option Error) → OutIsGated (open_handshake c e)
  unfolding open_handshake
  open_handshake-IsGated e = ground arith

  pub send_packet-IsGated :
      (ts : Transports Tr F) (p : Parser) (m : Option EngineParser.Message)
      → OutIsGated (send_packet ts p c m)
  unfolding send_packet
  send_packet-IsGated ts p m = ground arith

module _ {Tr F : Type 0} where
  start_after_connect-IsGated :
      (c : Client Tr F) (f : Option F) → IsGated c → IsGated (start_after_connect c f)
  start_after_connect-IsGated c none g = g
  start_after_connect-IsGated c (some f) g = g

  connected-IsGated : (r : Outcome (Client Tr F)) → OutIsGated r → OutIsGated (connected r)
  connected-IsGated panic g = tt
  connected-IsGated (done c e) g = start_after_connect-IsGated c c.after_connect g

  upgraded-IsGated : (r : Outcome (Client Tr F)) → OutIsGated r → OutIsGated (upgraded r)
  upgraded-IsGated panic g = tt
  upgraded-IsGated (done c (some e)) g = open_handshake-IsGated c g (some e)
  upgraded-IsGated (done c none) g =
      connected-IsGated (open_handshake c none) (open_handshake-IsGated c g none)

  upgrade_answered-IsGated :
      (r : Outcome (Client Tr F)) → OutIsGated r → OutIsGated (upgrade_answered r)
  upgrade_answered-IsGated panic g = tt
  upgrade_answered-IsGated (done c e) g = open_upgrade-IsGated c g e

  call_handler-IsGated :
      (c : Client Tr F) (f : Option F) (body : Bytes) → IsGated c → IsGated (call_handler c f body)
  call_handler-IsGated c none body g = g
  call_handler-IsGated c (some f) body g = g

module _ {Tr F : Type 0} (ts : Transports Tr F) (p : Parser) where
  transport_upgrade-IsGated :
      (c : Client Tr F) (new : Tr) → IsGated c → OutIsGated (transport_upgrade ts p c new)
  unfolding transport_upgrade open_upgrade send_packet
  transport_upgrade-IsGated c new g = ground arith

  upgrade_to-IsGated :
      (c : Client Tr F) (t : Option Tr) → IsGated c → OutIsGated (upgrade_to ts p c t)
  upgrade_to-IsGated c none g = g
  upgrade_to-IsGated c (some new) g = transport_upgrade-IsGated c new g

  pub upgrade_among-IsGated :
      (c : Client Tr F) (t : Option Tr) (names : List Bytes)
      → IsGated c
      → OutIsGated (upgrade_among ts p c t names)
  upgrade_among-IsGated c none [] g = g
  upgrade_among-IsGated c (some t) [] g = g
  upgrade_among-IsGated c none (n ∷ ns) g = tt
  upgrade_among-IsGated c (some t) (n ∷ ns) g =
      upgrade_to-IsGated c (choose_upgrade (ts.name t) c.supported_transports (n ∷ ns)) g

  with_interval-IsGated :
      (c : Client Tr F) (r : HandshakeResponse) (o : Option (Option ℤ))
      → IsGated c
      → OutIsGated (with_interval ts p c r o)
  with_interval-IsGated c r none g = tt
  with_interval-IsGated c r (some interval) g =
      upgraded-IsGated _ (upgrade_among-IsGated _ c.transport r.upgrades g)

  apply_handshake-IsGated :
      (c : Client Tr F) (r : HandshakeResponse) → IsGated c → OutIsGated (apply_handshake ts p c r)
  apply_handshake-IsGated c r g = elim (Bool-cases (equal r.sid [])) [
    | inl unnamed ↦ rw unnamed g
    | inr named ↦
        rw named
          (with_interval-IsGated (told c r) r (new_interval c.ping_interval r.ping_interval) g)
  ]

  pub handle_handshake-IsGated :
      (unmarshal : Bytes → Option HandshakeResponse) (c : Client Tr F) (body : Bytes)
      → IsGated c
      → OutIsGated (handle_handshake ts p unmarshal c body)
  unfolding handle_handshake
  handle_handshake-IsGated unmarshal c body g = elim (Option-cases (unmarshal body)) [
    | inl bad ↦ rw bad g
    | inr (r, good) ↦ rw good (apply_handshake-IsGated c r g)
  ]

  handle_parsed-IsGated :
      (unmarshal : Bytes → Option HandshakeResponse) (c : Client Tr F) (m : EngineParser.Message)
      → IsGated c
      → OutIsGated (handle_parsed ts p unmarshal c m)
  unfolding handle_parsed
  handle_parsed-IsGated unmarshal c m g =
      let shaken = handle_handshake-IsGated unmarshal c m.body g in
      let closed = call_handler-IsGated c c.close_handler [] g in
      let received = call_handler-IsGated c c.message_handler m.body g in
      let ponged = send_packet-IsGated c g ts p (some (packet_of packet_pong [])) in
      let answered =
        upgrade_answered-IsGated _
          (send_packet-IsGated c g ts p (some (packet_of packet_upgrade []))) in
      ground (arith, shaken, closed, received, ponged, answered)

  handle_packet-IsGated :
      (unmarshal : Bytes → Option HandshakeResponse) (c : Client Tr F) (bs : Bytes)
      → IsGated c
      → OutIsGated (handle_packet ts p unmarshal c bs)
  unfolding handle_packet
  handle_packet-IsGated unmarshal c bs g = elim (Result-cases (p.parse bs)) [
    | inl (f, bad) ↦ rw bad g
    | inr (m, good) ↦ rw good (handle_parsed-IsGated unmarshal c m g)
  ]

  connect_run-IsGated : (c : Client Tr F) → IsGated c → OutIsGated (connect_run ts c)
  unfolding connect_run
  connect_run-IsGated c g = ground arith

  connect_request-IsGated : (c : Client Tr F) → IsGated c → OutIsGated (connect_request ts c)
  unfolding connect_request
  connect_request-IsGated c g = ground arith

  close_finish-IsGated :
      (c : Client Tr F) (t : Option Tr) → IsGated c → OutIsGated (close_finish ts c t)
  unfolding close_finish
  close_finish-IsGated c t g = ground arith

  send_open-IsGated : (c : Client Tr F) (m : Bytes) → IsGated c → OutIsGated (send_open ts p c m)
  unfolding send_open
  send_open-IsGated c m g = ground arith

connect_gate-IsGated : {Tr F : Type 0} (c : Client Tr F) → IsGated c → IsGated (connect_gate c)
unfolding connect_gate
connect_gate-IsGated c g = ground arith

on-IsGated :
    {Tr F : Type 0} (c : Client Tr F) (event : Bytes) (f : F) → IsGated c → IsGated (on c event f)
unfolding on
on-IsGated c event f g = ground arith

Step-IsGated :
    {Tr F : Type 0} {ts : Transports Tr F} {p : Parser}
    {unmarshal : Bytes → Option HandshakeResponse} {c c' : Client Tr F}
    → IsGated c
    → Step ts p unmarshal c c'
    → IsGated c'
unfolding close_begin
Step-IsGated {ts = ts} {p = p} {unmarshal = u} {c = c} g (packet bs q) =
    subst OutIsGated q (handle_packet-IsGated ts p u c bs g)
Step-IsGated {ts = ts} {p = p} {c = c} g (sends message (passes h u q)) =
    subst OutIsGated q (send_open-IsGated ts p c message g)
Step-IsGated {ts = ts} {p = p} {c = c} g (runs q) =
    subst OutIsGated q (connect_run-IsGated ts p c g)
Step-IsGated {c = c} g (makes_gate q) = subst IsGated q (connect_gate-IsGated c g)
Step-IsGated {ts = ts} {p = p} {c = c} g (requests q) =
    subst OutIsGated q (connect_request-IsGated ts p c g)
Step-IsGated {c = c} g (registers event f q) = subst IsGated q (on-IsGated c event f g)
Step-IsGated g (closes q) = subst IsGated q g
Step-IsGated {ts = ts} {p = p} {c = c} g (stops t q) =
    subst OutIsGated q (close_finish-IsGated ts p c t g)

-- Whatever happens to a client, each gate is closed exactly when its `sync.Once` is done: no step
-- closes a gate twice, and a new gate comes with a new `Once`.
pub Reach-IsGated :
    {Tr F : Type 0} {ts : Transports Tr F} {p : Parser}
    {unmarshal : Bytes → Option HandshakeResponse} {c c' : Client Tr F}
    → IsGated c
    → Reach ts p unmarshal c c'
    → IsGated c'
Reach-IsGated g here = g
Reach-IsGated g (next r s) = Step-IsGated (Reach-IsGated g r) s
