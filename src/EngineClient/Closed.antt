-- ===== src/EngineClient/Closed.antt =====
-- engine.io/v4/client/client.go: what is left of a client when `Close` has begun.
use mathlib.Core.Path.{subst}
use go_socket_io.Base.{
  ◌↔◌, true, ◌≡◌, refl, sym, ◌∙◌, Option, none, some, List, [], ◌∷◌, Bytes, arith, Bool-cases,
  Option-cases, Result-cases, inl, inr, equal,
}
use go_socket_io.Base.Int.{ℤ}
use go_socket_io.EngineParser as EngineParser
use go_socket_io.EngineParser.{packet_pong, packet_upgrade}
use go_socket_io.EngineClient.{
  HandshakeResponse, Error, client_closed, Parser, Client, Transports, Outcome, done, panic,
  open_upgrade, open_handshake, send_packet,
}
use go_socket_io.EngineClient.Handshake.{
  handle_handshake, connected, upgraded, upgrade_among, with_interval, told, new_interval,
  start_after_connect,
}
use go_socket_io.EngineClient.Packets.{handle_parsed, handle_packet, call_handler}
use go_socket_io.EngineClient.Lifecycle.{
  Step, packet, sends, runs, makes_gate, requests, registers, closes, stops, Reach, here, next,
  Sends, passes, connect_run, connect_gate, connect_request, connect, lets_pass, close_finish,
  close_begin, send_open, on,
}

-- There is no transport.
abbrev pub IsClosed : {Tr F : Type 0} → Client Tr F → Type 0
IsClosed c = c.transport ≡ none

abbrev pub OutIsClosed : {Tr F : Type 0} → Outcome (Client Tr F) → Type 0
OutIsClosed (done c e) = IsClosed c
OutIsClosed panic = Unit

module _ {Tr F : Type 0} (c : Client Tr F) (h : IsClosed c) where
  open_handshake-IsClosed : (e : Option Error) → OutIsClosed (open_handshake c e)
  unfolding open_handshake
  open_handshake-IsClosed e = ground arith

module _ {Tr F : Type 0} where
  start_after_connect-IsClosed :
      (c : Client Tr F) (f : Option F) → IsClosed c → IsClosed (start_after_connect c f)
  start_after_connect-IsClosed c none h = h
  start_after_connect-IsClosed c (some f) h = h

  connected-IsClosed : (r : Outcome (Client Tr F)) → OutIsClosed r → OutIsClosed (connected r)
  connected-IsClosed panic h = tt
  connected-IsClosed (done c e) h = start_after_connect-IsClosed c c.after_connect h

  upgraded-IsClosed : (r : Outcome (Client Tr F)) → OutIsClosed r → OutIsClosed (upgraded r)
  upgraded-IsClosed panic h = tt
  upgraded-IsClosed (done c (some e)) h = open_handshake-IsClosed c h (some e)
  upgraded-IsClosed (done c none) h =
      connected-IsClosed (open_handshake c none) (open_handshake-IsClosed c h none)

  call_handler-IsClosed :
      (c : Client Tr F) (f : Option F) (body : Bytes)
      → IsClosed c
      → IsClosed (call_handler c f body)
  call_handler-IsClosed c none body h = h
  call_handler-IsClosed c (some f) body h = h

module _ {Tr F : Type 0} (ts : Transports Tr F) (p : Parser) where
  upgrade_among-IsClosed :
      (c : Client Tr F) (t : Option Tr) (names : List Bytes)
      → IsClosed c
      → t ≡ none
      → OutIsClosed (upgrade_among ts p c t names)
  upgrade_among-IsClosed c none [] h e = h
  upgrade_among-IsClosed c none (n ∷ ns) h e = tt
  upgrade_among-IsClosed c (some t) names h e = cc

  with_interval-IsClosed :
      (c : Client Tr F) (r : HandshakeResponse) (o : Option (Option ℤ))
      → IsClosed c
      → OutIsClosed (with_interval ts p c r o)
  with_interval-IsClosed c r none h = tt
  with_interval-IsClosed c r (some interval) h =
      upgraded-IsClosed _ (upgrade_among-IsClosed _ c.transport r.upgrades h h)

  handle_handshake-IsClosed :
      (unmarshal : Bytes → Option HandshakeResponse) (c : Client Tr F) (body : Bytes)
      → IsClosed c
      → OutIsClosed (handle_handshake ts p unmarshal c body)
  unfolding handle_handshake
  handle_handshake-IsClosed unmarshal c body h = elim (Option-cases (unmarshal body)) [
    | inl bad ↦ rw bad h
    | inr (r, good) ↦ rw good (elim (Bool-cases (equal r.sid [])) [
      | inl unnamed ↦ rw unnamed h
      | inr named ↦
          rw named
            (with_interval-IsClosed (told c r) r (new_interval c.ping_interval r.ping_interval) h)
    ])
  ]

  handle_parsed-IsClosed :
      (unmarshal : Bytes → Option HandshakeResponse) (c : Client Tr F) (m : EngineParser.Message)
      → IsClosed c
      → OutIsClosed (handle_parsed ts p unmarshal c m)
  unfolding handle_parsed send_packet open_upgrade
  handle_parsed-IsClosed unmarshal c m h =
      let shaken = handle_handshake-IsClosed unmarshal c m.body h in
      let closed = call_handler-IsClosed c c.close_handler [] h in
      let received = call_handler-IsClosed c c.message_handler m.body h in
      ground (arith, shaken, closed, received)

  handle_packet-IsClosed :
      (unmarshal : Bytes → Option HandshakeResponse) (c : Client Tr F) (bs : Bytes)
      → IsClosed c
      → OutIsClosed (handle_packet ts p unmarshal c bs)
  unfolding handle_packet
  handle_packet-IsClosed unmarshal c bs h = elim (Result-cases (p.parse bs)) [
    | inl (f, bad) ↦ rw bad h
    | inr (m, good) ↦ rw good (handle_parsed-IsClosed unmarshal c m h)
  ]

  connect_run-IsClosed : (c : Client Tr F) → IsClosed c → OutIsClosed (connect_run ts c)
  unfolding connect_run
  connect_run-IsClosed c h = rw h tt

  connect_request-IsClosed : (c : Client Tr F) → IsClosed c → OutIsClosed (connect_request ts c)
  unfolding connect_request
  connect_request-IsClosed c h = rw h tt

  close_finish-IsClosed :
      (c : Client Tr F) (t : Option Tr) → IsClosed c → OutIsClosed (close_finish ts c t)
  unfolding close_finish
  close_finish-IsClosed c t h = ground arith

  send_open-none :
      (c : Client Tr F) (m : Bytes) → IsClosed c → send_open ts p c m ≡ done c (some client_closed)
  unfolding send_open
  send_open-none c m h = rw h refl

on-IsClosed :
    {Tr F : Type 0} (c : Client Tr F) (event : Bytes) (f : F) → IsClosed c → IsClosed (on c event f)
unfolding on
on-IsClosed c event f h = ground arith

Step-IsClosed :
    {Tr F : Type 0} {ts : Transports Tr F} {p : Parser}
    {unmarshal : Bytes → Option HandshakeResponse} {c c' : Client Tr F}
    → IsClosed c
    → Step ts p unmarshal c c'
    → IsClosed c'
unfolding close_begin connect_gate
Step-IsClosed {ts = ts} {p = p} {unmarshal = u} {c = c} h (packet bs q) =
    subst OutIsClosed q (handle_packet-IsClosed ts p u c bs h)
Step-IsClosed {ts = ts} {p = p} {c = c} h (sends message (passes a b q)) =
    subst OutIsClosed (sym (send_open-none ts p c message h) ∙ q) h
Step-IsClosed {ts = ts} {p = p} {c = c} h (runs q) =
    subst OutIsClosed q (connect_run-IsClosed ts p c h)
Step-IsClosed h (makes_gate q) = subst IsClosed q h
Step-IsClosed {ts = ts} {p = p} {c = c} h (requests q) =
    subst OutIsClosed q (connect_request-IsClosed ts p c h)
Step-IsClosed {c = c} h (registers event f q) = subst IsClosed q (on-IsClosed c event f h)
Step-IsClosed h (closes q) = subst IsClosed q refl
Step-IsClosed {ts = ts} {p = p} {c = c} h (stops t q) =
    subst OutIsClosed q (close_finish-IsClosed ts p c t h)

Reach-IsClosed :
    {Tr F : Type 0} {ts : Transports Tr F} {p : Parser}
    {unmarshal : Bytes → Option HandshakeResponse} {c c' : Client Tr F}
    → IsClosed c
    → Reach ts p unmarshal c c'
    → IsClosed c'
Reach-IsClosed h here = h
Reach-IsClosed h (next r s) = Step-IsClosed (Reach-IsClosed h r) s

-- Both gates of `Send` let it pass.
abbrev pub IsOpen : {Tr F : Type 0} → Client Tr F → Type 0
IsOpen c = (lets_pass c.wait_handshake ≡ true) × (lets_pass c.wait_upgrade ≡ true)

-- The gates are as they were.
abbrev pub SameGates : {Tr F : Type 0} → Client Tr F → Client Tr F → Type 0
SameGates c d = (d.wait_handshake ≡ c.wait_handshake) × (d.wait_upgrade ≡ c.wait_upgrade)

abbrev pub OutSameGates : {Tr F : Type 0} → Client Tr F → Outcome (Client Tr F) → Type 0
OutSameGates c (done d e) = SameGates c d
OutSameGates c panic = Unit

module _ {Tr F : Type 0} (ts : Transports Tr F) (p : Parser) (c : Client Tr F) where
  -- `Send` of a client with no transport.
  waits_or_fails :
      (message : Bytes) (r : Outcome (Client Tr F))
      → IsClosed c
      → Sends ts p c message r ↔ (IsOpen c × (r ≡ done c (some client_closed)))
  waits_or_fails message r h =
      let fails = send_open-none ts p c message h in
      (elim [ passes a b q ↦ ((a, b), sym q ∙ fails) ], λ f. passes f.0.0 f.0.1 (fails ∙ sym f.1))

  close_finish-OutSameGates : (t : Option Tr) → OutSameGates c (close_finish ts c t)
  unfolding close_finish
  close_finish-OutSameGates t = ground arith

-- A close is final, and opens no gate: once `Close` has begun, whatever steps follow, `Send` can
-- only end with the error for a closed client, with no call of a transport, and it ends exactly when
-- both its gates let it pass; with a gate that is shut it waits, and neither part of `Close` opens
-- one. `Connect` panics.
pub close_final :
    {Tr F : Type 0} (ts : Transports Tr F) (p : Parser)
    (unmarshal : Bytes → Option HandshakeResponse) (c later : Client Tr F) (message : Bytes)
    (r : Outcome (Client Tr F)) (t : Option Tr)
    → Reach ts p unmarshal (close_begin c).0 later
    → (Sends ts p later message r ↔ (IsOpen later × (r ≡ done later (some client_closed))))
      × (SameGates c (close_begin c).0)
      × (OutSameGates later (close_finish ts later t))
      × (connect ts later ≡ panic)
unfolding close_begin connect connect_run
close_final ts p unmarshal c later message r t run =
    let gone = Reach-IsClosed refl run in
    (
      waits_or_fails ts p later message r gone,
      (refl, refl),
      close_finish-OutSameGates ts p later t,
      rw gone refl,
    )
