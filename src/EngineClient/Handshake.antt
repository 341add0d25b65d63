-- ===== src/EngineClient/Handshake.antt =====
-- engine.io/v4/client/client.go: `handleHandshake` and `transportUpgrade`.
pub mod Gates
pub mod Choice
use go_socket_io.Base.{
  not, ◌||◌, ℕ, zero, suc, ◌+◌, ◌-◌, ◌*◌, ◌^◌, ◌%◌, Bool, true, false, Option, none, some, List, [],
  ◌∷◌, Bytes, Result, ok, err, codes, equal, ltb, leb, ◌==◌, if◌then◌else◌,
}
use go_socket_io.Base.Int.{ℤ, pos, negsuc, is_nonpos, wrap_pos, wrap_neg}
use go_socket_io.EngineParser.{packet_ping}
use go_socket_io.EngineClient.{
  HandshakeResponse, Error, bad_json, no_sid, Parser, Call, run, set_handshake, stop, start_handler,
  Gate, shut, opened, Client, Transports, Outcome, done, panic, after, open_upgrade, open_handshake,
  send_packet, packet_of,
}

-- `time.Duration(n) * time.Millisecond`
unfoldable pub milliseconds : ℤ → ℤ
milliseconds (pos n) = wrap_pos (n * 1000000 % 2 ^ 64)
milliseconds (negsuc n) = wrap_neg (suc n * 1000000 % 2 ^ 64)

abbrev pub is_zero : ℤ → Bool
is_zero (pos zero) = true
is_zero (pos (suc n)) = false
is_zero (negsuc n) = false

-- The period of the ticker after a handshake; `none` when `NewTicker` or `Reset` panics.
unfoldable pub new_interval : Option ℤ → ℤ → Option (Option ℤ)
unfolding milliseconds
new_interval old n =
    if is_zero n
    then some old
    else if is_nonpos (milliseconds n)
    then none
    else some (some (milliseconds n))

unfoldable pub new_timeout : ℤ → ℤ → ℤ
unfolding milliseconds
new_timeout old n = if is_zero n then old else milliseconds n

module _ {Tr : Type 0} where
  -- A look-up in `supportedTransports`.
  unfoldable pub find_transport : List (Bytes × Tr) → Bytes → Option Tr
  find_transport [] n = none
  find_transport ((m, t) ∷ rest) n = if equal m n then some t else find_transport rest n

  abbrev first_found : Option Tr → Option Tr → Option Tr
  first_found none later = later
  first_found (some t) later = some t

  -- The loop over the upgrades: the transport to change to. It ends at the name of the transport in
  -- use.
  unfoldable pub choose_upgrade : Bytes → List (Bytes × Tr) → List Bytes → Option Tr
  unfolding find_transport
  choose_upgrade current supported [] = none
  choose_upgrade current supported (n ∷ ns) =
      let later = choose_upgrade current supported ns in
      if equal current n then none else first_found (find_transport supported n) later

module _ {Tr F : Type 0} where
  -- The loop over the supported transports, whose order Go leaves open.
  unfoldable pub tell_transports :
      HandshakeResponse → List (Bytes × Tr) → List (Call Tr F) → List (Call Tr F)
  tell_transports r [] calls = calls
  tell_transports r ((n, t) ∷ rest) calls = tell_transports r rest (set_handshake t r ∷ calls)

module _ {Tr F : Type 0} where
  abbrev pub start_after_connect : Client Tr F → Option F → Client Tr F
  start_after_connect c none = c
  start_after_connect c (some f) = after c (start_handler f)

  abbrev pub connected : Outcome (Client Tr F) → Outcome (Client Tr F)
  connected panic = panic
  connected (done c e) = done (start_after_connect c c.after_connect) none

  abbrev pub upgraded : Outcome (Client Tr F) → Outcome (Client Tr F)
  upgraded panic = panic
  upgraded (done c (some e)) = open_handshake c (some e)
  upgraded (done c none) = connected (open_handshake c none)

  abbrev pub told : Client Tr F → HandshakeResponse → Client Tr F
  told c r = record c { calls = tell_transports r c.supported_transports c.calls; sid = r.sid }

module _ {Tr F : Type 0} (ts : Transports Tr F) (p : Parser) where
  abbrev probe_sent : Outcome (Client Tr F) → Outcome (Client Tr F)
  probe_sent panic = panic
  probe_sent (done c none) = done c none
  probe_sent (done c (some e)) = open_upgrade c (some e)

  abbrev started : Client Tr F → Option Error → Outcome (Client Tr F)
  started c (some e) = open_upgrade c (some e)
  started c none = probe_sent (send_packet ts p c (some (packet_of packet_ping (codes "probe"))))

  abbrev stopped : Client Tr F → Tr → Option Error → Outcome (Client Tr F)
  stopped c new (some e) = open_upgrade c (some e)
  stopped c new none =
      started (after (record c { transport = some new }) (run new c.sid))
        (ts.answer c.calls (run new c.sid))

  abbrev stop_old : Client Tr F → Option Tr → Tr → Outcome (Client Tr F)
  stop_old c none new = panic
  stop_old c (some old) new = stopped (after c (stop old)) new (ts.answer c.calls (stop old))

  -- `transportUpgrade`
  unfoldable pub transport_upgrade : Client Tr F → Tr → Outcome (Client Tr F)
  unfolding open_upgrade send_packet
  transport_upgrade c new =
      stop_old (record c { wait_upgrade = shut; had_upgrade = false }) c.transport new

  abbrev pub upgrade_to : Client Tr F → Option Tr → Outcome (Client Tr F)
  upgrade_to c none = done c none
  upgrade_to c (some new) = transport_upgrade c new

  abbrev pub upgrade_among : Client Tr F → Option Tr → List Bytes → Outcome (Client Tr F)
  upgrade_among c t [] = done c none
  upgrade_among c none (n ∷ ns) = panic
  upgrade_among c (some t) (n ∷ ns) =
      upgrade_to c (choose_upgrade (ts.name t) c.supported_transports (n ∷ ns))

  abbrev pub with_interval :
      Client Tr F → HandshakeResponse → Option (Option ℤ) → Outcome (Client Tr F)
  with_interval c r none = panic
  with_interval c r (some interval) = upgraded (
      upgrade_among
        (record c {
          ping_interval = interval;
          ticking = c.ticking || not (is_zero r.ping_interval);
          ping_timeout = new_timeout c.ping_timeout r.ping_timeout;
        })
        c.transport r.upgrades)

  abbrev pub apply_handshake : Client Tr F → HandshakeResponse → Outcome (Client Tr F)
  apply_handshake c r =
      if equal r.sid []
      then done c (some no_sid)
      else with_interval (told c r) r (new_interval c.ping_interval r.ping_interval)

  abbrev pub read_handshake : Client Tr F → Option HandshakeResponse → Outcome (Client Tr F)
  read_handshake c none = done c (some bad_json)
  read_handshake c (some r) = apply_handshake c r

  -- `handleHandshake`. `json.Unmarshal` into a response is a parameter.
  unfoldable pub handle_handshake :
      (Bytes → Option HandshakeResponse) → Client Tr F → Bytes → Outcome (Client Tr F)
  unfolding open_handshake transport_upgrade tell_transports new_interval new_timeout choose_upgrade
  handle_handshake unmarshal c body = read_handshake c (unmarshal body)
