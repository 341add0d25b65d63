-- ===== src/EngineClient/Handshake/Gates.antt =====
-- engine.io/v4/client/client.go: how a handshake and an upgrade leave the gates at which `Send` waits.
use go_socket_io.Base.{
  ◌≡◌, ◌≢◌, Option, none, some, List, [], ◌∷◌, Bytes, arith, Bool-cases, inl, inr, equal, equal_iff,
}
use go_socket_io.Base.Int.{ℤ}
use go_socket_io.EngineClient.{
  HandshakeResponse, Error, Parser, shut, opened, Client, Transports, Outcome, done, panic,
  open_upgrade, open_handshake, send_packet,
}
use go_socket_io.EngineClient.Gates.{IsGated, OutIsGated, upgrade_among-IsGated}
use go_socket_io.EngineClient.Handshake.{
  transport_upgrade, handle_handshake, choose_upgrade, connected, upgraded, upgrade_to,
  upgrade_among, with_interval, told, new_interval, start_after_connect,
}

-- What an upgrade comes to: with an error the gate is open, and with none it is shut until the
-- answer to the probe, on the new transport.
abbrev pub IsUpgraded : {Tr F : Type 0} → Tr → Outcome (Client Tr F) → Type 0
IsUpgraded new panic = Unit
IsUpgraded new (done c none) = (c.wait_upgrade ≡ shut) × (c.transport ≡ some new)
IsUpgraded new (done c (some e)) = c.wait_upgrade ≡ opened

-- The upgrade ended with no error, or its gate is open.
abbrev NotBlocked : {Tr F : Type 0} → Outcome (Client Tr F) → Type 0
NotBlocked panic = Unit
NotBlocked (done c none) = Unit
NotBlocked (done c (some e)) = c.wait_upgrade ≡ opened

-- The gate of the handshake is open, and so is the gate of the upgrade if there was an error.
abbrev pub IsShaken : {Tr F : Type 0} → Outcome (Client Tr F) → Type 0
IsShaken panic = Unit
IsShaken (done c none) = c.wait_handshake ≡ opened
IsShaken (done c (some e)) = (c.wait_handshake ≡ opened) × (c.wait_upgrade ≡ opened)

module _ {Tr F : Type 0} (ts : Transports Tr F) (p : Parser) where
  -- An upgrade that fails at any point, whatever the transports return, leaves its gate open, so no
  -- `Send` waits for good; one that does not fail leaves the gate shut and the new transport in use.
  pub transport_upgrade-IsUpgraded :
      (c : Client Tr F) (new : Tr) → IsUpgraded new (transport_upgrade ts p c new)
  unfolding transport_upgrade open_upgrade send_packet
  transport_upgrade-IsUpgraded c new = ground arith

module _ {Tr F : Type 0} where
  IsUpgraded-NotBlocked : (new : Tr) (r : Outcome (Client Tr F)) → IsUpgraded new r → NotBlocked r
  IsUpgraded-NotBlocked new panic h = tt
  IsUpgraded-NotBlocked new (done c none) h = tt
  IsUpgraded-NotBlocked new (done c (some e)) h = h

  start_after_connect-opened :
      (c : Client Tr F) (f : Option F)
      → c.wait_handshake ≡ opened
      → (start_after_connect c f).wait_handshake ≡ opened
  start_after_connect-opened c none h = h
  start_after_connect-opened c (some f) h = h

  connected-IsShaken : (r : Outcome (Client Tr F)) → IsShaken r → IsShaken (connected r)
  connected-IsShaken panic h = tt
  connected-IsShaken (done c none) h = start_after_connect-opened c c.after_connect h
  connected-IsShaken (done c (some e)) h = start_after_connect-opened c c.after_connect h.0

  open_handshake-IsShaken :
      (c : Client Tr F) (e : Option Error)
      → IsGated c
      → NotBlocked (done c e)
      → IsShaken (open_handshake c e)
  unfolding open_handshake
  open_handshake-IsShaken c none g h = ground arith
  open_handshake-IsShaken c (some e) g h = ground arith

  upgraded-IsShaken :
      (r : Outcome (Client Tr F)) → OutIsGated r → NotBlocked r → IsShaken (upgraded r)
  upgraded-IsShaken panic g h = tt
  upgraded-IsShaken (done c none) g h =
      connected-IsShaken (open_handshake c none) (open_handshake-IsShaken c none g h)
  upgraded-IsShaken (done c (some e)) g h = open_handshake-IsShaken c (some e) g h

module _ {Tr F : Type 0} (ts : Transports Tr F) (p : Parser) where
  upgrade_to-NotBlocked : (c : Client Tr F) (t : Option Tr) → NotBlocked (upgrade_to ts p c t)
  upgrade_to-NotBlocked c none = tt
  upgrade_to-NotBlocked c (some new) =
      IsUpgraded-NotBlocked new _ (transport_upgrade-IsUpgraded ts p c new)

  upgrade_among-NotBlocked :
      (c : Client Tr F) (t : Option Tr) (names : List Bytes)
      → NotBlocked (upgrade_among ts p c t names)
  upgrade_among-NotBlocked c none [] = tt
  upgrade_among-NotBlocked c (some t) [] = tt
  upgrade_among-NotBlocked c none (n ∷ ns) = tt
  upgrade_among-NotBlocked c (some t) (n ∷ ns) =
      upgrade_to-NotBlocked c (choose_upgrade (ts.name t) c.supported_transports (n ∷ ns))

  with_interval-IsShaken :
      (c : Client Tr F) (r : HandshakeResponse) (o : Option (Option ℤ))
      → IsGated c
      → IsShaken (with_interval ts p c r o)
  with_interval-IsShaken c r none g = tt
  with_interval-IsShaken c r (some interval) g =
      upgraded-IsShaken _ (upgrade_among-IsGated ts p _ c.transport r.upgrades g)
        (upgrade_among-NotBlocked _ c.transport r.upgrades)

  -- A handshake with a session id, from a state in which every closed gate has its `Once` done,
  -- opens the gate of the handshake whether the upgrade fails or not, unless it panics; and when it
  -- returns an error, the gate of the upgrade is open as well.
  pub handle_handshake-IsShaken :
      (unmarshal : Bytes → Option HandshakeResponse) (c : Client Tr F) (body : Bytes)
      (r : HandshakeResponse)
      → IsGated c
      → unmarshal body ≡ some r
      → r.sid ≢ []
      → IsShaken (handle_handshake ts p unmarshal c body)
  unfolding handle_handshake
  handle_handshake-IsShaken unmarshal c body r g read named =
      rw read (elim (Bool-cases (equal r.sid [])) [
        | inl unnamed ↦ absurd (named ((equal_iff r.sid []).0 unnamed))
        | inr named' ↦
            rw named'
              (with_interval-IsShaken (told c r) r (new_interval c.ping_interval r.ping_interval) g)
      ])
