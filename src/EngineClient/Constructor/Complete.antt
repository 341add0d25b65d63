-- ===== src/EngineClient/Constructor/Complete.antt =====
-- engine.io/v4/client/constructor.go: what a client that `NewClient` returns has.
use mathlib.Core.Path.{subst}
use go_socket_io.Base.{
  equal, ◌≡◌, ◌≢◌, Option, none, List, [], ◌∷◌, Bytes, ok, codes, arith, >>=-eq-ok, ok-inj,
}
use go_socket_io.EngineClient.{Parser}
use go_socket_io.EngineClient.Handshake.{find_transport}
use go_socket_io.EngineClient.Constructor.{
  apply_options, defaults, finish, Config, EngineClientOption, default_transports, pick_transport,
  complete, check, new_client,
}

-- Nothing that the client needs is nil, but for a transport when none of the two names is supported.
abbrev pub IsComplete : {L Tr : Type 0} → Config L Tr → Type 0
IsComplete c =
    (c.url ≢ none)
    × (c.log ≢ none)
    × (c.parser ≢ none)
    × (c.supported_transports ≢ [])
    × (c.transport ≡ none
        → (find_transport c.supported_transports (codes "polling") ≡ none)
          × (find_transport c.supported_transports (codes "websocket") ≡ none))

pick_transport-none :
    {Tr : Type 0} (t : Option Tr) (supported : List (Bytes × Tr))
    → pick_transport t supported ≡ none
    → (find_transport supported (codes "polling") ≡ none)
      × (find_transport supported (codes "websocket") ≡ none)
pick_transport-none t supported h = ground arith

default_transports-filled :
    {Tr : Type 0} (ts : List (Bytes × Tr)) (ws polling : Tr) → default_transports ts ws polling ≢ []
unfolding equal
default_transports-filled [] ws polling = ground arith
default_transports-filled (t ∷ ts) ws polling = ground arith

module _ {L Tr : Type 0} where
  check-ok :
      (c d : Config L Tr)
      → check c c.url ≡ ok d
      → (c ≡ d) × (c.url ≢ none) × (c.log ≢ none) × (c.parser ≢ none)
  check-ok c d h = ground arith

  complete-IsComplete :
      (ws polling : Tr) (c d : Config L Tr)
      → check c c.url ≡ ok d
      → IsComplete (complete ws polling d)
  complete-IsComplete ws polling c d h =
      let (same, url, log, parser) = check-ok c d h in
      subst (λ x. IsComplete (complete ws polling x)) same
        (
          url,
          log,
          parser,
          default_transports-filled c.supported_transports ws polling,
          pick_transport-none c.transport (default_transports c.supported_transports ws polling),
        )

  finish-IsComplete :
      (ws polling : Tr) (c d : Config L Tr) → finish ws polling c ≡ ok d → IsComplete d
  finish-IsComplete ws polling c d h =
      let (e, checked, last) = >>=-eq-ok (check c c.url) (λ x. ok (complete ws polling x)) h in
      subst IsComplete {x = complete ws polling e} (ok-inj last)
        (complete-IsComplete ws polling c e checked)

  -- A client that `NewClient` returns, whatever options it was given, has a URL, a logger, a parser
  -- and some supported transport, and it has a transport unless neither of the two names of the
  -- library is supported.
  pub new_client-IsComplete :
      (log : L) (p : Parser) (ws polling : Tr) (options : List (EngineClientOption L Tr))
      {c : Config L Tr}
      → new_client log p ws polling options ≡ ok c
      → IsComplete c
  unfolding new_client
  new_client-IsComplete log p ws polling options {c = c} h =
      let (d, applied, rest) =
        >>=-eq-ok (apply_options options (defaults log p)) (finish ws polling) h in
      finish-IsComplete ws polling d c rest
