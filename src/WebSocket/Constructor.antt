-- ===== src/WebSocket/Constructor.antt =====
-- engine.io/v4/client/transport/websocket/constructor.go: `NewTransport` and its options. `L` and
-- `W` stand for loggers and connections.
use go_socket_io.Base.{
  Bool, true, false, not, Option, none, some, List, [], ◌∷◌, Result, ok, err, ◌>>=◌,
}
use go_socket_io.Url.{Url}
use go_socket_io.WebSocket.{Transport}

pub data ConfigError : Type 0 where
  nil_logger nil_web_socket : ConfigError

pub record Config (L W : Type 0) : Type 0 where
  pub log : Option L
  pub ws : Option W
  pub origin : Option Url
  pub redact_payload : Bool

abbrev pub EngineTransportOption : Type 0 → Type 0 → Type 0
EngineTransportOption L W = Config L W → Result ConfigError (Config L W)

module _ {L W : Type 0} where
  unfoldable pub with_logger : Option L → EngineTransportOption L W
  with_logger logger c = ok (record c { log = logger })

  unfoldable pub with_web_socket : Option W → EngineTransportOption L W
  with_web_socket ws c = ok (record c { ws = ws })

  unfoldable pub with_origin : Option Url → EngineTransportOption L W
  with_origin origin c = ok (record c { origin = origin })

  unfoldable pub with_debug_payload : Bool → EngineTransportOption L W
  with_debug_payload enabled c = ok (record c { redact_payload = not enabled })

  unfoldable pub apply_options :
      List (EngineTransportOption L W) → Config L W → Result ConfigError (Config L W)
  apply_options [] c = ok c
  apply_options (opt ∷ opts) c = do c' ← opt c; apply_options opts c'

  abbrev check_web_socket : Config L W → Option W → Result ConfigError (Config L W)
  check_web_socket c none = err nil_web_socket
  check_web_socket c (some w) = ok c

  -- The checks behind the options.
  abbrev pub check : Config L W → Option L → Result ConfigError (Config L W)
  check c none = err nil_logger
  check c (some l) = check_web_socket c c.ws

  -- `NewTransport`, from the default logger and connection.
  unfoldable pub new_transport :
      L → W → List (EngineTransportOption L W) → Result ConfigError (Config L W)
  unfolding apply_options
  new_transport log ws options = do
    c ←
        apply_options options
          (record { log = some log; ws = some ws; origin = none; redact_payload = true })
    check c c.log

  -- The transport of a configuration, before its first run.
  unfoldable pub to_transport : Config L W → Transport
  to_transport c = record { url = none; origin = c.origin; sid = []; stop_pooling = false }
