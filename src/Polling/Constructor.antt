-- ===== src/Polling/Constructor.antt =====
-- engine.io/v4/client/transport/polling/constructor.go: `NewTransport` and its options. `L`, `H` and
-- `P` stand for loggers, HTTP clients and tickers.
use go_socket_io.Base.{
  ◌*◌, Bool, true, false, not, Option, none, some, List, [], ◌∷◌, Result, ok, err, ◌>>=◌,
  if◌then◌else◌,
}
use go_socket_io.Base.Int.{ℤ, pos, is_nonpos}
use go_socket_io.EngineClient.{absent, shut}
use go_socket_io.Polling.{Transport}

-- `panicked` stands for the nil dereference of `WithDefaultPinger` on a transport with no ticker.
pub data ConfigError : Type 0 where
  nil_pinger nil_logger nil_http_client size_not_positive panicked : ConfigError

pub record Config (L H P : Type 0) : Type 0 where
  pub log : Option L
  pub http_client : Option H
  pub pinger : Option P
  pub max_payload_size : ℤ
  pub redact_payload : Bool

abbrev pub EngineTransportOption : Type 0 → Type 0 → Type 0 → Type 0
EngineTransportOption L H P = Config L H P → Result ConfigError (Config L H P)

abbrev period_of : {P : Type 0} → (P → ℤ) → Option P → ℤ
period_of period none = pos 0
period_of period (some pinger) = period pinger

module _ {L H P : Type 0} where
  unfoldable pub with_logger : Option L → EngineTransportOption L H P
  with_logger logger c = ok (record c { log = logger })

  unfoldable pub with_http_client : Option H → EngineTransportOption L H P
  with_http_client http_client c = ok (record c { http_client = http_client })

  abbrev replace_pinger : Config L H P → Option P → Option P → Result ConfigError (Config L H P)
  replace_pinger c none pinger = err panicked
  replace_pinger c (some old) pinger = ok (record c { pinger = pinger })

  -- The old ticker is stopped first.
  unfoldable pub with_default_pinger : Option P → EngineTransportOption L H P
  with_default_pinger pinger c = replace_pinger c c.pinger pinger

  unfoldable pub with_max_payload_size : ℤ → EngineTransportOption L H P
  with_max_payload_size size c =
      if is_nonpos size then err size_not_positive else ok (record c { max_payload_size = size })

  unfoldable pub with_debug_payload : Bool → EngineTransportOption L H P
  with_debug_payload enabled c = ok (record c { redact_payload = not enabled })

  unfoldable pub apply_options :
      List (EngineTransportOption L H P) → Config L H P → Result ConfigError (Config L H P)
  apply_options [] c = ok c
  apply_options (opt ∷ opts) c = do c' ← opt c; apply_options opts c'

  abbrev check_http_client : Config L H P → Option H → Result ConfigError (Config L H P)
  check_http_client c none = err nil_http_client
  check_http_client c (some h) = ok c

  abbrev check_logger : Config L H P → Option L → Result ConfigError (Config L H P)
  check_logger c none = err nil_logger
  check_logger c (some l) = check_http_client c c.http_client

  -- The checks behind the options.
  abbrev pub check : Config L H P → Option P → Result ConfigError (Config L H P)
  check c none = err nil_pinger
  check c (some p) = check_logger c c.log

  -- The transport before the options: a limit of 4 MB.
  abbrev pub defaults : L → H → P → Config L H P
  defaults log http_client pinger = record {
    log = some log;
    http_client = some http_client;
    pinger = some pinger;
    max_payload_size = pos (4 * 1024 * 1024);
    redact_payload = true;
  }

  -- `NewTransport`, from the default logger, client and ticker.
  unfoldable pub new_transport :
      L → H → P → List (EngineTransportOption L H P) → Result ConfigError (Config L H P)
  unfolding apply_options
  new_transport log http_client pinger options = do
    c ← apply_options options (defaults log http_client pinger)
    check c c.pinger

  -- The transport of a configuration, before its first run; `period` is that of a ticker.
  unfoldable pub to_transport : (P → ℤ) → Config L H P → Transport
  to_transport period c = record {
    url = none;
    sid = [];
    has_messages = false;
    has_on_close = false;
    handshake_done = absent;
    stop_ch = shut;
    stop_once = false;
    stop_pooling = false;
    cancelled = false;
    stopped = false;
    pinger = period_of period c.pinger;
    max_payload_size = c.max_payload_size;
  }
