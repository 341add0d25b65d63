-- ===== src/EngineClient/Constructor.antt =====
-- engine.io/v4/client/constructor.go: `NewClient` and its options. A logger is there or nil; URLs
-- are those of net/url.
pub mod Complete
mod Tests
use go_socket_io.Base.{
  ℕ, Bool, true, false, ◌||◌, not, Option, none, some, List, [], ◌∷◌, Bytes, Result, ok, err, ◌>>=◌,
  codes, equal, if◌then◌else◌,
}
use go_socket_io.Base.Int.{ℤ, pos}
use go_socket_io.Url.{Url, UrlLibrary, set_value}
use go_socket_io.EngineClient.{Parser, Gate, absent, Client}
use go_socket_io.EngineClient.Handshake.{find_transport}

pub data ConfigError : Type 0 where
  invalid_scheme : Bytes → ConfigError
  bad_url nil_transport nil_url nil_logger nil_parser : ConfigError

-- What the options set. A transport map that is nil is empty here.
pub record Config (L Tr : Type 0) : Type 0 where
  pub url : Option Url
  pub log : Option L
  pub parser : Option Parser
  pub transport : Option Tr
  pub supported_transports : List (Bytes × Tr)
  pub reconnect_attempts : ℤ
  pub reconnect_wait : ℤ
  pub redact_payload : Bool

abbrev pub EngineClientOption : Type 0 → Type 0 → Type 0
EngineClientOption L Tr = Config L Tr → Result ConfigError (Config L Tr)

-- The query with the parameter EIO set to 4.
abbrev pub eio_query : UrlLibrary → Bytes → Bytes
eio_query lib raw_query =
    lib.encode (set_value (lib.parse_query raw_query) (codes "EIO") (codes "4"))

module _ {Tr : Type 0} where
  -- A map entry is set.
  abbrev pub put_transport : List (Bytes × Tr) → Bytes → Tr → List (Bytes × Tr)
  put_transport [] n t = (n, t) ∷ []
  put_transport ((m, s) ∷ rest) n t =
      let later = put_transport rest n t in if equal m n then (n, t) ∷ rest else (m, s) ∷ later

  -- With no supported transports there are the two of the library.
  abbrev pub default_transports : List (Bytes × Tr) → Tr → Tr → List (Bytes × Tr)
  default_transports [] ws polling =
      put_transport (put_transport [] (codes "websocket") ws) (codes "polling") polling
  default_transports (t ∷ ts) ws polling = t ∷ ts

  abbrev pub polling_or : List (Bytes × Tr) → Option Tr → Option Tr
  polling_or supported none = find_transport supported (codes "websocket")
  polling_or supported (some t) = some t

  abbrev pub pick_transport : Option Tr → List (Bytes × Tr) → Option Tr
  pick_transport (some t) supported = some t
  pick_transport none supported = polling_or supported (find_transport supported (codes "polling"))

module _ {L Tr : Type 0} where
  abbrev with_scheme : UrlLibrary → Config L Tr → Url → Bytes → Result ConfigError (Config L Tr)
  with_scheme lib c url s =
      ok (record c {
        url = some (record url { scheme = s; raw_query = eio_query lib url.raw_query });
      })

  -- `WithURL`
  unfoldable pub with_url : UrlLibrary → Url → EngineClientOption L Tr
  with_url lib url c =
      if equal url.scheme (codes "http") || equal url.scheme (codes "https")
      then with_scheme lib c url url.scheme
      else if equal url.scheme (codes "ws")
      then with_scheme lib c url (codes "http")
      else if equal url.scheme (codes "wss")
      then with_scheme lib c url (codes "https")
      else err (invalid_scheme url.scheme)

  abbrev with_parsed : UrlLibrary → Option Url → EngineClientOption L Tr
  with_parsed lib none c = err bad_url
  with_parsed lib (some url) c = with_url lib url c

  -- `WithRawURL`; `parse_url` is `url.Parse`.
  unfoldable pub with_raw_url : UrlLibrary → (Bytes → Option Url) → Bytes → EngineClientOption L Tr
  unfolding with_url
  with_raw_url lib parse_url raw = with_parsed lib (parse_url raw)

  unfoldable pub with_logger : Option L → EngineClientOption L Tr
  with_logger logger c = ok (record c { log = logger })

  unfoldable pub with_transport : Option Tr → EngineClientOption L Tr
  with_transport transport c = ok (record c { transport = transport })

  -- `WithSupportedTransports`; an error leaves no client.
  unfoldable pub with_supported_transports :
      (Tr → Bytes) → List (Option Tr) → EngineClientOption L Tr
  with_supported_transports name [] c = ok c
  with_supported_transports name (none ∷ ts) c = err nil_transport
  with_supported_transports name (some t ∷ ts) c =
      with_supported_transports name ts
        (record c { supported_transports = put_transport c.supported_transports (name t) t })

  unfoldable pub with_parser : Option Parser → EngineClientOption L Tr
  with_parser parser c = ok (record c { parser = parser })

  unfoldable pub with_reconnect_attempts : ℤ → EngineClientOption L Tr
  with_reconnect_attempts attempts c = ok (record c { reconnect_attempts = attempts })

  unfoldable pub with_reconnect_wait : ℤ → EngineClientOption L Tr
  with_reconnect_wait wait c = ok (record c { reconnect_wait = wait })

  unfoldable pub with_debug_payload : Bool → EngineClientOption L Tr
  with_debug_payload enabled c = ok (record c { redact_payload = not enabled })

  unfoldable pub apply_options :
      List (EngineClientOption L Tr) → Config L Tr → Result ConfigError (Config L Tr)
  apply_options [] c = ok c
  apply_options (opt ∷ opts) c = do c' ← opt c; apply_options opts c'

  abbrev pub check_parser : Config L Tr → Option Parser → Result ConfigError (Config L Tr)
  check_parser c none = err nil_parser
  check_parser c (some p) = ok c

  abbrev pub check_logger : Config L Tr → Option L → Result ConfigError (Config L Tr)
  check_logger c none = err nil_logger
  check_logger c (some l) = check_parser c c.parser

  -- The checks behind the options.
  abbrev pub check : Config L Tr → Option Url → Result ConfigError (Config L Tr)
  check c none = err nil_url
  check c (some url) = check_logger c c.log

  abbrev pub complete : Tr → Tr → Config L Tr → Config L Tr
  complete ws polling c =
      let supported = default_transports c.supported_transports ws polling in
      record c {
        supported_transports = supported;
        transport = pick_transport c.transport supported;
      }

  -- The configuration before the options.
  abbrev pub defaults : L → Parser → Config L Tr
  defaults log parser = record {
    url = none;
    log = some log;
    parser = some parser;
    transport = none;
    supported_transports = [];
    reconnect_attempts = pos 5;
    reconnect_wait = pos 5000000000;
    redact_payload = true;
  }

  -- What `NewClient` does behind the options.
  abbrev pub finish : Tr → Tr → Config L Tr → Result ConfigError (Config L Tr)
  finish ws polling c = do checked ← check c c.url; ok (complete ws polling checked)

  -- `NewClient`: the configuration that it ends with, from the default logger and parser, and the
  -- transports of the library, which are made with the options' logger.
  unfoldable pub new_client :
      L → Parser → Tr → Tr → List (EngineClientOption L Tr) → Result ConfigError (Config L Tr)
  unfolding apply_options find_transport
  new_client log parser ws polling options = do
    c ← apply_options options (defaults log parser)
    finish ws polling c

  -- The client of a configuration; its ticker runs with a period of ten seconds.
  unfoldable pub to_client : {F : Type 0} → Config L Tr → Client Tr F
  to_client c = record {
    transport = c.transport;
    supported_transports = c.supported_transports;
    sid = [];
    ping_interval = some (pos 10000000000);
    ticking = true;
    ping_timeout = pos 0;
    message_handler = none;
    close_handler = none;
    after_connect = none;
    wait_upgrade = absent;
    had_upgrade = false;
    wait_handshake = absent;
    had_handshake = false;
    messages = absent;
    calls = [];
  }
