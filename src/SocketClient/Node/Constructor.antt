-- ===== src/SocketClient/Node/Constructor.antt =====
-- socket.io/v5/client/constructor.go: `NewClient` and its options. `L`, `T`, `P` and `G` stand for
-- loggers, timers, parsers and foreign Engine.IO clients.
pub mod Wired
use go_socket_io.Base.{
  Bool, true, false, not, Option, none, some, List, [], ◌∷◌, Bytes, Result, ok, err, ◌>>=◌, codes,
  equal, if◌then◌else◌,
}
use go_socket_io.Url.{Url, UrlLibrary}
use go_socket_io.EngineClient as EngineClient
use go_socket_io.EngineClient.Constructor as EngineConstructor
use go_socket_io.EngineClient.Lifecycle as Lifecycle
use go_socket_io.SocketClient.{Client, namespace}
use go_socket_io.SocketClient.Node.{Handler, connect_socket_io, on_message}

pub data ConfigError : Type 0 where
  nil_logger nil_timer url_or_engine bad_url : ConfigError
  engine_error : EngineConstructor.ConfigError → ConfigError

-- `InitClient`, the fields that the options set.
pub record InitClient (L T P G : Type 0) : Type 0 where
  pub engineio : Option G
  pub url : Option Url
  pub default_ns_name : Option Bytes
  pub logger : Option L
  pub timer : Option T
  pub parser : Option P
  pub redact_payload : Bool

abbrev pub ClientOption : Type 0 → Type 0 → Type 0 → Type 0 → Type 0
ClientOption L T P G = InitClient L T P G → Result ConfigError (InitClient L T P G)

-- The path of a URL without one.
unfoldable pub with_default_path : Url → Url
with_default_path url = if equal url.path [] then record url { path = codes "/socket.io/" } else url

module _ {L T P G : Type 0} where
  unfoldable pub with_url : Url → ClientOption L T P G
  unfolding with_default_path
  with_url url c = ok (record c { url = some (with_default_path url) })

  -- `parse_url` is `url.Parse`.
  unfoldable pub with_raw_url : (Bytes → Option Url) → Bytes → ClientOption L T P G
  unfolding with_default_path
  with_raw_url parse_url raw c = elim (parse_url raw) [
    | none ↦ err bad_url
    | some url ↦ ok (record c { url = some (with_default_path url) })
  ]

  unfoldable pub with_engine_io_client : Option G → ClientOption L T P G
  with_engine_io_client engineio c = ok (record c { engineio = engineio })

  unfoldable pub with_default_namespace : Bytes → ClientOption L T P G
  with_default_namespace ns c = ok (record c { default_ns_name = some ns })

  unfoldable pub with_logger : Option L → ClientOption L T P G
  with_logger logger c = ok (record c { logger = logger })

  unfoldable pub with_timer : Option T → ClientOption L T P G
  with_timer timer c = ok (record c { timer = timer })

  unfoldable pub with_parser : Option P → ClientOption L T P G
  with_parser parser c = ok (record c { parser = parser })

  unfoldable pub with_debug_payload : Bool → ClientOption L T P G
  with_debug_payload enabled c = ok (record c { redact_payload = not enabled })

  unfoldable pub apply_options :
      List (ClientOption L T P G) → InitClient L T P G → Result ConfigError (InitClient L T P G)
  apply_options [] c = ok c
  apply_options (opt ∷ opts) c = do c' ← opt c; apply_options opts c'

-- The Engine.IO client of a new client: one that was given, or one that was made, with the handlers
-- registered on it.
pub data Engine (Tr G : Type 0) : Type 0 where
  given : G → Engine Tr G
  made : EngineClient.Client Tr Handler → Engine Tr G

pub record Made (H A T D Tr P G : Type 0) : Type 0 where
  pub socket : Client H A T D
  pub engine : Engine Tr G
  pub parser : P

-- What `NewClient` takes from elsewhere: the defaults, the default parser of each client, net/url,
-- and the transports of the Engine.IO client.
pub record Defaults (L T D P Tr : Type 0) : Type 0 where
  pub log : L
  pub timer : T
  pub handshake_data : D
  pub new_parser : L → P
  pub url_library : UrlLibrary
  pub packets : EngineClient.Parser
  pub websocket : Tr
  pub polling : Tr

module _ {L T D P Tr : Type 0} (ds : Defaults L T D P Tr) where
  abbrev to_config_error :
      Result EngineConstructor.ConfigError (EngineConstructor.Config L Tr)
      → Result ConfigError (EngineClient.Client Tr Handler)
  to_config_error (err e) = err (engine_error e)
  to_config_error (ok c) = ok (EngineConstructor.to_client c)

  -- The Engine.IO client for a URL.
  unfoldable pub new_engine : Url → L → Bool → Result ConfigError (EngineClient.Client Tr Handler)
  unfolding EngineConstructor.new_client EngineConstructor.to_client
  new_engine url log redact = to_config_error (
      EngineConstructor.new_client ds.log ds.packets ds.websocket ds.polling (
        EngineConstructor.with_url ds.url_library url
        ∷ EngineConstructor.with_logger (some log)
        ∷ EngineConstructor.with_debug_payload (not redact)
        ∷ []))

-- `engineio.On`, twice.
unfoldable pub register_handlers :
    {Tr : Type 0} → EngineClient.Client Tr Handler → EngineClient.Client Tr Handler
register_handlers e =
    Lifecycle.on (Lifecycle.on e (codes "connect") connect_socket_io) (codes "message") on_message

abbrev pub name_or_root : Option Bytes → Bytes
name_or_root none = codes "/"
name_or_root (some ns) = ns

abbrev pub or_default : {X : Type 0} → X → Option X → X
or_default x none = x
or_default x (some y) = y

-- The client before its default namespace is made.
abbrev empty_client : {H A F D : Type 0} → D → Bytes → Client H A F D
empty_client d ns = record {
  handshake_data = d;
  namespaces = λ n. none;
  default_ns = ns;
  ack_callbacks = λ n. none;
  ack_counter = 0;
  waiters = λ n. none;
}

module _ {L T D P Tr G : Type 0} (ds : Defaults L T D P Tr) where
  -- Either a URL or an Engine.IO client is given, not both.
  abbrev pub pick_engine : Option G → Option Url → L → Bool → Result ConfigError (Engine Tr G)
  pick_engine none none log redact = err url_or_engine
  pick_engine (some g) (some url) log redact = err url_or_engine
  pick_engine (some g) none log redact = ok (given g)
  pick_engine none (some url) log redact = do
    e ← new_engine ds url log redact
    ok (made (register_handlers e))

  -- The fields before the options.
  abbrev pub init_client : InitClient L T P G
  init_client = record {
    engineio = none;
    url = none;
    default_ns_name = none;
    logger = some ds.log;
    timer = some ds.timer;
    parser = none;
    redact_payload = true;
  }

module _ {H A F L T D P Tr G : Type 0} (ds : Defaults L T D P Tr) where
  abbrev pub finish : InitClient L T P G → L → Engine Tr G → Made H A F D Tr P G
  finish c log engine = record {
    socket =
        (namespace (empty_client ds.handshake_data (name_or_root c.default_ns_name))
          (name_or_root c.default_ns_name)).0;
    engine = engine;
    parser = or_default (ds.new_parser log) c.parser;
  }

  abbrev pub check_timer :
      InitClient L T P G → L → Option T → Result ConfigError (Made H A F D Tr P G)
  check_timer c log none = err nil_timer
  check_timer c log (some timer) = do
    engine ← pick_engine ds c.engineio c.url log c.redact_payload
    ok (finish c log engine)

  abbrev pub check : InitClient L T P G → Option L → Result ConfigError (Made H A F D Tr P G)
  check c none = err nil_logger
  check c (some log) = check_timer c log c.timer

  -- `NewClient`
  unfoldable pub new_client : List (ClientOption L T P G) → Result ConfigError (Made H A F D Tr P G)
  unfolding apply_options new_engine register_handlers namespace
  new_client options = do c ← apply_options options (init_client ds); check c c.logger
