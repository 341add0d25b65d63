-- ===== src/WebSocket.antt =====
-- engine.io/v4/client/transport/websocket/transport.go: the transport's state and its methods. The
-- read loop is in WebSocket/Loop. Logging is left out, and so are the methods that only hand a call
-- on to the connection.
pub mod Loop
pub mod Address
pub mod Constructor
pub mod Native
mod Tests
use go_socket_io.Base.{Bool, true, false, Option, none, some, Bytes, codes, equal, if◌then◌else◌}
use go_socket_io.Url.{Url, UrlLibrary, Values, no_values, copy_values, set_value}
use go_socket_io.EngineClient.{HandshakeResponse}

-- `Transport`; `stop_pooling` is whether the channel of that name holds a value.
pub record Transport : Type 0 where
  pub url : Option Url
  pub origin : Option Url
  pub sid : Bytes
  pub stop_pooling : Bool

-- `SetHandshake`
unfoldable pub set_handshake : Transport → HandshakeResponse → Transport
set_handshake t r = record t { sid = r.sid }

-- `Stop`: a value for the loop, which is dropped when the channel is full.
unfoldable pub stop : Transport → Transport
stop t = record t { stop_pooling = true }

-- `RequestHandshake`
unfoldable pub request_handshake : {E : Type 0} → Option E
request_handshake = none

abbrev ws_scheme : Bytes → Bytes
ws_scheme scheme = if equal scheme (codes "https") then codes "wss" else codes "ws"

-- The query of `buildWsUrl`: that of the client's URL, with three parameters set.
unfoldable pub ws_query : UrlLibrary → Bytes → Bytes → Values
unfolding copy_values set_value
ws_query lib raw_query sid =
    set_value
      (set_value
        (set_value (copy_values (lib.parse_query raw_query) no_values) (codes "transport")
          (codes "websocket"))
        (codes "EIO") (codes "4"))
      (codes "sid") sid

-- `buildWsUrl`; `none` is a nil dereference.
unfoldable pub build_ws_url : UrlLibrary → Option Url → Bytes → Option Url
unfolding ws_query
build_ws_url lib none sid = none
build_ws_url lib (some url) sid = some (record url {
  scheme = ws_scheme url.scheme;
  raw_query = lib.encode (ws_query lib url.raw_query sid);
})

-- What `connectWebSocket` dials: the address and the origin, which is the client's URL if none is
-- set.
abbrev or_url : Option Url → Option Url → Option Url
or_url (some origin) url = some origin
or_url none url = url

unfoldable pub dialled : UrlLibrary → Transport → Option Url × Option Url
unfolding build_ws_url
dialled lib t = (build_ws_url lib t.url t.sid, or_url t.origin t.url)

-- What `Run` sets before it dials. The channel of stops is the one of the run before.
unfoldable pub run : Transport → Url → Bytes → Transport
run t url sid = record t { url = some url; sid = sid }
