-- ===== src/WebSocket/Address.antt =====
-- engine.io/v4/client/transport/websocket/transport.go beside polling/transport.go: the addresses of
-- the two transports.
use go_socket_io.Base.{
  ◌≡◌, ◌≢◌, refl, some, [], ◌∷◌, Bytes, codes, equal, equal_iff, arith, if◌then◌else◌,
}
use go_socket_io.Url.{Url, UrlLibrary, Values, no_values, copy_values, set_value}
use go_socket_io.Polling.{build_http_url}
use go_socket_io.WebSocket.{ws_query, build_ws_url}

set_value_self : (q : Values) (k v : Bytes) → set_value q k v k ≡ some (v ∷ [])
unfolding set_value
set_value_self q k v = ground (arith, equal_iff k k)

set_value_other : (q : Values) (k v j : Bytes) → k ≢ j → set_value q k v j ≡ q j
unfolding set_value
set_value_other q k v j ne = ground (arith, equal_iff k j)

copy_values-none : (q : Values) (j : Bytes) → copy_values q no_values j ≡ q j
unfolding copy_values
copy_values-none q j = ground arith

-- The WebSocket address is the client's URL with the scheme of a WebSocket, secure exactly when the
-- client's is "https", and a query that names the transport, the version and the session and keeps
-- every other parameter of the client's URL. The polling address has none of them: it does not
-- depend on the query of that URL.
pub build_ws_url-query :
    (lib : UrlLibrary) (url : Url) (sid other : Bytes)
    → (build_ws_url lib (some url) sid
        ≡ some (record url {
          scheme = if equal url.scheme (codes "https") then codes "wss" else codes "ws";
          raw_query = lib.encode (ws_query lib url.raw_query sid);
        }))
      × (ws_query lib url.raw_query sid (codes "transport") ≡ some (codes "websocket" ∷ []))
      × (ws_query lib url.raw_query sid (codes "EIO") ≡ some (codes "4" ∷ []))
      × (ws_query lib url.raw_query sid (codes "sid") ≡ some (sid ∷ []))
      × ((k : Bytes)
          → k ≢ codes "transport"
          → k ≢ codes "EIO"
          → k ≢ codes "sid"
          → ws_query lib url.raw_query sid k ≡ lib.parse_query url.raw_query k)
      × (build_http_url lib (some url) sid
          ≡ build_http_url lib (some (record url { raw_query = other })) sid)
unfolding build_ws_url ws_query equal build_http_url
build_ws_url-query lib url sid other = (
  refl,
  refl,
  refl,
  refl,
  λ k a b c. ground (
    arith,
    equal_iff (codes "transport") k,
    equal_iff (codes "EIO") k,
    equal_iff (codes "sid") k,
    copy_values-none (lib.parse_query url.raw_query) k,
  ),
  refl,
)
