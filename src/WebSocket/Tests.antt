-- ===== src/WebSocket/Tests.antt =====
-- Tests and witnesses of the WebSocket transport.
use go_socket_io.Base.{
  ◌≢◌, if◌then◌else◌, some, [], ◌∷◌, Bytes, equal, ◌≡◌, refl, false, none, codes,
}
use go_socket_io.Url.{Url, UrlLibrary, no_values, set_value}
use go_socket_io.Polling.{build_http_url}
use go_socket_io.WebSocket.{Transport, run, stop, build_ws_url, ws_query}
use go_socket_io.WebSocket.Address.{build_ws_url-query}
use go_socket_io.WebSocket.Loop.{
  finished, System, started, finish, take_stop, Step, message_received, handed_on, handing_stopped,
  stops, Reach, here, next,
}
use go_socket_io.WebSocket.Loop.Order.{Follows, delivers_in_order}
use go_socket_io.WebSocket.Loop.Ends.{Told, tells_the_client, stop_stays}

abbrev address : Url
address = record {
  scheme = codes "https";
  host = codes "localhost";
  path = codes "/socket.io/";
  raw_query = [];
}

abbrev fresh : Transport
fresh = record { url = none; origin = none; sid = []; stop_pooling = false }

abbrev begin : System
begin = started fresh address (codes "abc") none

-- Two messages are received, the first is handed on, and a stop drops the second.
record Drops (s : System) : Type 0 where
  reach : Reach begin s
  over : s.loop ≡ finished

drops : (s : System) × Drops s
unfolding started run stop finish
drops = (
  _,
  record {
    reach =
        next
          (next
            (next
              (next (next here (message_received (codes "40") refl)) (handed_on (codes "40") refl))
              (message_received (codes "2") refl))
            stops)
          (handing_stopped (codes "2") refl refl);
    over = refl;
  },
)

delivers_in_order_example : Follows drops.0.loop drops.0.received drops.0.delivered
delivers_in_order_example = delivers_in_order fresh address (codes "abc") none drops.1.reach

tells_the_client_example : Told drops.0.loop drops.0.closes drops.0.result
tells_the_client_example = tells_the_client fresh address (codes "abc") none drops.1.reach

abbrev again : System
again = started (stop drops.0.transport) address (codes "xyz") none

stop_stays_example :
    Step again (take_stop again)
    × ((take_stop again).loop ≡ finished)
    × ((take_stop again).received ≡ [])
    × ((take_stop again).closes ≡ none ∷ [])
stop_stays_example = stop_stays drops.0 address (codes "xyz") none drops.1.over here

-- A reader that takes any text for the parameter "a", and a writer that writes nothing.
abbrev library : UrlLibrary
library = record { parse_query = set_value no_values (codes "a"); encode = λ q. [] }

abbrev kept : Url
kept = record address { raw_query = codes "x" }

build_ws_url-query_example :
    (build_ws_url library (some kept) (codes "abc")
      ≡ some (record kept {
        scheme = if equal kept.scheme (codes "https") then codes "wss" else codes "ws";
        raw_query = [];
      }))
    × (ws_query library (codes "x") (codes "abc") (codes "transport")
        ≡ some (codes "websocket" ∷ []))
    × (ws_query library (codes "x") (codes "abc") (codes "EIO") ≡ some (codes "4" ∷ []))
    × (ws_query library (codes "x") (codes "abc") (codes "sid") ≡ some (codes "abc" ∷ []))
    × ((k : Bytes)
        → k ≢ codes "transport"
        → k ≢ codes "EIO"
        → k ≢ codes "sid"
        → ws_query library (codes "x") (codes "abc") k
          ≡ set_value no_values (codes "a") (codes "x") k)
    × (build_http_url library (some kept) (codes "abc")
        ≡ build_http_url library (some (record kept { raw_query = codes "y" })) (codes "abc"))
build_ws_url-query_example = build_ws_url-query library kept (codes "abc") (codes "y")
