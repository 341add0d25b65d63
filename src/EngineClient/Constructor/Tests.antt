-- ===== src/EngineClient/Constructor/Tests.antt =====
-- A witness of the constructor of the Engine.IO client. Transports and handlers are numbers.
use go_socket_io.Base.{
  ℕ, ◌≡◌, refl, true, false, none, some, List, [], ◌∷◌, Bytes, codes, ok, equal,
}
use go_socket_io.Base.Int.{pos}
use go_socket_io.EngineParser.{EngineIoV4Parser}
use go_socket_io.EngineClient.Handshake.{find_transport}
use go_socket_io.Url.{Url, UrlLibrary}
use go_socket_io.EngineClient.Constructor.{
  Config, with_url, with_debug_payload, new_client, apply_options,
}
use go_socket_io.EngineClient.Constructor.Complete.{IsComplete, new_client-IsComplete}
use go_socket_io.EngineClient.Panics.{as_parser}

abbrev engine_parser : EngineIoV4Parser
engine_parser = record { max_serialize_size = pos 100 }

abbrev both : List (Bytes × ℕ)
both = (codes "websocket", 2) ∷ (codes "polling", 1) ∷ []

abbrev socket_url : Url
socket_url = record {
  scheme = codes "wss";
  host = codes "localhost";
  path = codes "/socket.io/";
  raw_query = [];
}

-- A query with no parameter but one; all else of net/url is left out.
abbrev url_library : UrlLibrary
url_library = record { parse_query = λ q k. none; encode = λ q. codes "EIO=4" }

abbrev made : Config ℕ ℕ
made = record {
  url = some (record socket_url { scheme = codes "https"; raw_query = codes "EIO=4" });
  log = some 5;
  parser = some (as_parser engine_parser);
  transport = some 1;
  supported_transports = both;
  reconnect_attempts = pos 5;
  reconnect_wait = pos 5000000000;
  redact_payload = false;
}

made_by :
    new_client 5
      (as_parser engine_parser)
      2
      1
      (with_url url_library socket_url ∷ with_debug_payload true ∷ [])
    ≡ ok made
unfolding new_client with_url with_debug_payload find_transport apply_options equal
made_by = refl

new_client-IsComplete_example : IsComplete made
new_client-IsComplete_example =
    new_client-IsComplete 5 (as_parser engine_parser) 2 1
      (with_url url_library socket_url ∷ with_debug_payload true ∷ []) made_by
