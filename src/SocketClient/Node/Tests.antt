-- ===== src/SocketClient/Node/Tests.antt =====
-- Witnesses of clients that are put together. Callbacks, handlers, timeout functions and transports
-- are numbers.
use go_socket_io.Base.{
  ℕ, ◌≤◌, ◌≡◌, refl, sym, ◌∙◌, ok-inj, true, false, none, some, List, [], ◌∷◌, Bytes, ok, codes,
  length, arith, equal,
}
use mathlib.Core.Path.{subst}
use go_socket_io.Base.Int.{pos}
use go_socket_io.Url.{Url, UrlLibrary}
use go_socket_io.Json.{Value, num, str, to_items, marshal}
use go_socket_io.Json.Complete.{AreItems}
use go_socket_io.Json.Quote.{quote, escape, escape_byte}
use go_socket_io.Json.Scan.{number_start, number_next, number_end}
use go_socket_io.SocketParser.Serialize.{serialize}
use go_socket_io.SocketParser.Parse.RoundTrip.{event_packet}
use go_socket_io.SocketParser.Callback.{raw}
use go_socket_io.EngineParser.{EngineIoV4Parser, limit}
use go_socket_io.EngineClient as EngineClient
use go_socket_io.EngineClient.{HandshakeResponse, Transports, absent, opened, send_message, handle}
use go_socket_io.EngineClient.Panics as Panics
use go_socket_io.EngineClient.Constructor as EngineConstructor
use go_socket_io.EngineClient.Handshake.{find_transport}
use go_socket_io.SocketClient.{Namespace, send, start, start_any, done, put, new_namespace}
use go_socket_io.SocketClient.Messages.Crash.{as_parser}
use go_socket_io.SocketClient.Emit.{name}
use go_socket_io.SocketClient.Node.{Handler, on_message, connect_socket_io, Node, emit, receive}
use go_socket_io.SocketClient.Node.Delivery.{payloads, emit-receive}
use go_socket_io.SocketClient.Node.Constructor.{
  Defaults, Made, new_client, with_url, with_default_namespace,
}
use go_socket_io.SocketClient.Node.Constructor.Wired.{IsReady, new_client-IsReady}

abbrev engine_parser : EngineIoV4Parser
engine_parser = record { max_serialize_size = pos 100 }

abbrev transports : Transports ℕ Handler
transports = record { name = λ t. codes "polling"; answer = λ calls call. none }

abbrev root : Namespace ℕ ℕ
root = record (new_namespace (codes "/")) {
  handlers = put (λ e. none) (codes "chat") (some (some 7 ∷ []));
  any_handlers = 9 ∷ [];
  connected = true;
}

abbrev node : Node ℕ ℕ ℕ ℕ ℕ
node = record {
  socket = record {
    handshake_data = 0;
    namespaces = put (λ n. none) (codes "/") (some root);
    default_ns = codes "/";
    ack_callbacks = λ n. none;
    ack_counter = 0;
    waiters = λ n. none;
  };
  engine = record {
    transport = some 1;
    supported_transports = [];
    sid = codes "abc";
    ping_interval = none;
    ticking = false;
    ping_timeout = pos 0;
    message_handler = some on_message;
    close_handler = none;
    after_connect = some connect_socket_io;
    wait_upgrade = absent;
    had_upgrade = false;
    wait_handshake = opened;
    had_handshake = true;
    messages = EngineClient.shut;
    calls = [];
  };
}

abbrev arguments : List Value
arguments = num (codes "12") ∷ str (codes "hi") ∷ []

arguments-AreItems : AreItems (to_items arguments)
unfolding number_start number_next number_end
arguments-AreItems = (refl, (tt, tt))

root-known : node.socket.namespaces (codes "/") ≡ some root
unfolding equal
root-known = refl

written :
    serialize (some (event_packet (codes "/") none (codes "chat") arguments))
    ≡ ok (codes "2[\"chat\",12,\"hi\"]")
unfolding serialize equal marshal quote escape escape_byte
written = refl

limit_100 : limit engine_parser ≡ 100
unfolding limit
limit_100 = refl

fits :
    (bs : Bytes)
    → serialize (some (event_packet (codes "/") none (codes "chat") arguments)) ≡ ok bs
    → length bs ≤ limit engine_parser
fits bs h =
    subst (λ x. length x ≤ limit engine_parser) (ok-inj (sym written ∙ h))
      (rw limit_100 (omega arith))

emit-receive_example :
    (w bs : Bytes) × (emit transports
        (Panics.as_parser engine_parser)
        (as_parser some)
        node
        (codes "/")
        (name (codes "chat"))
        (payloads arguments)
      ≡ done
          (record node { engine = EngineClient.after node.engine (send_message 1 w) }, none)
          (send bs ∷ []))
    × (receive transports (Panics.as_parser engine_parser) (as_parser some) (λ bs. none) node w
        ≡ done
            (record node { engine = EngineClient.after node.engine (handle on_message bs) }, none)
            (start_any 9 (codes "chat") (raw (codes "12") ∷ raw (codes "\"hi\"") ∷ [])
              ∷ start (some 7) (raw (codes "12") ∷ raw (codes "\"hi\"") ∷ [])
              ∷ []))
unfolding equal marshal quote escape escape_byte
emit-receive_example =
    emit-receive transports engine_parser (λ bs. none) some some node node (codes "/")
      (codes "chat") arguments 1 root (refl, tt) (λ e. cc) arguments-AreItems fits refl root-known
      refl

-- The query of a URL is left as one text here.
abbrev url_library : UrlLibrary
url_library = record { parse_query = λ q k. none; encode = λ q. codes "EIO=4" }

abbrev defaults : Defaults ℕ ℕ ℕ ℕ ℕ
defaults = record {
  log = 5;
  timer = 6;
  handshake_data = 0;
  new_parser = λ log. 8;
  url_library = url_library;
  packets = Panics.as_parser engine_parser;
  websocket = 2;
  polling = 1;
}

abbrev address : Url
address = record { scheme = codes "http"; host = codes "localhost"; path = []; raw_query = [] }

chat_client :
    (m : Made ℕ ℕ ℕ ℕ ℕ ℕ ℕ) × (new_client defaults
        (with_url address ∷ with_default_namespace (codes "/chat") ∷ [])
      ≡ ok m)
unfolding new_client with_url with_default_namespace EngineConstructor.with_url
    EngineConstructor.with_logger EngineConstructor.with_debug_payload
    EngineConstructor.apply_options find_transport equal
chat_client = (_, refl)

new_client-IsReady_example : IsReady chat_client.0
new_client-IsReady_example =
    new_client-IsReady defaults (with_url address ∷ with_default_namespace (codes "/chat") ∷ [])
      chat_client.1
