-- ===== src/SocketClient/Node/Opening/Tests.antt =====
-- A witness of the opening of a namespace. Callbacks, handlers, timeout functions and transports are
-- numbers.
use go_socket_io.Base.{
  ℕ, ◌≡◌, refl, true, false, none, some, [], ◌∷◌, Bytes, codes, ok, arith, equal,
}
use go_socket_io.Base.Int.{pos}
use go_socket_io.Json.{obj, end, marshal}
use go_socket_io.SocketParser.Parse.Connect.{connect_answer}
use go_socket_io.SocketParser.Serialize.{Arg, json, serialize}
use go_socket_io.SocketParser.Callback.{nil}
use go_socket_io.EngineParser.{EngineIoV4Parser, limit}
use go_socket_io.EngineClient as EngineClient
use go_socket_io.EngineClient.{Transports, absent, send_message, handle}
use go_socket_io.EngineClient.Panics as Panics
use go_socket_io.SocketClient.{Namespace, Client, send, start, done, put, new_namespace}
use go_socket_io.SocketClient.Messages.Crash.{as_parser}
use go_socket_io.SocketClient.Emit.{Emits, emit_connected, failed, context_done, name}
use go_socket_io.SocketClient.Node.{
  Handler, on_message, connect_socket_io, Node, connect_socket, receive,
}
use go_socket_io.SocketClient.Node.Opening.{opened, receive_opens, connect_packet}

abbrev engine_parser : EngineIoV4Parser
engine_parser = record { max_serialize_size = pos 100 }

abbrev transports : Transports ℕ Handler
transports = record { name = λ t. codes "polling"; answer = λ calls call. none }

-- A namespace with one handler of "connect".
abbrev chat : Namespace ℕ ℕ
chat = record (new_namespace (codes "/chat")) {
  handlers = put (λ e. none) (codes "connect") (some (some 7 ∷ []));
}

abbrev node : Node ℕ ℕ ℕ ℕ ℕ
node = record {
  socket = record {
    handshake_data = 0;
    namespaces = put (λ n. none) (codes "/chat") (some chat);
    default_ns = codes "/chat";
    ack_callbacks = λ n. none;
    ack_counter = 0;
    waiters = λ n. none;
  };
  engine = record {
    transport = some 1;
    supported_transports = [];
    sid = codes "abc";
    ping_interval = none;
    ticking = false;
    ping_timeout = pos 0;
    message_handler = some on_message;
    close_handler = none;
    after_connect = some connect_socket_io;
    wait_upgrade = absent;
    had_upgrade = false;
    wait_handshake = EngineClient.opened;
    had_handshake = true;
    messages = EngineClient.shut;
    calls = [];
  };
}

abbrev to_arg : ℕ → Arg
to_arg d = json (obj end)

written : serialize (some (connect_packet to_arg node.socket)) ≡ ok (codes "0/chat,")
unfolding serialize equal marshal
written = refl

limit_100 : limit engine_parser ≡ 100
unfolding limit
limit_100 = refl

chat-known : node.socket.namespaces (codes "/chat") ≡ some chat
unfolding equal
chat-known = refl

abbrev session : Bytes
session = codes "\"sid\":\"x\"}"

abbrev answer : Bytes
answer = connect_answer (codes "/chat") session

abbrev open_client : Client ℕ ℕ ℕ ℕ
open_client = opened node.socket (codes "/chat") chat

receive_opens_example :
    (w : Bytes) × (connect_socket transports
        (Panics.as_parser engine_parser)
        (as_parser some)
        to_arg
        node
      ≡ done
          (record node { engine = EngineClient.after node.engine (send_message 1 w) }, none)
          (send (codes "0/chat,") ∷ []))
    × (¬ (
        Emits
          (as_parser some)
          node.socket
          false
          (codes "/chat")
          (name (codes "hi"))
          []
          (node.socket, [], failed context_done)))
    × (receive transports
          (Panics.as_parser engine_parser)
          (as_parser some)
          (λ bs. none)
          (record node { engine = EngineClient.after node.engine (send_message 1 w) })
          (b'4' ∷ answer)
        ≡ done
            (
              record {
                socket = open_client;
                engine =
                    EngineClient.after
                      (EngineClient.after node.engine (send_message 1 w))
                      (handle on_message answer);
              },
              none,
            )
            (start (some 7) (nil ∷ []) ∷ []))
    × Emits
        (as_parser some)
        open_client
        false
        (codes "/chat")
        (name (codes "hi"))
        []
        (emit_connected (as_parser some) open_client (codes "/chat") (name (codes "hi")) [])
unfolding equal
receive_opens_example =
    receive_opens transports engine_parser (λ bs. none) some node chat to_arg 1 (codes "0/chat,")
      session (name (codes "hi")) [] (node.socket, [], failed context_done) (refl, ground arith)
      chat-known refl refl refl written (rw limit_100 (omega arith))
