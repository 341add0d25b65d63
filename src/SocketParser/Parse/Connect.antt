-- ===== src/SocketParser/Parse/Connect.antt =====
-- socket.io/v5/parser/default/parser.go: the connect packet with which a server answers.
use go_socket_io.Base.{◌≡◌, ◌∙◌, refl, ◌∷◌, ◌++◌, Bytes, ok, arith}
use go_socket_io.SocketParser.Packet.{Message, packet_connect}
use go_socket_io.SocketParser.Header.{check_data}
use go_socket_io.SocketParser.Header.Laws.{extract_ack_id-none}
use go_socket_io.SocketParser.Serialize.{namespace_bytes}
use go_socket_io.SocketParser.Parse.{parse, default_parser, empty_message_of, after_namespace}
use go_socket_io.SocketParser.Parse.RoundTrip.{IsNamespace, parse_packet-namespace}

-- The bytes of the answer: the type, the namespace, and an object with the session.
abbrev pub connect_answer : Bytes → Bytes → Bytes
connect_answer ns js = b'0' ∷ (namespace_bytes ns ++ b'{' ∷ js)

abbrev pub connect_read : Bytes → Message Bytes
connect_read ns = record (empty_message_of packet_connect) { ns = ns }

after_namespace-object :
    (ns js : Bytes)
    → after_namespace default_parser (connect_read ns) (b'{' ∷ js) ≡ ok (connect_read ns)
after_namespace-object ns js =
    rw (extract_ack_id-none (connect_read ns) (b'{' ∷ js) (λ d. omega arith)) refl

-- The object is not read.
pub parse-connect_answer :
    (ns js : Bytes)
    → IsNamespace ns
    → parse default_parser (connect_answer ns js) ≡ ok (connect_read ns)
unfolding parse check_data
parse-connect_answer ns js h =
    parse_packet-namespace default_parser (empty_message_of packet_connect) ns (b'{' ∷ js) refl h
      (λ e. omega arith)
    ∙ after_namespace-object ns js
