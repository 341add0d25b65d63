-- ===== src/SocketParser/Tests.antt =====
-- Tests and witnesses of the Socket.IO parser.
use go_socket_io.Base.{
  ℕ, ◌+◌, ◌≡◌, ◌≤◌, ◌↔◌, refl, true, false, Option, none, some, List, [], ◌∷◌, map, Bytes, ok, err,
  Result, codes, length, arith, equal,
}
use go_socket_io.Json.{Value, null, bool, num, str, arr, nil, cons, to_items, marshal}
use go_socket_io.Json.Complete.{AreItems}
use go_socket_io.Json.Scan.{read_value, number_start, number_next, number_end}
use go_socket_io.Json.Quote.{quote, escape, escape_byte, unquote}
use go_socket_io.SocketParser.Packet.{Error}
use go_socket_io.SocketParser.Decimal.{itoa, itoa_onto, atoi_from}
use go_socket_io.SocketParser.Event.{parse_event_default, decode_payloads}
use go_socket_io.SocketParser.Event.RoundTrip.{parse_event-ack}
use go_socket_io.SocketParser.Event.Fuel.{decode_payloads-fuel}
use go_socket_io.SocketParser.Parse.{default_parser, parse, empty_message_of}
use go_socket_io.SocketParser.Parse.RoundTrip.{parse-serialize_event, event_packet, event_read}
use go_socket_io.SocketParser.Parse.Content.{HasContent, parse-HasContent}
use go_socket_io.SocketParser.Serialize.{Packet, Info, serialize, prepare_serialization_info}
use go_socket_io.SocketParser.Serialize.Capacity.{serialize-length}
use go_socket_io.SocketParser.Callback.{raw, function, called}
use go_socket_io.SocketParser.Callback.Laws.{call_wrapped, Unmarshals, wrap_callback-called}

abbrev values : List Value
values = num (codes "12") ∷ str (codes "a\"b") ∷ arr (cons null (cons (bool true) nil)) ∷ []

values-AreItems : AreItems (to_items values)
unfolding number_start number_next number_end
values-AreItems = (refl, (tt, ((tt, (tt, tt)), tt)))

abbrev chat : Packet
chat = event_packet (codes "/room") (some 42) (codes "chat") values

abbrev chat_bytes : Bytes
chat_bytes = codes "2/room,42[\"chat\",12,\"a\\\"b\",[null,true]]"

serialize_chat : serialize (some chat) ≡ ok chat_bytes
unfolding serialize itoa itoa_onto marshal quote escape escape_byte equal
serialize_chat = refl

parse_chat :
    parse default_parser chat_bytes
    ≡ ok (event_read (codes "/room") (some 42) (codes "chat") values)
unfolding parse parse_event_default read_value unquote atoi_from marshal quote escape escape_byte
    equal
parse_chat = refl

parse_errors :
    (parse default_parser (codes "2/room,")
      ≡ err (record { error = Error.wrong_package_payload; message = none }))
    × (parse default_parser (codes "2[")
        ≡ err (record { error = Error.parse_event_error; message = none }))
    × (parse default_parser (codes "2") ≡ ok (empty_message_of 2))
unfolding parse parse_event_default read_value unquote atoi_from equal
parse_errors = (refl, refl, refl)

parse-serialize_event_example :
    (bs : Bytes) × (serialize (some chat) ≡ ok bs)
    × (parse default_parser bs ≡ ok (event_read (codes "/room") (some 42) (codes "chat") values))
parse-serialize_event_example =
    parse-serialize_event (codes "/room") (some 42) (codes "chat") values (refl, omega arith)
      (omega arith) (λ e. cc) values-AreItems

parse-HasContent_example : HasContent (event_read (codes "/room") (some 42) (codes "chat") values)
parse-HasContent_example = parse-HasContent _ _ _ parse_chat

parse_event-ack_example :
    parse_event_default (marshal (arr (to_items values))) true
    ≡ ok (record { name = []; payloads = map marshal values })
parse_event-ack_example = parse_event-ack (to_items values) values-AreItems

decode_payloads-fuel_example :
    (r : Result Error (List Bytes × Bytes)) × (decode_payloads 5 false (codes ",1]") ≡ some r)
    × (decode_payloads 50 false (codes ",1]") ≡ some r)
decode_payloads-fuel_example =
    decode_payloads-fuel 5 50 false (codes ",1]") (omega arith) (omega arith)

chat_info : (i : Info) × (prepare_serialization_info chat ≡ ok i)
unfolding prepare_serialization_info
chat_info = (_, refl)

serialize-length_example : length chat_bytes ≤ 1 + chat_info.0.pkg_len
serialize-length_example = serialize-length chat chat_info.1 serialize_chat

-- A function over one text that is "1".
abbrev digit_one : Bytes → Option ℕ
digit_one [] = none
digit_one (c ∷ cs) = some c

wrap_callback-called_example :
    (call_wrapped (function (digit_one ∷ [])) (raw (codes "1") ∷ []) ≡ some (called (b'1' ∷ [])))
    ↔ Unmarshals (digit_one ∷ []) (raw (codes "1") ∷ []) (b'1' ∷ [])
wrap_callback-called_example =
    wrap_callback-called (digit_one ∷ []) (raw (codes "1") ∷ []) (b'1' ∷ [])
