-- ===== src/SocketParser/Parse.antt =====
-- socket.io/v5/parser/default/parser.go: `Parse`, with the parser's optional payload parser.
pub mod Connect
pub mod RoundTrip
pub mod Content
use go_socket_io.Base.{
  ℕ, Bool, true, false, ◌||◌, Option, none, some, List, [], ◌∷◌, Bytes, Result, ok, err, ◌>>=◌,
  ◌==◌, if◌then◌else◌, codes,
}
use go_socket_io.SocketParser.Packet.{
  Event, Message, Error, wrong_package_payload, packet_event, packet_ack, packet_connect_error,
}
use go_socket_io.SocketParser.Header.{check_data, extract_namespace, extract_ack_id}
use go_socket_io.SocketParser.Event.{parse_event_default}

-- `PayloadParser`, as far as `Parse` calls it. It may return a nil event with no error.
pub record PayloadParser : Type 0 where
  pub parse_event : Bytes → Bool → Result Error (Option (Event Bytes))

pub record SocketIoV5DefaultParser : Type 0 where
  pub payload_parser : Option PayloadParser

-- A parser as `NewParser` builds it with no payload parser.
abbrev pub default_parser : SocketIoV5DefaultParser
default_parser = record { payload_parser = none }

abbrev parse_event_with : Option PayloadParser → Bytes → Bool → Result Error (Option (Event Bytes))
parse_event_with none packet is_ack = do e ← parse_event_default packet is_ack; ok (some e)
parse_event_with (some f) packet is_ack = f.parse_event packet is_ack

unfoldable pub parse_event :
    SocketIoV5DefaultParser → Bytes → Bool → Result Error (Option (Event Bytes))
parse_event p = parse_event_with p.payload_parser

-- An error, and the message that is returned beside it, if there is one.
pub record Failure : Type 0 where
  pub error : Error
  pub message : Option (Message Bytes)

abbrev pub fail : {A : Type 0} → Error → Result Failure A
fail e = err (record { error = e; message = none })

-- The types that are refused with no payload once the packet holds more than its type.
abbrev needs_payload : ℕ → Bool
needs_payload type = type == packet_event || type == packet_ack || type == packet_connect_error

abbrev no_payload : Message Bytes → Result Failure (Message Bytes)
no_payload msg = if needs_payload msg.type then fail wrong_package_payload else ok msg

abbrev set_event :
    Message Bytes → Result Error (Option (Event Bytes)) → Result Failure (Message Bytes)
set_event msg (ok e) = ok (record msg { event = e })
set_event msg (err e) = fail e

abbrev parse_payload :
    SocketIoV5DefaultParser → Message Bytes → Bytes → Result Failure (Message Bytes)
parse_payload p msg packet_data =
    if msg.type == packet_event || msg.type == packet_ack
    then set_event msg (parse_event p packet_data (msg.type == packet_ack))
    else if msg.type == packet_connect_error
    then ok (record msg { error_message = some packet_data })
    else ok msg

abbrev after_ack_id :
    SocketIoV5DefaultParser → Message Bytes → Bytes → Result Failure (Message Bytes)
after_ack_id p msg [] = no_payload msg
after_ack_id p msg (c ∷ cs) = parse_payload p msg (c ∷ cs)

abbrev with_ack_id :
    SocketIoV5DefaultParser → Result Error (Message Bytes × Bytes) → Result Failure (Message Bytes)
with_ack_id p (ok (msg, packet_data)) = after_ack_id p msg packet_data
with_ack_id p (err e) = fail e

abbrev after_namespace :
    SocketIoV5DefaultParser → Message Bytes → Bytes → Result Failure (Message Bytes)
after_namespace p msg [] = no_payload msg
after_namespace p msg (c ∷ cs) = with_ack_id p (extract_ack_id msg (c ∷ cs))

abbrev parse_packet :
    SocketIoV5DefaultParser → Message Bytes → Bytes → Result Failure (Message Bytes)
parse_packet p msg [] = ok msg
parse_packet p msg (c ∷ cs) =
    let (msg', packet_data) = extract_namespace msg c cs in after_namespace p msg' packet_data

-- A message of that type with no other field set, in the root namespace.
abbrev pub empty_message_of : {P : Type 0} → ℕ → Message P
empty_message_of type = record {
  type = type;
  binary_attachments = none;
  ns = codes "/";
  ack_id = none;
  event = none;
  payload = none;
  error_message = none;
}

abbrev tail : Bytes → Bytes
tail [] = []
tail (b ∷ rest) = rest

abbrev checked :
    SocketIoV5DefaultParser → Message Bytes → Option Error → Bytes → Result Failure (Message Bytes)
checked p msg (some e) packet_data = err (record { error = e; message = some msg })
checked p msg none packet_data = parse_packet p msg packet_data

unfoldable pub parse : SocketIoV5DefaultParser → Bytes → Result Failure (Message Bytes)
unfolding check_data extract_namespace extract_ack_id parse_event
parse p bs =
    let (message_type, error) = check_data bs in
    checked p (empty_message_of message_type) error (tail bs)
