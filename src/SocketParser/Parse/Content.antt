-- ===== src/SocketParser/Parse/Content.antt =====
-- socket.io/v5/parser/default/parser.go: which messages `Parse` returns with nothing in them.
use mathlib.Core.Path.{subst}
use go_socket_io.Base.{
  ℕ, ◌+◌, ◌-◌, ◌%◌, ◌≡◌, ◌≢◌, Option, none, some, [], ◌∷◌, Bytes, Result, ok, err, arith, ◌==◌,
  ◌>>=◌,
}
use go_socket_io.SocketParser.Packet.{
  Event, Message, Error, packet_event, packet_ack, packet_connect_error,
}
use go_socket_io.SocketParser.Header.{check_data, extract_ack_id, extract_namespace}
use go_socket_io.SocketParser.Event.{parse_event_default}
use go_socket_io.SocketParser.Parse.{
  default_parser, Failure, parse, parse_event, empty_message_of, after_namespace, with_ack_id,
  after_ack_id, no_payload, parse_payload, set_event, checked,
}

-- An event or an acknowledgement has its event, and a connect error its text.
abbrev pub HasContent : Message Bytes → Type 0
HasContent msg =
    (msg.type ≡ packet_event → msg.event ≢ none)
    × (msg.type ≡ packet_ack → msg.event ≢ none)
    × (msg.type ≡ packet_connect_error → msg.error_message ≢ none)

abbrev OkHasContent : Result Failure (Message Bytes) → Type 0
OkHasContent (ok msg) = HasContent msg
OkHasContent (err e) = Unit

no_payload-HasContent : (msg : Message Bytes) → OkHasContent (no_payload msg)
no_payload-HasContent msg = ground arith

set_event-HasContent :
    (msg : Message Bytes) (r : Result Error (Event Bytes))
    → msg.type ≢ packet_connect_error
    → OkHasContent (set_event msg (r >>= λ e. ok (some e)))
set_event-HasContent msg (err e) h = tt
set_event-HasContent msg (ok e) h = ((λ t n. cc), (λ t n. cc), λ t. absurd (h t))

parse_payload-HasContent :
    (msg : Message Bytes) (bs : Bytes) → OkHasContent (parse_payload default_parser msg bs)
unfolding parse_event
parse_payload-HasContent msg bs =
    ground (arith, set_event-HasContent msg (parse_event_default bs (msg.type == packet_ack)))

after_ack_id-HasContent :
    (msg : Message Bytes) (bs : Bytes) → OkHasContent (after_ack_id default_parser msg bs)
after_ack_id-HasContent msg [] = no_payload-HasContent msg
after_ack_id-HasContent msg (c ∷ cs) = parse_payload-HasContent msg (c ∷ cs)

with_ack_id-HasContent :
    (r : Result Error (Message Bytes × Bytes)) → OkHasContent (with_ack_id default_parser r)
with_ack_id-HasContent (ok (msg, bs)) = after_ack_id-HasContent msg bs
with_ack_id-HasContent (err e) = tt

after_namespace-HasContent :
    (msg : Message Bytes) (bs : Bytes) → OkHasContent (after_namespace default_parser msg bs)
after_namespace-HasContent msg [] = no_payload-HasContent msg
after_namespace-HasContent msg (c ∷ cs) = with_ack_id-HasContent (extract_ack_id msg (c ∷ cs))

checked-HasContent :
    (msg : Message Bytes) (e : Option Error) (c : ℕ) (cs : Bytes)
    → OkHasContent (checked default_parser msg e (c ∷ cs))
checked-HasContent msg (some e) c cs = tt
checked-HasContent msg none c cs =
    let r = extract_namespace msg c cs in after_namespace-HasContent r.0 r.1

-- A message of more than one byte that the default parser accepts is complete: an event or an
-- acknowledgement has its event, and a connect error its text.
pub parse-HasContent :
    (b c : ℕ) (cs : Bytes) {msg : Message Bytes}
    → parse default_parser (b ∷ c ∷ cs) ≡ ok msg
    → HasContent msg
unfolding parse
parse-HasContent b c cs e =
    let r = check_data (b ∷ c ∷ cs) in
    subst OkHasContent e (checked-HasContent (empty_message_of r.0) r.1 c cs)

-- A message of one byte has only its type, unless that is a binary one.
pub parse_one_byte :
    (b : ℕ) {msg : Message Bytes}
    → parse default_parser (b ∷ []) ≡ ok msg
    → msg ≡ empty_message_of ((b + 256 - b'0') % 256)
unfolding parse check_data
parse_one_byte b e = ground arith
