-- ===== src/SocketParser/Parse/RoundTrip.antt =====
-- socket.io/v5/parser/default: what `Serialize` writes for an event, `Parse` reads back.
use go_socket_io.Base.{
  ℕ, suc, ◌^◌, ◌<◌, ◌≡◌, ◌≢◌, refl, ap, ◌∙◌, Option, none, some, List, [], ◌∷◌, ◌++◌, map, Bytes,
  All, codes, equal, ok, arith, append_assoc,
}
use go_socket_io.Base.Int.{ℤ, pos}
use go_socket_io.Json.{Value, str, arr, Items, nil, cons, to_items, marshal}
use go_socket_io.Json.Complete.{AreItems}
use go_socket_io.SocketParser.Packet.{Message, packet_event}
use go_socket_io.SocketParser.Decimal.{IsDigit, itoa, itoa_onto_head, itoa_onto-IsDigit}
use go_socket_io.SocketParser.Header.{check_data}
use go_socket_io.SocketParser.Header.Laws.{
  IsPlain, extract_namespace-append, extract_namespace-ne, extract_ack_id-none, extract_ack_id-itoa,
}
use go_socket_io.SocketParser.Event.RoundTrip.{raw_items, parse_event-named}
use go_socket_io.SocketParser.Serialize.{
  json, Packet, serialize, to_values, marshal_event, namespace_bytes, ack_id_bytes,
}
use go_socket_io.SocketParser.Parse.{
  SocketIoV5DefaultParser, default_parser, parse, parse_event, empty_message_of, parse_packet,
  after_namespace, after_ack_id,
}

-- A namespace that can be told from a payload: a slash, and no comma or bracket behind it.
abbrev pub IsNamespace : Bytes → Type 0
IsNamespace [] = ⊥
IsNamespace (c ∷ cs) = (c ≡ b'/') × All IsPlain cs

abbrev pub NotSlash : Bytes → Type 0
NotSlash [] = ⊥
NotSlash (c ∷ cs) = c ≢ b'/'

-- What `Serialize` puts in front of the rest of a packet, `Parse` takes off again.
pub parse_packet-namespace :
    (p : SocketIoV5DefaultParser) (msg : Message Bytes) (ns rest : Bytes)
    → msg.ns ≡ codes "/"
    → IsNamespace ns
    → NotSlash rest
    → parse_packet p msg (namespace_bytes ns ++ rest)
      ≡ after_namespace p (record msg { ns = ns }) rest
unfolding equal
parse_packet-namespace p msg [] rest root h n = absurd h
parse_packet-namespace p msg (c ∷ ns) [] root h n = absurd n
parse_packet-namespace p msg (c ∷ []) (r ∷ rest) root h n = rw h.0 (
    rw (extract_namespace-ne msg r rest n)
      (ap (λ ns. after_namespace p (record msg { ns = ns }) (r ∷ rest)) root))
parse_packet-namespace p msg (c ∷ d ∷ ns) (r ∷ rest) root h n =
    rw h.0 (
      rw append_assoc
        (rw (extract_namespace-append msg (d ∷ ns) (r ∷ rest) h.1, parse_packet) refl))

-- An acknowledgement id as the client counts them.
abbrev pub to_id : Option ℕ → Option ℤ
to_id none = none
to_id (some n) = some (pos n)

-- Eighteen digits at most, the limit of `Parse`.
abbrev pub IsShortId : Option ℕ → Type 0
IsShortId none = Unit
IsShortId (some n) = n < 10 ^ 18

itoa_head :
    (n : ℕ) (rest : Bytes) → (c : ℕ) × (cs : Bytes) × (itoa (pos n) ++ rest ≡ c ∷ cs) × (IsDigit c)
unfolding itoa
itoa_head n rest =
    let (c, cs, e) = itoa_onto_head n n [] in
    (c, cs ++ rest, rw e refl, (rw e at (itoa_onto-IsDigit (suc n) n [] tt)).0)

ack_id-NotSlash : (ack : Option ℕ) (js : Bytes) → NotSlash (ack_id_bytes (to_id ack) ++ b'[' ∷ js)
ack_id-NotSlash none js = λ e. omega arith
ack_id-NotSlash (some n) js = let (c, cs, e, d) = itoa_head n (b'[' ∷ js) in rw e (λ s. omega arith)

-- The id of a packet is taken off, and the rest read as its payload.
after_namespace-ack_id :
    (p : SocketIoV5DefaultParser) (msg : Message Bytes) (ack : Option ℕ) (js : Bytes)
    → msg.ack_id ≡ none
    → IsShortId ack
    → after_namespace p msg (ack_id_bytes (to_id ack) ++ b'[' ∷ js)
      ≡ after_ack_id p (record msg { ack_id = to_id ack }) (b'[' ∷ js)
after_namespace-ack_id p msg none js fresh h =
    rw (extract_ack_id-none msg (b'[' ∷ js) (λ d. omega arith))
      (ap (λ a. after_ack_id p (record msg { ack_id = a }) (b'[' ∷ js)) fresh)
after_namespace-ack_id p msg (some n) js fresh h =
    let (c, cs, e, d) = itoa_head n (b'[' ∷ js) in
    rw e (rw (rw e at (extract_ack_id-itoa msg n (b'[' ∷ js) h (λ s. omega arith))) refl)

-- An event as the client sends it, and as it is read.
abbrev pub event_packet : Bytes → Option ℕ → Bytes → List Value → Packet
event_packet ns ack name values = record (empty_message_of packet_event) {
  ns = ns;
  ack_id = to_id ack;
  event = some (record { name = name; payloads = map json values });
}

abbrev pub event_read : Bytes → Option ℕ → Bytes → List Value → Message Bytes
event_read ns ack name values = record (empty_message_of packet_event) {
  ns = ns;
  ack_id = to_id ack;
  event = some (record { name = name; payloads = map marshal values });
}

to_values-json : (vs : List Value) → to_values (map json vs) ≡ ok (to_items vs)
unfolding to_values
to_values-json [] = refl
to_values-json (v ∷ vs) = rw (to_values-json vs) refl

raw_items-to_items : (vs : List Value) → raw_items (to_items vs) ≡ map marshal vs
raw_items-to_items [] = refl
raw_items-to_items (v ∷ vs) = ap (◌∷◌ (marshal v)) (raw_items-to_items vs)

-- The bytes of an event.
abbrev wire : Bytes → Option ℕ → Bytes → List Value → Bytes
wire ns ack name values =
    b'2'
    ∷ (namespace_bytes ns
        ++ (ack_id_bytes (to_id ack) ++ marshal (arr (cons (str name) (to_items values)))))

serialize-event :
    (ns : Bytes) (ack : Option ℕ) (name : Bytes) (values : List Value)
    → name ≢ []
    → serialize (some (event_packet ns ack name values)) ≡ ok (wire ns ack name values)
unfolding serialize marshal_event
serialize-event ns ack [] values h = absurd (h refl)
serialize-event ns ack (c ∷ cs) values h = rw (to_values-json values) refl

marshal-arr_head : (vs : Items) → (js : Bytes) × (marshal (arr vs) ≡ b'[' ∷ js)
unfolding marshal
marshal-arr_head nil = (b']' ∷ [], refl)
marshal-arr_head (cons v vs) = (_, refl)

-- The JSON behind the header is read as the event.
after_ack_id-event :
    (msg : Message Bytes) (vs : Items) (js name : Bytes)
    → marshal (arr (cons (str name) vs)) ≡ b'[' ∷ js
    → msg.type ≡ packet_event
    → AreItems vs
    → after_ack_id default_parser msg (b'[' ∷ js)
      ≡ ok (record msg { event = some (record { name = name; payloads = raw_items vs }) })
unfolding parse_event
after_ack_id-event msg vs js name e t h = rw t (rw (rw e at (parse_event-named name vs h)) refl)

parse-wire :
    (ns : Bytes) (ack : Option ℕ) (name : Bytes) (values : List Value)
    → IsNamespace ns
    → IsShortId ack
    → AreItems (to_items values)
    → parse default_parser (wire ns ack name values) ≡ ok (event_read ns ack name values)
unfolding parse check_data
parse-wire ns ack name values hn ha hv =
    let (js, e) = marshal-arr_head (cons (str name) (to_items values)) in
    rw e (
      parse_packet-namespace default_parser (empty_message_of packet_event) ns _ refl hn
        (ack_id-NotSlash ack js)
      ∙ after_namespace-ack_id default_parser (record (empty_message_of packet_event) { ns = ns })
          ack js refl ha
      ∙ after_ack_id-event (record (empty_message_of packet_event) { ns = ns; ack_id = to_id ack })
          (to_items values) js name e refl hv
      ∙ rw (raw_items-to_items values) refl)

-- An event with a name is always serialized if its arguments are JSON values, and the default
-- parser reads the bytes back as the same event: the type, the namespace, the acknowledgement id
-- and the name are those sent, and each payload is the JSON of the argument. The namespace begins
-- with a slash and has no comma or opening bracket, the id is below 10 ^ 18, and the numbers among
-- the arguments are number literals.
pub parse-serialize_event :
    (ns : Bytes) (ack : Option ℕ) (name : Bytes) (values : List Value)
    → IsNamespace ns
    → IsShortId ack
    → name ≢ []
    → AreItems (to_items values)
    → (bs : Bytes) × (serialize (some (event_packet ns ack name values)) ≡ ok bs)
      × (parse default_parser bs ≡ ok (event_read ns ack name values))
parse-serialize_event ns ack name values hn ha h hv = (
  wire ns ack name values,
  serialize-event ns ack name values h,
  parse-wire ns ack name values hn ha hv,
)
