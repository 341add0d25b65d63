-- ===== src/SocketParser/Serialize.antt =====
-- socket.io/v5/parser/default/serializer.go.
pub mod Capacity
use go_socket_io.Base.{
  ℕ, zero, suc, ◌+◌, ◌%◌, Bool, true, false, not, ◌&&◌, ◌||◌, Option, none, some, List, [], ◌∷◌,
  ◌++◌, map, Bytes, codes, equal, length, Result, ok, err, ◌>>=◌, ◌>>◌, ◌==◌, if◌then◌else◌,
}
use go_socket_io.Base.Int.{ℤ}
use go_socket_io.Json.{Value, str, arr, Items, nil, cons, marshal}
use go_socket_io.SocketParser.Packet.{
  Event, Message, Error, empty_package, binary_unsupported, wrong_event_name, unmarshalable,
  packet_event, packet_binary_event, packet_binary_ack,
}
use go_socket_io.SocketParser.Decimal.{itoa}

-- An argument of type `interface{}`: a value that `json.Marshal` writes, or one that it refuses.
pub data Arg : Type 0 where
  json : Value → Arg
  opaque : Arg

abbrev pub Packet : Type 0
Packet = Message Arg

abbrev pub event_name : Option (Event Arg) → Bytes
event_name none = []
event_name (some e) = e.name

abbrev pub is_nil : Bytes → Bool
is_nil [] = true
is_nil (c ∷ cs) = false

-- `none` is a nil pointer.
unfoldable pub validate_message : Option Packet → Result Error (Unit {0})
validate_message none = err empty_package
validate_message (some msg) =
    if msg.type == packet_binary_ack || msg.type == packet_binary_event
    then err binary_unsupported
    else if msg.type == packet_event && is_nil (event_name msg.event)
    then err wrong_event_name
    else ok tt

-- `json.Marshal` fails on a list if it fails on one element.
unfoldable pub to_values : List Arg → Result Error Items
to_values [] = ok nil
to_values (json v ∷ args) = do vs ← to_values args; ok (cons v vs)
to_values (opaque ∷ args) = err unmarshalable

abbrev pub name_first : Bytes → Items → Items
name_first [] vs = vs
name_first (c ∷ cs) vs = cons (str (c ∷ cs)) vs

-- The JSON of an event: its name, if it has one, and its payloads.
unfoldable pub marshal_event : Event Arg → Result Error Bytes
unfolding to_values
marshal_event e = do vs ← to_values e.payloads; ok (marshal (arr (name_first e.name vs)))

-- `null`, `""` and `{}` are not sent.
abbrev is_empty_json : Bytes → Bool
is_empty_json bs = equal bs (codes "null") || equal bs (codes "\"\"") || equal bs (codes "{}")

unfoldable pub marshal_payload : Arg → Result Error Bytes
marshal_payload opaque = err unmarshalable
marshal_payload (json v) = ok (if is_empty_json (marshal v) then [] else marshal v)

-- The three results of `prepareSerializationInfo`.
pub record Info : Type 0 where
  pub pkg_len : ℕ
  pub json_data : Bytes
  pub ack_id : Bytes

abbrev add_event : Option (Event Arg) → Info → Result Error Info
add_event none i = ok i
add_event (some e) i = do
  bs ← marshal_event e
  ok (record i { json_data = bs; pkg_len = i.pkg_len + (length e.name + 2 + length bs) })

abbrev add_payload : Option Arg → Info → Result Error Info
add_payload none i = ok i
add_payload (some a) i = do
  bs ← marshal_payload a
  ok (record i { json_data = bs; pkg_len = i.pkg_len + length bs })

abbrev pub ack_id_bytes : Option ℤ → Bytes
ack_id_bytes none = []
ack_id_bytes (some n) = itoa n

abbrev pub is_root : Bytes → Bool
is_root ns = equal ns (codes "/")

unfoldable pub prepare_serialization_info : Packet → Result Error Info
unfolding marshal_event marshal_payload
prepare_serialization_info msg = do
  let ns_len = if is_root msg.ns then 0 else length msg.ns + 1
  let ack = ack_id_bytes msg.ack_id
  i ←
      add_event msg.event
        (record { pkg_len = 1 + ns_len + length ack; json_data = []; ack_id = ack })
  add_payload msg.payload i

abbrev pub namespace_bytes : Bytes → Bytes
namespace_bytes ns = if is_root ns || is_nil ns then [] else ns ++ b',' ∷ []

abbrev pub packet_bytes : Packet → Info → Bytes
packet_bytes msg i = (msg.type + 0x30) % 256 ∷ (namespace_bytes msg.ns ++ (i.ack_id ++ i.json_data))

unfoldable pub serialize : Option Packet → Result Error Bytes
unfolding validate_message prepare_serialization_info
serialize none = do _ ← validate_message none; ok []
serialize (some msg) = do
  _ ← validate_message (some msg)
  i ← prepare_serialization_info msg
  ok (packet_bytes msg i)
