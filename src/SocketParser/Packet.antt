-- ===== src/SocketParser/Packet.antt =====
-- socket.io/v5/defs.go, and the errors of socket.io/v5/parser/default.
use go_socket_io.Base.{ℕ, Option, List, Bytes}
use go_socket_io.Base.Int.{ℤ}

-- The constants of type `SocketIOPacket`, a byte.
abbrev pub packet_connect : ℕ
packet_connect = 0

abbrev pub packet_disconnect : ℕ
packet_disconnect = 1

abbrev pub packet_event : ℕ
packet_event = 2

abbrev pub packet_ack : ℕ
packet_ack = 3

abbrev pub packet_connect_error : ℕ
packet_connect_error = 4

abbrev pub packet_binary_event : ℕ
packet_binary_event = 5

abbrev pub packet_binary_ack : ℕ
packet_binary_ack = 6

abbrev pub packet_unknown : ℕ
packet_unknown = 0xff

pub record Event (P : Type 0) : Type 0 where
  pub name : Bytes
  pub payloads : List P

pub record Message (P : Type 0) : Type 0 where
  pub type : ℕ
  pub binary_attachments : Option ℤ
  pub ns : Bytes
  pub ack_id : Option ℤ
  pub event : Option (Event P)
  pub payload : Option P
  pub error_message : Option Bytes

-- `unmarshalable` is the error of `json.Marshal`, `custom` one of a foreign payload parser.
pub data Error : Type 0 where
  empty_message binary_unsupported wrong_package_payload parse_event_error : Error
  empty_package wrong_event_name unmarshalable custom : Error
