-- ===== src/EngineParser.antt =====
-- engine.io/v4/defs.go and engine.io/v4/parser/parser.go: the packets of Engine.IO, one byte of
-- type and then the data. A size limit is an `int64`; a byte is a number below 256.
pub mod RoundTrip
pub mod Limits
mod Tests
use go_socket_io.Base.{
  ℕ, ◌+◌, ◌-◌, ◌*◌, ◌%◌, Bool, Option, none, List, [], ◌∷◌, Bytes, length, Result, ok, err, ◌>>=◌,
  ltb, if◌then◌else◌,
}
use go_socket_io.Base.Int.{ℤ, pos, is_nonpos, to_ℕ}

-- The constants of type `EngineIOPacket`, a byte.
abbrev pub packet_open : ℕ
packet_open = 0

abbrev pub packet_close : ℕ
packet_close = 1

abbrev pub packet_ping : ℕ
packet_ping = 2

abbrev pub packet_pong : ℕ
packet_pong = 3

abbrev pub packet_message : ℕ
packet_message = 4

abbrev pub packet_upgrade : ℕ
packet_upgrade = 5

abbrev pub packet_noop : ℕ
packet_noop = 6

-- `Message`; its field `Data` is `body` here.
pub record Message : Type 0 where
  pub force : Option Bool
  pub type : ℕ
  pub body : Bytes

-- The errors of the package, in the order of the source.
pub data Error : Type 0 where
  max_size_not_positive empty_message message_too_large : Error
  unknown_packet_type : ℕ → Error

pub record EngineIoV4Parser : Type 0 where
  pub max_serialize_size : ℤ

abbrev pub default_max_serialize_size : ℕ
default_max_serialize_size = 64 * 1024 * 1024

abbrev pub ParserOption : Type 0
ParserOption = EngineIoV4Parser → Result Error EngineIoV4Parser

apply_options : List ParserOption → EngineIoV4Parser → Result Error EngineIoV4Parser
apply_options [] p = ok p
apply_options (opt ∷ opts) p = do q ← opt p; apply_options opts q

pub new_engine_io_v4_parser : List ParserOption → Result Error EngineIoV4Parser
unfolding apply_options
new_engine_io_v4_parser options =
    apply_options options (record { max_serialize_size = pos default_max_serialize_size })

pub with_max_serialize_size : ℤ → ParserOption
with_max_serialize_size size p =
    if is_nonpos size
    then err max_size_not_positive
    else ok (record p { max_serialize_size = size })

-- `data[0] - 0x30` on a byte wraps below '0'.
unfoldable pub parse : Bytes → Result Error Message
parse [] = err empty_message
parse (b ∷ rest) =
    let packet_type = (b + 256 - 0x30) % 256 in
    if ltb packet_noop packet_type
    then err (unknown_packet_type b)
    else ok (record { force = none; type = packet_type; body = rest })

-- The limit that `Serialize` works with: the default stands in for a value that is not positive.
unfoldable pub limit : EngineIoV4Parser → ℕ
limit p =
    if is_nonpos p.max_serialize_size then default_max_serialize_size else to_ℕ p.max_serialize_size

unfoldable pub serialize : EngineIoV4Parser → Message → Result Error Bytes
serialize p msg =
    if ltb (limit p) (length msg.body)
    then err message_too_large
    else ok ((msg.type + 0x30) % 256 ∷ msg.body)
