-- ===== src/EngineClient/Logging.antt =====
-- engine.io/v4/client/client.go: what is logged of a packet, up to the switch over its type.
pub mod Redaction
mod Tests
use go_socket_io.Base.{
  ℕ, zero, suc, ◌+◌, ◌-◌, ◌/◌, ◌%◌, Bool, true, false, Option, none, some, List, [], ◌∷◌, ◌++◌,
  Bytes, codes, length, Result, ok, err, ltb, if◌then◌else◌,
}
use go_socket_io.Logger.{Line, debug, error}
use go_socket_io.SocketParser.Decimal.{itoa_ℕ}
use go_socket_io.EngineParser.{
  Error, max_size_not_positive, empty_message, message_too_large, unknown_packet_type, Message,
  parse,
}

-- `payload`
unfoldable pub payload : Bool → Bytes → Bytes
payload redact bs =
    if redact then codes "[redacted " ++ itoa_ℕ (length bs) ++ codes " bytes]" else bs

abbrev hex_digit : ℕ → ℕ
hex_digit n = if ltb n 10 then b'0' + n else b'a' + n - 10

-- The texts of the parser's errors; the byte of an unknown type is in hexadecimal.
unfoldable pub error_text : Error → Bytes
error_text max_size_not_positive = codes "maxSerializeSize must be positive"
error_text empty_message = codes "empty message"
error_text message_too_large = codes "message data too large"
error_text (unknown_packet_type b) =
    codes "unknown engine.io packet type: 0x" ++ hex_digit (b / 16) ∷ hex_digit (b % 16) ∷ []

abbrev pub parsed_line : Bool → Bytes → Result Error Message → Line
parsed_line redact bs (err e) =
    (error, codes "Can't parse packet: " ++ bs ++ (codes " " ++ error_text e))
parsed_line redact bs (ok m) =
    (debug, codes "handle: " ++ itoa_ℕ m.type ++ (codes " " ++ payload redact m.body))

-- The first lines of `handlePacket`.
unfoldable pub packet_lines : Bool → Bytes → List Line
unfolding payload error_text parse
packet_lines redact bs =
    (debug, codes "handle packet: " ++ payload redact bs) ∷ parsed_line redact bs (parse bs) ∷ []
