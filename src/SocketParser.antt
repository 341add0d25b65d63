-- ===== src/SocketParser.antt =====
-- socket.io/v5/defs.go and socket.io/v5/parser/default: the packets of Socket.IO. The payloads of a
-- message that was read are raw JSON, those of a message to send are values, so messages are
-- generic in them. Logging is left out.
pub mod Packet
pub mod Decimal
pub mod Header
pub mod Event
pub mod Parse
pub mod Serialize
pub mod Callback
pub mod Constructor
mod Tests
