-- ===== src/EngineClient/Logging/Tests.antt =====
-- Tests and a witness of the log lines.
use go_socket_io.Base.{◌≡◌, ◌↔◌, refl, true, [], ◌∷◌, codes}
use go_socket_io.Base.Int.{pos}
use go_socket_io.Logger.{printed, logf, warn, debug}
use go_socket_io.SocketParser.Decimal.{itoa_onto}
use go_socket_io.EngineParser.{parse}
use go_socket_io.EngineClient.Logging.{payload, error_text, packet_lines}
use go_socket_io.EngineClient.Logging.Redaction.{Alike, same_lines_iff}

accepted_lines :
    packet_lines true (codes "4secret")
    ≡ (debug, codes "handle packet: [redacted 7 bytes]")
      ∷ (debug, codes "handle: 4 [redacted 6 bytes]")
      ∷ []
unfolding packet_lines payload itoa_onto parse
accepted_lines = refl

-- What a logger of level WARN prints of a refused packet.
refused_lines :
    printed (record { level = pos warn }) (packet_lines true (codes "xsecret"))
    ≡ codes "Can't parse packet: xsecret unknown engine.io packet type: 0x78" ∷ []
unfolding packet_lines payload itoa_onto parse printed logf error_text
refused_lines = refl

same_lines_iff_example :
    (packet_lines true (codes "4ab") ≡ packet_lines true (codes "4cd"))
    ↔ Alike (codes "4ab") (codes "4cd") (parse (codes "4ab")) (parse (codes "4cd"))
same_lines_iff_example = same_lines_iff (codes "4ab") (codes "4cd")
