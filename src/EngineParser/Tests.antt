-- ===== src/EngineParser/Tests.antt =====
-- Tests and witnesses of the Engine.IO parser.
use go_socket_io.Base.{
  ℕ, ◌+◌, ◌≡◌, ◌<◌, ◌⊎◌, refl, none, [], ◌∷◌, Bytes, ok, err, codes, arith, ◌≤◌,
}
use go_socket_io.Base.Int.{pos}
use go_socket_io.EngineParser.{
  Message, EngineIoV4Parser, parse, serialize, limit, packet_noop, empty_message,
  unknown_packet_type,
}
use go_socket_io.EngineParser.RoundTrip.{parse-serialize, serialize-parse, parse_cases}

abbrev hello : Message
hello = record { force = none; type = 4; body = codes "hi" }

abbrev small_parser : EngineIoV4Parser
small_parser = record { max_serialize_size = pos 2 }

parse_message : parse (codes "4hi") ≡ ok hello
unfolding parse
parse_message = refl

parse_errors :
    (parse [] ≡ err empty_message) × (parse (codes "/x") ≡ err (unknown_packet_type b'/'))
unfolding parse
parse_errors = (refl, refl)

serialize_hello : serialize small_parser hello ≡ ok (codes "4hi")
unfolding serialize limit
serialize_hello = refl

parse-serialize_example : parse (codes "4hi") ≡ ok hello
parse-serialize_example = parse-serialize small_parser hello (omega arith) serialize_hello

serialize-parse_example : serialize small_parser hello ≡ ok (codes "4hi")
unfolding limit
serialize-parse_example =
    serialize-parse small_parser (codes "4hi") (omega arith) parse_message (omega arith)

parse_cases_example :
    ((codes "4hi" ≡ []) × (parse (codes "4hi") ≡ err empty_message))
    ⊎ ((b : ℕ) × (rest : Bytes) × (codes "4hi" ≡ b ∷ rest)
        × ((b < b'0') ⊎ (b'6' < b))
        × (parse (codes "4hi") ≡ err (unknown_packet_type b)))
    ⊎ ((k : ℕ) × (rest : Bytes) × (codes "4hi" ≡ (b'0' + k) ∷ rest)
        × (k ≤ packet_noop)
        × (parse (codes "4hi") ≡ ok (record { force = none; type = k; body = rest })))
parse_cases_example = parse_cases (codes "4hi") (omega arith)
