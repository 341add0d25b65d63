-- ===== src/EngineParser/RoundTrip.antt =====
-- engine.io/v4/parser/parser.go: `Parse` against `Serialize`, and the packet types accepted.
use go_socket_io.Base.{
  ◌-◌, ◌%◌, ltb, Bool-cases, ltb→lt, ltb-false→le, ℕ, ◌+◌, ◌≤◌, ◌<◌, ◌≡◌, refl, none, [], ◌∷◌, ◌⊎◌,
  inl, inr, Bytes, length, ok, err, arith, IsBytes,
}
use go_socket_io.EngineParser.{
  Message, EngineIoV4Parser, packet_noop, parse, limit, serialize, empty_message,
  unknown_packet_type,
}

-- What `Serialize` writes for a packet of a known type, `Parse` reads back: the same type and data.
-- The field `Force` is not sent.
pub parse-serialize :
    (p : EngineIoV4Parser) (msg : Message) {bs : Bytes}
    → msg.type ≤ packet_noop
    → serialize p msg ≡ ok bs
    → parse bs ≡ ok (record msg { force = none })
unfolding parse serialize
parse-serialize p msg {bs = []} h e = ground arith
parse-serialize p msg {bs = b ∷ rest} h e = ground arith

-- Whatever `Parse` accepts, `Serialize` writes again byte for byte, if its data is within the limit.
pub serialize-parse :
    (p : EngineIoV4Parser) (bs : Bytes) {msg : Message}
    → IsBytes bs
    → parse bs ≡ ok msg
    → length msg.body ≤ limit p
    → serialize p msg ≡ ok bs
unfolding parse serialize
serialize-parse p [] h e le = cc
serialize-parse p (b ∷ rest) h e le = ground arith

-- `Parse` refuses a byte string exactly when it is empty or does not begin with a digit from '0'
-- to '6', and says which: the one test after the wrapping subtraction rejects the bytes below '0'
-- as well. An accepted string gives the digit's value and the bytes behind it.
pub parse_cases :
    (bs : Bytes)
    → IsBytes bs
    → ((bs ≡ []) × (parse bs ≡ err empty_message))
      ⊎ ((b : ℕ) × (rest : Bytes) × (bs ≡ b ∷ rest)
          × ((b < b'0') ⊎ (b'6' < b))
          × (parse bs ≡ err (unknown_packet_type b)))
      ⊎ ((k : ℕ) × (rest : Bytes) × (bs ≡ (b'0' + k) ∷ rest)
          × (k ≤ packet_noop)
          × (parse bs ≡ ok (record { force = none; type = k; body = rest })))
unfolding parse
parse_cases [] h = inl (refl, refl)
parse_cases (b ∷ rest) h = elim (Bool-cases (ltb packet_noop ((b + 256 - 0x30) % 256))) [
  | inl bad ↦ inr (inl (b, rest, refl, omega (arith, ltb→lt _ _ bad), rw bad refl))
  | inr good ↦
      let small = ltb-false→le packet_noop ((b + 256 - 0x30) % 256) good in
      inr (inr (b - 0x30, rest, ground arith, omega arith, ground arith))
]
