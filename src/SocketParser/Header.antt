-- ===== src/SocketParser/Header.antt =====
-- socket.io/v5/parser/default/parser.go: `checkData`, `extractNamespace` and `extractAckId`.
pub mod Laws
use go_socket_io.Base.{
  ℕ, zero, suc, ◌+◌, ◌-◌, ◌%◌, Bool, ◌||◌, Option, none, some, List, [], ◌∷◌, Bytes, Result, ok,
  err, ◌>>=◌, ltb, ◌==◌, if◌then◌else◌, take, drop,
}
use go_socket_io.Base.Int.{ℤ, pos}
use go_socket_io.SocketParser.Packet.{
  Message, Error, empty_message, binary_unsupported, wrong_package_payload, packet_binary_event,
  packet_binary_ack, packet_unknown,
}
use go_socket_io.SocketParser.Decimal.{atoi, atoi_from}

-- `data[0] - '0'` on a byte wraps below '0'. Beside the type there may be an error.
unfoldable pub check_data : Bytes → ℕ × Option Error
check_data [] = (packet_unknown, some empty_message)
check_data (b ∷ rest) =
    let event_type = (b + 256 - b'0') % 256 in
    if event_type == packet_binary_event || event_type == packet_binary_ack
    then (event_type, some binary_unsupported)
    else (event_type, none)

abbrev cons_fst : ℕ → Option (Bytes × Bytes) → Option (Bytes × Bytes)
cons_fst c none = none
cons_fst c (some (a, b)) = some (c ∷ a, b)

-- The loop of `extractNamespace`: what is before the first comma and behind it, unless a payload
-- begins before or there is no comma.
unfoldable pub split_namespace : Bytes → Option (Bytes × Bytes)
split_namespace [] = none
split_namespace (c ∷ cs) =
    if c == b','
    then some ([], cs)
    else if c == b'[' || c == b'{'
    then none
    else cons_fst c (split_namespace cs)

abbrev set_namespace : {P : Type 0} → Message P → Bytes → Option (Bytes × Bytes) → Message P × Bytes
set_namespace msg packet_data none = (msg, packet_data)
set_namespace msg packet_data (some (ns, rest)) = (record msg { ns = ns }, rest)

-- On a slice that is not empty; `Parse` calls it on no other.
unfoldable pub extract_namespace : {P : Type 0} → Message P → ℕ → Bytes → Message P × Bytes
unfolding split_namespace
extract_namespace msg c cs =
    if c == b'/' then set_namespace msg (c ∷ cs) (split_namespace (c ∷ cs)) else (msg, c ∷ cs)

-- The loop of `extractAckId` from index `i`, with the digits seen so far: how many digits lead.
unfoldable pub scan_digits : ℕ → ℕ → Bytes → Result Error ℕ
scan_digits i ack_end [] = ok ack_end
scan_digits i ack_end (ch ∷ cs) =
    if ltb ch b'0' || ltb b'9' ch
    then ok ack_end
    else if ltb 18 (i + 1)
    then err wrong_package_payload
    else scan_digits (i + 1) (i + 1) cs

abbrev take_ack_id : {P : Type 0} → Message P → Bytes → ℕ → Message P × Bytes
take_ack_id msg packet_data zero = (msg, packet_data)
take_ack_id msg packet_data (suc n) =
    (record msg { ack_id = some (pos (atoi (take (suc n) packet_data))) }, drop (suc n) packet_data)

unfoldable pub extract_ack_id : {P : Type 0} → Message P → Bytes → Result Error (Message P × Bytes)
unfolding scan_digits
extract_ack_id msg packet_data = do
  ack_end ← scan_digits 0 0 packet_data
  ok (take_ack_id msg packet_data ack_end)
