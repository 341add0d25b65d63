-- ===== src/SocketParser/Serialize/Capacity.antt =====
-- socket.io/v5/parser/default/serializer.go: the capacity reserved by `prepareSerializationInfo`.
use go_socket_io.Base.{
  ℕ, ◌+◌, ◌≤◌, ◌≡◌, refl, Option, none, some, [], ◌∷◌, ◌++◌, Bytes, length, length-append, ok, ap,
  ◌∙◌, arith, >>=-eq-ok, if◌then◌else◌,
}
use go_socket_io.SocketParser.Packet.{Event}
use go_socket_io.SocketParser.Serialize.{
  Arg, Packet, Info, serialize, validate_message, prepare_serialization_info, add_event,
  add_payload, marshal_event, marshal_payload, packet_bytes, namespace_bytes, ack_id_bytes, is_root,
}

-- The length written for the header and the JSON is counted.
abbrev Counts : ℕ → Info → Type 0
Counts n i = n + length i.json_data ≤ i.pkg_len

add_event-Counts :
    (e : Option (Event Arg)) (n : ℕ) (i : Info) {j : Info}
    → n ≤ i.pkg_len
    → i.json_data ≡ []
    → add_event e i ≡ ok j
    → Counts n j × (n ≤ j.pkg_len) × (j.ack_id ≡ i.ack_id)
add_event-Counts none n i h e q = ground arith
add_event-Counts (some e) n i h q r =
    let (bs, m, done) = >>=-eq-ok (marshal_event e) _ r in ground arith

add_payload-Counts :
    (a : Option Arg) (n : ℕ) (i : Info) {j : Info}
    → n ≤ i.pkg_len
    → Counts n i
    → add_payload a i ≡ ok j
    → Counts n j × (j.ack_id ≡ i.ack_id)
add_payload-Counts none n i h c q = ground arith
add_payload-Counts (some a) n i h c q =
    let (bs, m, done) = >>=-eq-ok (marshal_payload a) _ q in ground arith

length-namespace_bytes :
    (ns : Bytes) → length (namespace_bytes ns) ≤ (if is_root ns then 0 else length ns + 1)
length-namespace_bytes ns = ground (arith, length-append ns (b',' ∷ []))

prepare-Counts :
    (msg : Packet) {i : Info}
    → prepare_serialization_info msg ≡ ok i
    → (1 + length (namespace_bytes msg.ns) + length i.ack_id + length i.json_data ≤ i.pkg_len)
unfolding prepare_serialization_info
prepare-Counts msg e =
    let ns_len : ℕ = if is_root msg.ns then 0 else length msg.ns + 1 in
    let ack = ack_id_bytes msg.ack_id in
    let start : Info = record { pkg_len = 1 + ns_len + length ack; json_data = []; ack_id = ack } in
    let n : ℕ = 1 + ns_len + length ack in
    let (i1, first, second) = >>=-eq-ok (add_event msg.event start) _ e in
    let after_event = add_event-Counts msg.event n start (omega arith) refl first in
    let after_payload = add_payload-Counts msg.payload n i1 after_event.1 after_event.0 second in
    omega (
      arith,
      length-namespace_bytes msg.ns,
      ap length (after_payload.1 ∙ after_event.2),
      after_payload.0,
    )

length-packet_bytes :
    (msg : Packet) (i : Info)
    → length (packet_bytes msg i)
      ≡ 1 + length (namespace_bytes msg.ns) + length i.ack_id + length i.json_data
length-packet_bytes msg i = omega (
  arith,
  length-append (namespace_bytes msg.ns) (i.ack_id ++ i.json_data),
  length-append i.ack_id i.json_data,
)

-- The capacity reserved for a packet is enough: what `Serialize` returns is no longer than one
-- byte more than the length that `prepareSerializationInfo` computes.
pub serialize-length :
    (msg : Packet) {i : Info} {bs : Bytes}
    → prepare_serialization_info msg ≡ ok i
    → serialize (some msg) ≡ ok bs
    → length bs ≤ 1 + i.pkg_len
unfolding serialize
serialize-length msg {i = j} {bs} e q =
    let (u, valid, rest) = >>=-eq-ok (validate_message (some msg)) _ q in
    let (i, info, done) = >>=-eq-ok (prepare_serialization_info msg) _ rest in
    let bytes : packet_bytes msg i ≡ bs = cc done in
    let same : i ≡ j = cc (info, e) in
    omega (
      arith,
      length-packet_bytes msg i,
      ap length bytes,
      prepare-Counts msg info,
      ap (λ (k : Info). k.pkg_len) same,
    )
