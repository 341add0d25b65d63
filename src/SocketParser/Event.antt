-- ===== src/SocketParser/Event.antt =====
-- socket.io/v5/parser/default/payloadparser.go: an event is a JSON array, read through a
-- `json.Decoder`: the bracket, the name unless the event answers an acknowledgement, and then the
-- payloads as raw JSON.
pub mod RoundTrip
pub mod Fuel
use go_socket_io.Base.{
  ℕ, zero, suc, ◌+◌, Bool, true, false, not, ◌&&◌, ◌||◌, Option, none, some, List, [], ◌∷◌, Bytes,
  codes, equal, length, Result, ok, err, ◌>>=◌, ◌==◌, if◌then◌else◌,
}
use go_socket_io.Json.Scan.{skip_space, read_value}
use go_socket_io.Json.Quote.{unquote}
use go_socket_io.SocketParser.Packet.{Event, Error, parse_event_error}

abbrev or_fail : {A : Type 0} → Option A → Result Error A
or_fail none = err parse_event_error
or_fail (some a) = ok a

-- The next byte that is no blank, and what follows it: `Decoder.Token` at a bracket or a comma.
abbrev match_byte : ℕ → Bytes → Option Bytes
match_byte b [] = none
match_byte b (c ∷ cs) = if c == b then some cs else none

unfoldable pub delimiter : ℕ → Bytes → Result Error Bytes
delimiter b cs = or_fail (match_byte b (skip_space cs))

-- `Decoder.Decode` of a value; only the first value of an array has no comma before it.
unfoldable pub decode : Bool → Bytes → Result Error (Bytes × Bytes)
unfolding delimiter
decode true cs = or_fail (read_value cs)
decode false cs = do rest ← delimiter b',' cs; or_fail (read_value rest)

abbrev more_head : Bytes → Bool
more_head [] = false
more_head (c ∷ cs) = not (c == b']' || c == b'}')

-- `Decoder.More`
unfoldable pub more : Bytes → Bool
more cs = more_head (skip_space cs)

-- `json.Unmarshal` into a string: a string literal, or `null`, which changes nothing.
unfoldable pub unmarshal_string : Bytes → Option Bytes
unmarshal_string raw = if equal raw (codes "null") then some [] else unquote raw

unfoldable pub decode_name : Bool → Bytes → Result Error (Bytes × Bytes)
unfolding decode unmarshal_string
decode_name true cs = ok ([], cs)
decode_name false cs = do
  (raw, rest) ← decode true cs
  name ← or_fail (unmarshal_string raw)
  ok (name, rest)

-- How the loop ends, with its payload put in front of those behind it; `none` is out of fuel.
abbrev cons_payload :
    Bytes → Option (Result Error (List Bytes × Bytes)) → Option (Result Error (List Bytes × Bytes))
cons_payload p none = none
cons_payload p (some (err e)) = some (err e)
cons_payload p (some (ok (ps, rest))) = some (ok (p ∷ ps, rest))

abbrev with_payload :
    (Bytes → Option (Result Error (List Bytes × Bytes)))
    → Result Error (Bytes × Bytes)
    → Option (Result Error (List Bytes × Bytes))
with_payload loop (err e) = some (err e)
with_payload loop (ok (p, rest)) = cons_payload p (loop rest)

-- The loop over the payloads, with fuel; the flag says that no value was read yet. Each round takes
-- a byte, so as much fuel as bytes and one is enough; with less it may run out, which is `none` and
-- not an error.
unfoldable pub decode_payloads : ℕ → Bool → Bytes → Option (Result Error (List Bytes × Bytes))
unfolding decode more
decode_payloads zero first cs = none
decode_payloads (suc fuel) first cs = elim (more cs) [
  | true ↦ with_payload (λ rest. decode_payloads fuel false rest) (decode first cs)
  | false ↦ some (ok ([], cs))
]

-- The loop's result; there is one by Event/Fuel.
abbrev pub returned : Option (Result Error (List Bytes × Bytes)) → Result Error (List Bytes × Bytes)
returned none = err parse_event_error
returned (some r) = r

-- Bytes behind the closing bracket are not looked at.
unfoldable pub parse_event_default : Bytes → Bool → Result Error (Event Bytes)
unfolding delimiter decode_name decode_payloads
parse_event_default cs is_ack = do
  inside ← delimiter b'[' cs
  (name, rest) ← decode_name is_ack inside
  (payloads, tail) ← returned (decode_payloads (length rest + 1) is_ack rest)
  _ ← delimiter b']' tail
  ok (record { name = name; payloads = payloads })
