-- ===== src/SocketClient/Tests.antt =====
-- Tests and witnesses of the Socket.IO client. Callbacks, handlers and timeout functions are
-- numbers.
use go_socket_io.Base.{
  false, ℕ, ◌+◌, ◌≡◌, ◌≢◌, ◌⊎◌, ◌↔◌, refl, true, Option, none, some, List, [], ◌∷◌, ◌++◌, map,
  Bytes, ok, err, codes, arith, equal,
}
use go_socket_io.Base.Int.{pos}
use go_socket_io.Json.{Value, num, str, to_items, marshal}
use go_socket_io.Json.Complete.{AreItems}
use go_socket_io.Json.Quote.{quote, escape, escape_byte}
use go_socket_io.SocketParser.Decimal.{itoa, itoa_onto}
use go_socket_io.Json.Scan.{number_start, number_next, number_end}
use go_socket_io.SocketParser.Packet.{Event, unmarshalable}
use go_socket_io.SocketParser.Serialize.{Arg, json, opaque, serialize}
use go_socket_io.SocketParser.Parse.RoundTrip.{event_packet}
use go_socket_io.SocketParser.Callback.{raw}
use go_socket_io.SocketClient.{
  Parser, Namespace, direct, channel, Waiter, Client, send, start, done, panic, put, put_ℕ,
}
use go_socket_io.SocketClient.Messages.{on_message, handle_ack, start_all, start_all_any}
use go_socket_io.SocketClient.Messages.Crash.{as_parser, on_message-panic}
use go_socket_io.SocketClient.Messages.Routing.{
  OutKeeps, on_message-keeps, on_message-serialize_event,
}
use go_socket_io.SocketClient.Emit.{
  name, with_ack, payload, Argument, failed, handed_over, not_serialized, emit_connected, prepare,
  passes,
}
use go_socket_io.SocketClient.Emit.Run.{here, next, timer_fires, emit, on_timer}
use go_socket_io.SocketClient.Emit.Acks.{handle_ack_once}
use go_socket_io.SocketClient.Emit.Ledger.{Moves, view}
use go_socket_io.SocketClient.Emit.Ledger.Refinement.{refines_ledger}
use go_socket_io.SocketClient.Emit.Answers.{asking, emit-handle_ack, emit_failed-registered}

abbrev Test : Type 0
Test = Client ℕ ℕ ℕ (Unit {0})

abbrev parser : Parser ℕ ℕ
parser = as_parser some

abbrev root : Namespace ℕ ℕ
root = record {
  name = codes "/";
  handlers = put (λ e. none) (codes "chat") (some (some 7 ∷ []));
  any_handlers = 9 ∷ [];
  connected = true;
}

abbrev fresh : Test
fresh = record {
  handshake_data = tt;
  namespaces = put (λ n. none) (codes "/") (some root);
  default_ns = codes "/";
  ack_callbacks = λ n. none;
  ack_counter = 0;
  waiters = λ n. none;
}

abbrev waiter : Waiter ℕ ℕ
waiter = record { callback = some 5; timeout_callback = some 6; received = none }

-- One emission with a timeout is under way.
abbrev waiting : Test
waiting = record fresh {
  ack_callbacks = put_ℕ (λ n. none) 1 (some channel);
  ack_counter = 1;
  waiters = put_ℕ (λ n. none) 1 (some waiter);
}

root-known : fresh.namespaces (codes "/") ≡ some root
unfolding equal
root-known = refl

abbrev answer : Event Bytes
answer = record { name = []; payloads = codes "1" ∷ [] }

abbrev arguments : List Value
arguments = num (codes "12") ∷ str (codes "hi") ∷ []

arguments-AreItems : AreItems (to_items arguments)
unfolding number_start number_next number_end
arguments-AreItems = (refl, (tt, tt))

on_message-panic_example :
    (on_message parser fresh (codes "2") ≡ panic)
    ↔ (((codes "2" ≡ codes "2") ⊎ (codes "2" ≡ codes "4")) × (fresh.namespaces (codes "/") ≢ none))
on_message-panic_example = on_message-panic some fresh (codes "2") (omega arith)

on_message-serialize_event_example :
    (bs : Bytes) × (serialize (some (event_packet (codes "/") none (codes "chat") arguments))
      ≡ ok bs)
    × (on_message parser fresh bs
        ≡ done fresh (
            start_all_any root.any_handlers (codes "chat") (map raw (map marshal arguments))
            ++ start_all (some 7 ∷ []) (map raw (map marshal arguments))))
unfolding equal
on_message-serialize_event_example =
    on_message-serialize_event some fresh (codes "/") root none (codes "chat") arguments (refl, tt)
      tt (λ e. cc) arguments-AreItems root-known

on_message-keeps_example : OutKeeps (codes "/") root (on_message parser fresh (codes "0"))
on_message-keeps_example = on_message-keeps (codes "/") root parser fresh (codes "0") root-known

handle_ack_once_example :
    (handle_ack (on_timer (handle_ack waiting answer (pos 1)).0 1).0 answer (pos 1)).1 ≡ []
handle_ack_once_example =
    handle_ack_once parser waiting (on_timer (handle_ack waiting answer (pos 1)).0 1).0 1 answer
      answer (omega arith) (next here (timer_fires 1 refl))

-- A second answer to the same id.
abbrev late : Event Bytes
late = record { name = []; payloads = codes "2" ∷ [] }

abbrev ask : List (Argument ℕ ℕ)
ask = with_ack (some 3) ∷ payload (json (num (codes "1"))) ∷ []

abbrev ask_bytes : Bytes
ask_bytes = codes "21[\"chat\",1]"

abbrev ask_event : Option (Event Arg)
ask_event = some (record { name = codes "chat"; payloads = json (num (codes "1")) ∷ [] })

ask_prepared :
    prepare (name (codes "chat")) ask
    ≡ ok (record { timeout = none; timeout_callback = none; ack_callback = some 3 }, ask_event)
unfolding prepare
ask_prepared = refl

ask_serialized : serialize (some (asking fresh (codes "/") ask_event)) ≡ ok ask_bytes
unfolding serialize itoa itoa_onto marshal quote escape escape_byte equal
ask_serialized = refl

emit-handle_ack_example :
    let r = emit_connected parser fresh (codes "/") (name (codes "chat")) ask in
    (r.1 ≡ send ask_bytes ∷ [])
    × (r.2 ≡ handed_over ask_bytes)
    × ((handle_ack r.0 answer (pos (0 + 1))).1 ≡ start (some 3) (raw (codes "1") ∷ []) ∷ [])
    × ((handle_ack r.0 answer (pos (0 + 1))).0.ack_callbacks (0 + 1) ≡ none)
    × ((n : ℕ) → n ≢ 0 + 1 → r.0.ack_callbacks n ≡ none)
emit-handle_ack_example =
    emit-handle_ack parser fresh (codes "/") (name (codes "chat")) ask ask_event 3 3 none ask_bytes
      answer ask_prepared refl ask_serialized

-- The same emission with an argument that JSON cannot express.
abbrev bad_ask : List (Argument ℕ ℕ)
bad_ask = with_ack (some 3) ∷ payload opaque ∷ []

abbrev bad_event : Option (Event Arg)
bad_event = some (record { name = codes "chat"; payloads = opaque ∷ [] })

bad_prepared :
    prepare (name (codes "chat")) bad_ask
    ≡ ok (record { timeout = none; timeout_callback = none; ack_callback = some 3 }, bad_event)
unfolding prepare
bad_prepared = refl

bad_refused : serialize (some (asking fresh (codes "/") bad_event)) ≡ err unmarshalable
unfolding serialize equal
bad_refused = refl

emit_failed-registered_example :
    let r = emit_connected parser fresh (codes "/") (name (codes "chat")) bad_ask in
    (r.1 ≡ [])
    × (r.2 ≡ failed (not_serialized unmarshalable))
    × (r.0.ack_callbacks (0 + 1) ≡ some (direct 3))
    × ((handle_ack r.0 answer (pos (0 + 1))).1 ≡ start (some 3) (raw (codes "1") ∷ []) ∷ [])
emit_failed-registered_example =
    emit_failed-registered parser fresh (codes "/") (name (codes "chat")) bad_ask bad_event 3 3 none
      unmarshalable answer bad_prepared refl bad_refused

refines_ledger_example :
    let asked = (emit_connected parser fresh (codes "/") (name (codes "chat")) ask).0 in
    Moves (view fresh) (view asked) × ((view asked).waits ((view asked).last + 1) ≡ false)
refines_ledger_example =
    refines_ledger {p = parser} (λ j h. cc)
      (next here
        (emit false (codes "/") (name (codes "chat")) ask _ (passes root root-known refl refl)))
