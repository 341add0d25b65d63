-- ===== src/SocketClient/Node/Delivery.antt =====
-- socket.io/v5/client over engine.io/v4/client: an event from `Emit` of one client to the handlers
-- of another.
use go_socket_io.Base.{
  ℕ, suc, ◌+◌, false, ◌≤◌, ◌≡◌, ◌≢◌, refl, true, Option, none, some, List, [], ◌∷◌, ◌++◌, map,
  Bytes, length, ok, ◌==◌, arith,
}
use go_socket_io.Json.{Value, to_items, marshal}
use go_socket_io.Json.Complete.{AreItems}
use go_socket_io.SocketParser.Serialize.{json, serialize}
use go_socket_io.SocketParser.Callback.{raw}
use go_socket_io.SocketParser.Parse.RoundTrip.{IsNamespace, event_packet}
use go_socket_io.EngineParser.{EngineIoV4Parser, limit}
use go_socket_io.EngineClient as EngineClient
use go_socket_io.EngineClient.{HandshakeResponse, Transports, send_message, handle}
use go_socket_io.EngineClient.Panics as Panics
use go_socket_io.EngineClient.Delivery.{send_open-handle_packet}
use go_socket_io.SocketClient.{Parser, Namespace, Client, Effect, send, done, or_empty}
use go_socket_io.EngineClient.Packets.{handle_packet, call_handler}
use go_socket_io.SocketClient.Messages as Messages
use go_socket_io.SocketClient.Messages.{start_all, start_all_any}
use go_socket_io.SocketClient.Messages.Crash.{as_parser}
use go_socket_io.SocketClient.Messages.Routing.{on_message-serialize_event}
use go_socket_io.SocketClient.Emit.{
  handed_over, Argument, payload, name, no_options, collect, prepare, emit_connected, send_packet,
}
use go_socket_io.SocketClient.Node.{
  on_handled, Handler, on_message, Node, to_node_error, emit, receive, handler_called,
}

module _ {C T : Type 0} where
  -- The arguments of `Emit` for payloads that are JSON values.
  abbrev pub payloads : List Value → List (Argument C T)
  payloads values = map (λ v. payload (json v)) values

  collect-payloads :
      (values : List Value)
      → collect {C = C} {T = T} false no_options (payloads values)
        ≡ ok (no_options, map json values)
  unfolding collect
  collect-payloads [] = refl
  collect-payloads (v ∷ values) = rw (collect-payloads values) refl

  prepare-payloads :
      (event : Bytes) (values : List Value)
      → prepare {C = C} {T = T} (name event) (payloads values)
        ≡ ok (no_options, some (record { name = event; payloads = map json values }))
  unfolding prepare
  prepare-payloads event values = rw (collect-payloads values) refl

  emit_connected-payloads :
      {H A D : Type 0} (wrap : C → Option H) (c : Client H A T D) (n event : Bytes)
      (values : List Value) (bs : Bytes)
      → serialize (some (event_packet n none event values)) ≡ ok bs
      → emit_connected (as_parser wrap) c n (name event) (payloads values)
        ≡ (c, send bs ∷ [], handed_over bs)
  unfolding emit_connected send_packet
  emit_connected-payloads wrap c n event values bs written =
      rw (prepare-payloads event values, emit_connected) (rw (written, send_packet) refl)

length-succ : (n : ℕ) → (suc n == n + 1) ≡ true
length-succ n = ground arith

handler_called-cons :
    {Tr : Type 0} (f : Handler) (body : Bytes) (calls : List (EngineClient.Call Tr Handler))
    → handler_called (handle f body ∷ calls) (length calls) ≡ some (f, body)
unfolding handler_called
handler_called-cons f body calls = ground arith

module _ {C H A T D Tr : Type 0} (ts : Transports Tr Handler) (packets : EngineClient.Parser)
    (parser : Parser C H) (unmarshal : Bytes → Option HandshakeResponse)
    (to : Node H A T D Tr) where
  pub receive-handled :
      (w bs : Bytes) (c : Client H A T D) (es : List (Effect H A T))
      → handle_packet ts packets unmarshal to.engine w
        ≡ EngineClient.done (call_handler to.engine to.engine.message_handler bs) none
      → to.engine.message_handler ≡ some on_message
      → Messages.on_message parser to.socket bs ≡ done c es
      → receive ts packets parser unmarshal to w
        ≡ done
            (
              record { socket = c; engine = EngineClient.after to.engine (handle on_message bs) },
              none,
            )
            es
  unfolding receive
  receive-handled w bs c es arrived wired handled =
      rw (arrived, receive)
        (rw wired
          (rw (handler_called-cons on_message bs to.engine.calls) (rw (handled, on_handled) refl)))

module _ {C C' H H' A A' T T' D D' Tr : Type 0} (ts : Transports Tr Handler) (q : EngineIoV4Parser)
    (unmarshal : Bytes → Option HandshakeResponse) (wrap : C → Option H) (wrap' : C' → Option H')
    (from : Node H A T D Tr) (to : Node H' A' T' D' Tr) where
  -- An event that is emitted by one client with JSON values as its payloads, on a namespace that can
  -- be read back and with a name, is one call of that client's transport, with bytes that make
  -- another client start every handler of `OnAny` and then every handler of that event of the
  -- namespace, each with the JSON of the payloads, and change nothing but its list of calls. The
  -- packet is within the size limit, and the receiver knows the namespace and has its handler for
  -- messages.
  pub emit-receive :
      (n event : Bytes) (values : List Value) (t : Tr) (ns : Namespace H' A')
      → IsNamespace n
      → event ≢ []
      → AreItems (to_items values)
      → ((bs : Bytes)
          → serialize (some (event_packet n none event values)) ≡ ok bs
          → length bs ≤ limit q)
      → from.engine.transport ≡ some t
      → to.socket.namespaces n ≡ some ns
      → to.engine.message_handler ≡ some on_message
      → (w bs : Bytes) × (emit ts
            (Panics.as_parser q)
            (as_parser wrap)
            from
            n
            (name event)
            (payloads values)
          ≡ done
              (
                record from { engine = EngineClient.after from.engine (send_message t w) },
                to_node_error (ts.answer from.engine.calls (send_message t w)),
              )
              (send bs ∷ []))
        × (receive ts (Panics.as_parser q) (as_parser wrap') unmarshal to w
            ≡ done
                (record to { engine = EngineClient.after to.engine (handle on_message bs) }, none)
                (start_all_any ns.any_handlers event (map raw (map marshal values))
                  ++ start_all (or_empty (ns.handlers event)) (map raw (map marshal values))))
  unfolding emit receive
  emit-receive n event values t ns hn he hv fits there known wired =
      let (bs, written, handled) =
        on_message-serialize_event wrap' to.socket n ns none event values hn tt he hv known in
      let (w, out, arrived) =
        send_open-handle_packet ts q unmarshal from.engine to.engine t bs (fits bs written) there in
      (
        w,
        bs,
        rw (emit_connected-payloads wrap from.socket n event values bs written) (rw out refl),
        receive-handled ts (Panics.as_parser q) (as_parser wrap') unmarshal to w bs to.socket _
            arrived wired handled,
      )
