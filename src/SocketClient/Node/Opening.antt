-- ===== src/SocketClient/Node/Opening.antt =====
-- socket.io/v5/client over engine.io/v4/client: the connect packet, its answer, and `Emit`.
mod Tests
use go_socket_io.Base.{
  ℕ, ◌≤◌, ◌≡◌, ◌≢◌, refl, sym, ap, ◌∙◌, Bool, true, false, Option, none, some, List, [], ◌∷◌, ◌++◌,
  Bytes, codes, length, ok, arith, equal, equal_refl,
}
use go_socket_io.SocketParser.Packet.{Message, packet_connect}
use go_socket_io.SocketParser.Parse.{empty_message_of}
use go_socket_io.SocketParser.Parse.Connect.{connect_answer, connect_read, parse-connect_answer}
use go_socket_io.SocketParser.Parse.RoundTrip.{IsNamespace}
use go_socket_io.SocketParser.Serialize.{Arg, Packet, serialize}
use go_socket_io.SocketParser.Callback.{nil}
use go_socket_io.EngineParser.{EngineIoV4Parser, limit, parse}
use go_socket_io.EngineClient as EngineClient
use go_socket_io.EngineClient.{HandshakeResponse, Transports, send_message, handle}
use go_socket_io.EngineClient.Panics as Panics
use go_socket_io.EngineClient.Delivery.{send_open-handle_packet}
use go_socket_io.EngineClient.Packets.{handle_packet, handle_parsed, call_handler}
use go_socket_io.SocketClient.{Parser, Namespace, Client, Effect, send, done, put, or_empty}
use go_socket_io.SocketClient.Messages as Messages
use go_socket_io.SocketClient.Messages.{start_all, handle_message}
use go_socket_io.SocketClient.Messages.Crash.{as_parser}
use go_socket_io.SocketClient.Emit.{
  EventArgument, Argument, Sent, Emits, passes, cancelled, emit_connected, send_packet,
}
use go_socket_io.SocketClient.Emit as Emit
use go_socket_io.SocketClient.Node.{
  Handler, on_message, Node, to_node_error, connect_socket, receive,
}
use go_socket_io.SocketClient.Node.Delivery.{receive-handled}

-- The packet that `connectSocketIO` sends.
abbrev pub connect_packet : {H A T D : Type 0} → (D → Arg) → Client H A T D → Packet
connect_packet to_arg c = record (empty_message_of packet_connect) {
  ns = c.default_ns;
  payload = some (to_arg c.handshake_data);
}

-- The client with a namespace whose gate is open.
abbrev pub opened : {H A T D : Type 0} → Client H A T D → Bytes → Namespace H A → Client H A T D
opened c n ns = record c { namespaces = put c.namespaces n (some (record ns { connected = true })) }

module _ {C H A T D : Type 0} (wrap : C → Option H) (c : Client H A T D) (n : Bytes)
    (ns : Namespace H A) (known : c.namespaces n ≡ some ns) where
  handle_message-connect :
      handle_message c (connect_read n)
      ≡ done (opened c n ns) (start_all (or_empty (ns.handlers (codes "connect"))) (nil ∷ []))
  unfolding handle_message
  handle_message-connect = rw known refl

  on_message-connect :
      (js : Bytes)
      → IsNamespace n
      → Messages.on_message (as_parser wrap) c (connect_answer n js)
        ≡ done (opened c n ns) (start_all (or_empty (ns.handlers (codes "connect"))) (nil ∷ []))
  unfolding Messages.on_message
  on_message-connect js h =
      rw (parse-connect_answer n js h, Messages.on_message) handle_message-connect

  -- `Emit` waits for a namespace that is not connected, unless the context is done.
  shut-Emits :
      (e : EventArgument) (args : List (Argument C T))
      (r : Client H A T D × List (Effect H A T) × Sent)
      → ns.connected ≡ false
      → ¬ (Emits (as_parser wrap) c false n e args r)
  shut-Emits e args r shut (passes other there open' q) = cc
  shut-Emits e args r shut (cancelled over q) = cc

  opened-Emits :
      (e : EventArgument) (args : List (Argument C T))
      → Emits
          (as_parser wrap)
          (opened c n ns)
          false
          n
          e
          args
          (emit_connected (as_parser wrap) (opened c n ns) n e args)
  opened-Emits e args = passes (record ns { connected = true }) (rw (equal_refl n) refl) refl refl

module _ {H A T D Tr : Type 0} (ts : Transports Tr Handler) (q : EngineIoV4Parser)
    (unmarshal : Bytes → Option HandshakeResponse) (n : Node H A T D Tr) where
  -- A message packet goes to the handler of messages.
  handle_packet-message :
      (bs : Bytes)
      → handle_packet ts (Panics.as_parser q) unmarshal n.engine (b'4' ∷ bs)
        ≡ EngineClient.done (call_handler n.engine n.engine.message_handler bs) none
  unfolding handle_packet handle_parsed parse
  handle_packet-message bs = refl

module _ {C H A T D Tr : Type 0} (ts : Transports Tr Handler) (q : EngineIoV4Parser)
    (unmarshal : Bytes → Option HandshakeResponse) (wrap : C → Option H) (n : Node H A T D Tr)
    (ns : Namespace H A) where
  connect_socket-sent :
      (to_arg : D → Arg) (t : Tr) (bs : Bytes)
      → n.engine.transport ≡ some t
      → serialize (some (connect_packet to_arg n.socket)) ≡ ok bs
      → length bs ≤ limit q
      → (w : Bytes) × (connect_socket ts (Panics.as_parser q) (as_parser wrap) to_arg n
          ≡ done
              (
                record n { engine = EngineClient.after n.engine (send_message t w) },
                to_node_error (ts.answer n.engine.calls (send_message t w)),
              )
              (send bs ∷ []))
  unfolding connect_socket Emit.connect_socket_io send_packet
  connect_socket-sent to_arg t bs there written fits =
      let (w, out, back) =
        send_open-handle_packet ts q unmarshal n.engine n.engine t bs fits there in
      (w, rw (written, send_packet) (rw out refl))

  -- The connect packet of a client, and the server's answer to it: the packet is one call of the
  -- transport; until the answer comes, `Emit` on the namespace waits; the answer, with whatever
  -- object in it, opens the namespace and starts the handlers of "connect" with a nil argument, and
  -- `Emit` passes then. The namespace can be read back, is known and not connected, and the
  -- packet can be serialized within the size limit.
  pub receive_opens :
      (to_arg : D → Arg) (t : Tr) (bs js : Bytes) (e : EventArgument) (args : List (Argument C T))
      (r : Client H A T D × List (Effect H A T) × Sent)
      → IsNamespace n.socket.default_ns
      → n.socket.namespaces n.socket.default_ns ≡ some ns
      → ns.connected ≡ false
      → n.engine.transport ≡ some t
      → n.engine.message_handler ≡ some on_message
      → serialize (some (connect_packet to_arg n.socket)) ≡ ok bs
      → length bs ≤ limit q
      → let answer = connect_answer n.socket.default_ns js in
        let c = opened n.socket n.socket.default_ns ns in
        (w : Bytes) × (connect_socket ts (Panics.as_parser q) (as_parser wrap) to_arg n
          ≡ done
              (
                record n { engine = EngineClient.after n.engine (send_message t w) },
                to_node_error (ts.answer n.engine.calls (send_message t w)),
              )
              (send bs ∷ []))
        × (¬ (Emits (as_parser wrap) n.socket false n.socket.default_ns e args r))
        × (receive ts
              (Panics.as_parser q)
              (as_parser wrap)
              unmarshal
              (record n { engine = EngineClient.after n.engine (send_message t w) })
              (b'4' ∷ answer)
            ≡ done
                (
                  record {
                    socket = c;
                    engine =
                        EngineClient.after
                          (EngineClient.after n.engine (send_message t w))
                          (handle on_message answer);
                  },
                  none,
                )
                (start_all (or_empty (ns.handlers (codes "connect"))) (nil ∷ [])))
        × Emits
            (as_parser wrap)
            c
            false
            n.socket.default_ns
            e
            args
            (emit_connected (as_parser wrap) c n.socket.default_ns e args)
  receive_opens to_arg t bs js e args r name known shut there wired written fits =
      let (w, out) = connect_socket-sent to_arg t bs there written fits in
      let waiting = record n { engine = EngineClient.after n.engine (send_message t w) } in
      (
        w,
        out,
        shut-Emits wrap n.socket n.socket.default_ns ns known e args r shut,
        receive-handled ts (Panics.as_parser q) (as_parser wrap) unmarshal waiting _ _ _ _
            (handle_packet-message ts q unmarshal waiting (connect_answer n.socket.default_ns js))
            wired (on_message-connect wrap n.socket n.socket.default_ns ns known js name),
        opened-Emits wrap n.socket n.socket.default_ns ns known e args,
      )
