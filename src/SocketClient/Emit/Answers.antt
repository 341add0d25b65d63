-- ===== src/SocketClient/Emit/Answers.antt =====
-- socket.io/v5/client/emitters.go: emissions that ask for an acknowledgement, and their answers.
use go_socket_io.Base.{
  ℕ, ◌+◌, ◌≡◌, ◌≢◌, refl, Option, none, some, List, [], ◌∷◌, map, Bytes, ok, err, arith,
}
use go_socket_io.Base.Int.{pos}
use go_socket_io.SocketParser.Packet.{Event, Error}
use go_socket_io.SocketParser.Serialize.{Arg, Packet}
use go_socket_io.SocketParser.Callback.{raw}
use go_socket_io.SocketClient.{Parser, direct, Client, send, start, put_ℕ}
use go_socket_io.SocketClient.Messages.{handle_ack}
use go_socket_io.SocketClient.Emit.{
  EventArgument, Argument, failed, handed_over, not_serialized, prepare, emit_connected,
  send_packet_with_ack_timeout, send_packet, wrap, event_message,
}

-- The packet of an emission with the id that it gets.
abbrev pub asking : {H A T D : Type 0} → Client H A T D → Bytes → Option (Event Arg) → Packet
asking c ns e = record (event_message ns e) { ack_id = some (pos (c.ack_counter + 1)) }

module _ {C H A T D : Type 0} (p : Parser C H) (c : Client H A T D) (ns : Bytes) (e : EventArgument)
    (args : List (Argument C T)) (ev : Option (Event Arg)) (callback : C) (h : H)
    (f : Option T) where
  emitted :
      prepare e args
        ≡ ok (record { timeout = none; timeout_callback = f; ack_callback = some callback }, ev)
      → p.wrap_callback callback ≡ some h
      → emit_connected p c ns e args
        ≡ send_packet p
            (record c {
              ack_counter = c.ack_counter + 1;
              ack_callbacks = put_ℕ c.ack_callbacks (c.ack_counter + 1) (some (direct h));
            })
            []
            (asking c ns ev)
  unfolding emit_connected send_packet_with_ack_timeout wrap
  emitted prepared wrapped = rw (prepared, emit_connected) (rw (wrapped, wrap) refl)

  -- An emission with a callback and no timeout, whose packet can be serialized, sends that packet
  -- under the next id; the answer to this id starts the callback with the raw payloads and uses the
  -- id up, and the callbacks of the other ids are as they were.
  pub emit-handle_ack :
      (bs : Bytes) (answer : Event Bytes)
      → prepare e args
        ≡ ok (record { timeout = none; timeout_callback = f; ack_callback = some callback }, ev)
      → p.wrap_callback callback ≡ some h
      → p.serialize (some (asking c ns ev)) ≡ ok bs
      → let r = emit_connected p c ns e args in
        (r.1 ≡ send bs ∷ [])
        × (r.2 ≡ handed_over bs)
        × ((handle_ack r.0 answer (pos (c.ack_counter + 1))).1
            ≡ start (some h) (map raw answer.payloads) ∷ [])
        × ((handle_ack r.0 answer (pos (c.ack_counter + 1))).0.ack_callbacks (c.ack_counter + 1)
            ≡ none)
        × ((n : ℕ) → n ≢ c.ack_counter + 1 → r.0.ack_callbacks n ≡ c.ack_callbacks n)
  unfolding handle_ack send_packet
  emit-handle_ack bs answer prepared wrapped serialized =
      rw (emitted prepared wrapped) (
        rw (serialized, send_packet) (refl, refl, ground arith, ground arith, λ n ne. ground arith))

  -- An emission whose packet cannot be serialized fails and sends nothing, but its callback stays
  -- registered under the id that it got, and an answer to that id starts it.
  pub emit_failed-registered :
      (x : Error) (answer : Event Bytes)
      → prepare e args
        ≡ ok (record { timeout = none; timeout_callback = f; ack_callback = some callback }, ev)
      → p.wrap_callback callback ≡ some h
      → p.serialize (some (asking c ns ev)) ≡ err x
      → let r = emit_connected p c ns e args in
        (r.1 ≡ [])
        × (r.2 ≡ failed (not_serialized x))
        × (r.0.ack_callbacks (c.ack_counter + 1) ≡ some (direct h))
        × ((handle_ack r.0 answer (pos (c.ack_counter + 1))).1
            ≡ start (some h) (map raw answer.payloads) ∷ [])
  unfolding send_packet handle_ack
  emit_failed-registered x answer prepared wrapped refused =
      rw (emitted prepared wrapped)
        (rw (refused, send_packet) (refl, refl, ground arith, ground arith))

-- Nothing is registered under the id, and no goroutine waits for its answer.
abbrev pub IsOver : {H A T D : Type 0} → ℕ → Client H A T D → Type 0
IsOver n c = (c.ack_callbacks n ≡ none) × (c.waiters n ≡ none)
