-- ===== src/SocketClient/Messages.antt =====
-- socket.io/v5/client/handlers.go: what the client does with a message.
pub mod Crash
pub mod Routing
use go_socket_io.Base.{
  ℕ, Bool, true, false, ◌||◌, Option, none, some, List, [], ◌∷◌, ◌++◌, map, Bytes, codes, Result,
  ok, err, ◌==◌, if◌then◌else◌,
}
use go_socket_io.Base.Int.{ℤ, pos, negsuc}
use go_socket_io.SocketParser.Packet.{
  Message, Event, packet_connect, packet_disconnect, packet_event, packet_ack, packet_connect_error,
}
use go_socket_io.SocketParser.Callback.{Input, raw, nil}
use go_socket_io.SocketClient.{
  Parser, Namespace, AckCallback, direct, channel, Waiter, Client, Effect, start, start_any,
  Outcome, done, panic, put, put_ℕ, or_empty, namespace, set_namespace,
}

-- The payload of a message as a handler gets it.
abbrev pub to_input : Option Bytes → Input
to_input none = nil
to_input (some bs) = raw bs

module _ {H A T : Type 0} where
  abbrev pub start_all : List (Option H) → List Input → List (Effect H A T)
  start_all hs input = map (λ h. start h input) hs

  abbrev pub start_all_any : List A → Bytes → List Input → List (Effect H A T)
  start_all_any hs name input = map (λ h. start_any h name input) hs

module _ {H A T : Type 0} where
  -- `handleConnectError`, `handleDisconnect` and the last part of `handleConnect`.
  unfoldable pub notify : Namespace H A → Bytes → Option Bytes → List (Effect H A T)
  notify ns event payload = start_all (or_empty (ns.handlers event)) (to_input payload ∷ [])

  -- `handleEvent`
  unfoldable pub handle_event : Namespace H A → Event Bytes → List (Effect H A T)
  handle_event ns event =
      start_all_any ns.any_handlers event.name (map raw event.payloads)
      ++ start_all (or_empty (ns.handlers event.name)) (map raw event.payloads)

module _ {H T : Type 0} where
  abbrev receive : Option (Waiter H T) → List Input → Option (Waiter H T)
  receive none input = none
  receive (some w) input = some (record w { received = some input })

module _ {H A T D : Type 0} where
  -- The gate of the namespace of that key is opened once; a second connect packet finds it open.
  unfoldable pub handle_connect :
      Client H A T D → Bytes → Namespace H A → Option Bytes → Client H A T D × List (Effect H A T)
  unfolding notify
  handle_connect c key ns payload =
      (set_namespace c key (record ns { connected = true }), notify ns (codes "connect") payload)

  abbrev delete_ack : Client H A T D → ℤ → Client H A T D
  delete_ack c (pos n) = record c { ack_callbacks = put_ℕ c.ack_callbacks n none }
  delete_ack c (negsuc n) = c

  abbrev pub find_ack : Client H A T D → ℤ → Option (AckCallback H)
  find_ack c (pos n) = c.ack_callbacks n
  find_ack c (negsuc n) = none

  -- The callback is called, or the payloads are put into the channel of the goroutine that waits.
  abbrev answer :
      Client H A T D
      → ℤ
      → Option (AckCallback H)
      → List Input
      → Client H A T D × List (Effect H A T)
  answer c id none input = (c, [])
  answer c id (some (direct h)) input = (c, start (some h) input ∷ [])
  answer c (pos n) (some channel) input =
      (record c { waiters = put_ℕ c.waiters n (receive (c.waiters n) input) }, [])
  answer c (negsuc n) (some channel) input = (c, [])

  -- `handleAck`
  unfoldable pub handle_ack :
      Client H A T D → Event Bytes → ℤ → Client H A T D × List (Effect H A T)
  handle_ack c event id = answer (delete_ack c id) id (find_ack c id) (map raw event.payloads)

  abbrev finish : Client H A T D × List (Effect H A T) → Outcome (Client H A T D) (Effect H A T)
  finish (c, es) = done c es

  abbrev pub on_ack :
      Client H A T D → Option ℤ → Option (Event Bytes) → Outcome (Client H A T D) (Effect H A T)
  on_ack c none event = done c []
  on_ack c (some id) none = done (delete_ack c id) []
  on_ack c (some id) (some event) = finish (handle_ack c event id)

  -- An event packet with no event is a nil dereference.
  abbrev on_event :
      Client H A T D
      → Namespace H A
      → Option (Event Bytes)
      → Outcome (Client H A T D) (Effect H A T)
  on_event c ns none = panic
  on_event c ns (some event) = done c (handle_event ns event)

  -- The message of a connect error is dereferenced for the log, behind the handlers' start.
  abbrev on_connect_error :
      Client H A T D
      → Namespace H A
      → Option Bytes
      → Option Bytes
      → Outcome (Client H A T D) (Effect H A T)
  on_connect_error c ns payload none = panic
  on_connect_error c ns payload (some text) = done c (notify ns (codes "error") payload)

  -- The switch of `onMessage`, for a namespace that is there.
  unfoldable pub dispatch :
      Client H A T D → Namespace H A → Message Bytes → Outcome (Client H A T D) (Effect H A T)
  unfolding notify handle_event handle_connect
  dispatch c ns msg =
      if msg.type == packet_disconnect
      then done c (notify ns (codes "disconnect") msg.payload)
      else if msg.type == packet_connect
      then finish (handle_connect c msg.ns ns msg.payload)
      else if msg.type == packet_event
      then on_event c ns msg.event
      else if msg.type == packet_connect_error
      then on_connect_error c ns msg.payload msg.error_message
      else done c []

  -- An unknown namespace is made for a connect packet; any other packet for it is dropped.
  abbrev pub in_namespace :
      Client H A T D
      → Option (Namespace H A)
      → Message Bytes
      → Outcome (Client H A T D) (Effect H A T)
  in_namespace c (some ns) msg = dispatch c ns msg
  in_namespace c none msg =
      if msg.type == packet_connect
      then (let (c', ns) = namespace c msg.ns in dispatch c' ns msg)
      else done c []

  unfoldable pub handle_message :
      Client H A T D → Message Bytes → Outcome (Client H A T D) (Effect H A T)
  unfolding handle_ack dispatch namespace
  handle_message c msg =
      if msg.type == packet_ack
      then on_ack c msg.ack_id msg.event
      else in_namespace c (c.namespaces msg.ns) msg

  -- `onMessage`; a message that cannot be parsed is dropped.
  unfoldable pub on_message :
      {C : Type 0} → Parser C H → Client H A T D → Bytes → Outcome (Client H A T D) (Effect H A T)
  unfolding handle_message
  on_message p c bs = elim (p.parse bs) [ ok msg ↦ handle_message c msg | err e ↦ done c [] ]
