-- ===== src/SocketClient/Emit/Ledger/Messages.antt =====
-- socket.io/v5/client/handlers.go: what messages, registrations and the waiting goroutines do to the
-- ledger of acknowledgements.
use go_socket_io.Base.{
  ℕ, ◌∙◌, refl, Option, none, some, Bytes, arith, ◌==◌, inl, inr, Bool-cases, Result-cases,
}
use go_socket_io.Base.Int.{ℤ, pos, negsuc}
use go_socket_io.SocketParser.Packet.{Message, Event, packet_ack, packet_connect}
use go_socket_io.SocketClient.{
  Parser, Namespace, Client, Effect, Outcome, done, panic, on, namespace, Waiter,
}
use go_socket_io.SocketClient.Messages.{
  on_message, handle_message, handle_ack, on_ack, dispatch, in_namespace,
}
use go_socket_io.SocketClient.Emit.Run.{fired, on_context_done, on_received}
use go_socket_io.SocketClient.Emit.Ledger.{
  Move, idle, settles, view, Same, OutSame, OutMove, OutSame-Move,
}

module _ {H A T D : Type 0} (c : Client H A T D) where
  handle_ack-Move : (event : Event Bytes) (id : ℤ) → Move (view c) (view (handle_ack c event id).0)
  unfolding handle_ack
  handle_ack-Move event (pos m) = settles m (ground arith) (λ j. ground arith)
  handle_ack-Move event (negsuc m) = idle (ground arith) (λ j. ground arith)

  on_ack-Move : (id : Option ℤ) (event : Option (Event Bytes)) → OutMove c (on_ack c id event)
  on_ack-Move none event = idle refl (λ j. refl)
  on_ack-Move (some (pos m)) none = settles m refl (λ j. ground arith)
  on_ack-Move (some (negsuc m)) none = idle refl (λ j. refl)
  on_ack-Move (some id) (some event) = handle_ack-Move event id

  dispatch-Same : (ns : Namespace H A) (msg : Message Bytes) → OutSame c (dispatch c ns msg)
  unfolding dispatch
  dispatch-Same ns msg = ground arith

  namespace-Same : (name : Bytes) → Same c (namespace c name).0
  unfolding namespace
  namespace-Same name = ground arith

  pub on-Same :
      {C : Type 0} (p : Parser C H) (event : Bytes) (callback : C)
      → OutSame c (on p c event callback)
  unfolding on
  on-Same p event callback = ground arith

OutSame-trans :
    {H A T D : Type 0} (c d : Client H A T D) (r : Outcome (Client H A T D) (Effect H A T))
    → Same c d
    → OutSame d r
    → OutSame c r
OutSame-trans c d (done c' es) s t = (t.0 ∙ s.0, t.1 ∙ s.1)
OutSame-trans c d panic s t = t

module _ {H A T D : Type 0} (c : Client H A T D) where
  in_namespace-Same :
      (o : Option (Namespace H A)) (msg : Message Bytes) → OutSame c (in_namespace c o msg)
  in_namespace-Same (some ns) msg = dispatch-Same c ns msg
  in_namespace-Same none msg =
      let r = namespace c msg.ns in
      let made =
        OutSame-trans c r.0 (dispatch r.0 r.1 msg) (namespace-Same c msg.ns)
          (dispatch-Same r.0 r.1 msg) in
      elim (Bool-cases (msg.type == packet_connect)) [
        | inl yes' ↦ rw yes' made
        | inr no' ↦ rw no' (refl, refl)
      ]

  handle_message-Move : (msg : Message Bytes) → OutMove c (handle_message c msg)
  unfolding handle_message
  handle_message-Move msg = elim (Bool-cases (msg.type == packet_ack)) [
    | inl ack ↦ rw (ack, handle_message) (on_ack-Move c msg.ack_id msg.event)
    | inr other ↦
        rw (other, handle_message)
          (OutSame-Move c (in_namespace c (c.namespaces msg.ns) msg)
            (in_namespace-Same (c.namespaces msg.ns) msg))
  ]

  pub on_message-Move : {C : Type 0} (p : Parser C H) (bs : Bytes) → OutMove c (on_message p c bs)
  unfolding on_message
  on_message-Move p bs = elim (Result-cases (p.parse bs)) [
    | inl (f, bad) ↦ rw (bad, on_message) (idle refl (λ j. refl))
    | inr (msg, good) ↦ rw (good, on_message) (handle_message-Move msg)
  ]

  pub fired-Move : (m : ℕ) (w : Option (Waiter H T)) → Move (view c) (view (fired c m w).0)
  fired-Move m none = idle refl (λ j. refl)
  fired-Move m (some w) = settles m refl (λ j. ground arith)

  pub on_context_done-Same : (m : ℕ) → Same c (on_context_done c m).0
  unfolding on_context_done
  on_context_done-Same m = (refl, refl)

  pub on_received-Same : (m : ℕ) → Same c (on_received c m).0
  unfolding on_received
  on_received-Same m = ground arith
