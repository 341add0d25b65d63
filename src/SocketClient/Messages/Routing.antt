-- ===== src/SocketClient/Messages/Routing.antt =====
-- socket.io/v5/client/handlers.go: which handlers a message reaches, and what it leaves alone.
use mathlib.Core.Path.{subst}
use go_socket_io.Base.{
  ℕ, ◌≡◌, ◌≢◌, refl, sym, ap, ◌∙◌, true, Option, none, some, List, [], ◌++◌, map, Bytes, ok, arith,
  ◌==◌, inl, inr, Bool-cases, Result-cases, equal, equal_iff, equal_refl,
}
use go_socket_io.Base.Int.{ℤ, pos, negsuc}
use go_socket_io.Json.{Value, to_items, marshal}
use go_socket_io.Json.Complete.{AreItems}
use go_socket_io.SocketParser.Packet.{Message, Event, packet_ack, packet_connect}
use go_socket_io.SocketParser.Serialize.{serialize}
use go_socket_io.SocketParser.Callback.{raw}
use go_socket_io.SocketParser.Parse.RoundTrip.{
  IsNamespace, IsShortId, event_packet, event_read, parse-serialize_event,
}
use go_socket_io.SocketClient.{
  Parser, Namespace, Client, Effect, Outcome, done, panic, or_empty, namespace, put,
}
use go_socket_io.SocketClient.Messages.{
  on_message, handle_message, handle_ack, on_ack, dispatch, in_namespace, start_all, start_all_any,
}
use go_socket_io.SocketClient.Messages.Crash.{as_parser}

-- Every handler that was there still is, and an open gate stays open.
pub record Keeps {H A : Type 0} (ns ns' : Namespace H A) : Type 0 where
  pub handlers : (e : Bytes) → ns'.handlers e ≡ ns.handlers e
  pub any_handlers : ns'.any_handlers ≡ ns.any_handlers
  pub name : ns'.name ≡ ns.name
  pub connected : ns.connected ≡ true → ns'.connected ≡ true

abbrev pub KeptIn : {H A : Type 0} → Namespace H A → Option (Namespace H A) → Type 0
KeptIn ns none = ⊥
KeptIn ns (some ns') = Keeps ns ns'

abbrev pub OutKeeps :
    {H A T D : Type 0} → Bytes → Namespace H A → Outcome (Client H A T D) (Effect H A T) → Type 0
OutKeeps k ns (done c es) = KeptIn ns (c.namespaces k)
OutKeeps k ns panic = Unit

Keeps-refl : {H A : Type 0} (ns : Namespace H A) → Keeps ns ns
Keeps-refl ns = record {
  handlers = λ e. refl;
  any_handlers = refl;
  name = refl;
  connected = λ h. h;
}

some-inj : {X : Type 0} {a b : X} → some a ≡ some b → a ≡ b
some-inj h = cc

KeptIn-self :
    {H A : Type 0} (ns : Namespace H A) (o : Option (Namespace H A)) → o ≡ some ns → KeptIn ns o
KeptIn-self ns o e = rw e (Keeps-refl ns)

module _ {H A T D : Type 0} (k : Bytes) (ns : Namespace H A) where
  connect-KeptIn :
      (c : Client H A T D) (key : Bytes) (o : Namespace H A)
      → c.namespaces k ≡ some ns
      → c.namespaces key ≡ some o
      → KeptIn ns (put c.namespaces key (some (record o { connected = true })) k)
  connect-KeptIn c key o known addressed = elim (Bool-cases (equal key k)) [
    | inr other ↦ rw other (KeptIn-self ns (c.namespaces k) known)
    | inl same ↦ rw same (
        subst (λ (m : Namespace H A). Keeps ns (record m { connected = true }))
          (some-inj (sym known ∙ ap c.namespaces (sym ((equal_iff key k).0 same)) ∙ addressed))
          (record {
            handlers = λ e. refl;
            any_handlers = refl;
            name = refl;
            connected = λ h. refl;
          }))
  ]

  dispatch-keeps :
      (c : Client H A T D) (o : Namespace H A) (msg : Message Bytes)
      → c.namespaces k ≡ some ns
      → c.namespaces msg.ns ≡ some o
      → OutKeeps k ns (dispatch c o msg)
  unfolding dispatch
  dispatch-keeps c o msg known addressed =
      let kept = KeptIn-self ns (c.namespaces k) known in
      let opened = connect-KeptIn c msg.ns o known addressed in ground (arith, kept, opened)

  namespace-known :
      (c : Client H A T D) (name : Bytes)
      → c.namespaces k ≡ some ns
      → ((namespace c name).0.namespaces k ≡ some ns)
        × ((namespace c name).0.namespaces name ≡ some (namespace c name).1)
  unfolding namespace
  namespace-known c name known = ground (arith, known, equal_iff name k, equal_refl name)

  in_namespace-keeps :
      (c : Client H A T D) (o : Option (Namespace H A)) (msg : Message Bytes)
      → c.namespaces k ≡ some ns
      → c.namespaces msg.ns ≡ o
      → OutKeeps k ns (in_namespace c o msg)
  in_namespace-keeps c (some o) msg known addressed = dispatch-keeps c o msg known addressed
  in_namespace-keeps c none msg known addressed =
      let r = namespace c msg.ns in
      let after = namespace-known c msg.ns known in
      elim (Bool-cases (msg.type == packet_connect)) [
        | inl made ↦ rw made (dispatch-keeps r.0 r.1 msg after.0 after.1)
        | inr dropped ↦ rw dropped (KeptIn-self ns (c.namespaces k) known)
      ]

  handle_ack-namespaces :
      (c : Client H A T D) (event : Event Bytes) (id : ℤ)
      → (handle_ack c event id).0.namespaces ≡ c.namespaces
  unfolding handle_ack
  handle_ack-namespaces c event (pos n) = ground arith
  handle_ack-namespaces c event (negsuc n) = ground arith

  on_ack-keeps :
      (c : Client H A T D) (id : Option ℤ) (event : Option (Event Bytes))
      → c.namespaces k ≡ some ns
      → OutKeeps k ns (on_ack c id event)
  on_ack-keeps c none event known = KeptIn-self ns (c.namespaces k) known
  on_ack-keeps c (some (pos n)) none known = KeptIn-self ns (c.namespaces k) known
  on_ack-keeps c (some (negsuc n)) none known = KeptIn-self ns (c.namespaces k) known
  on_ack-keeps c (some id) (some event) known =
      KeptIn-self ns _ (ap (λ m. m k) (handle_ack-namespaces c event id) ∙ known)

  handle_message-keeps :
      (c : Client H A T D) (msg : Message Bytes)
      → c.namespaces k ≡ some ns
      → OutKeeps k ns (handle_message c msg)
  unfolding handle_message
  handle_message-keeps c msg known = elim (Bool-cases (msg.type == packet_ack)) [
    | inl ack ↦ rw (ack, handle_message) (on_ack-keeps c msg.ack_id msg.event known)
    | inr other ↦
        rw (other, handle_message) (in_namespace-keeps c (c.namespaces msg.ns) msg known refl)
  ]

  -- No message removes a namespace, drops or changes one of its handlers, or closes its gate again.
  pub on_message-keeps :
      {C : Type 0} (p : Parser C H) (c : Client H A T D) (bs : Bytes)
      → c.namespaces k ≡ some ns
      → OutKeeps k ns (on_message p c bs)
  unfolding on_message
  on_message-keeps p c bs known = elim (Result-cases (p.parse bs)) [
    | inl (f, bad) ↦ rw (bad, on_message) (KeptIn-self ns (c.namespaces k) known)
    | inr (msg, good) ↦ rw (good, on_message) (handle_message-keeps c msg known)
  ]

module _ {C H A T D : Type 0} (wrap : C → Option H) (c : Client H A T D) where
  handle_message-event :
      (n : Bytes) (ns : Namespace H A) (ack : Option ℕ) (name : Bytes) (values : List Value)
      → c.namespaces n ≡ some ns
      → handle_message c (event_read n ack name values)
        ≡ done c (
            start_all_any ns.any_handlers name (map raw (map marshal values))
            ++ start_all (or_empty (ns.handlers name)) (map raw (map marshal values)))
  unfolding handle_message
  handle_message-event n ns ack name values known = rw known refl

  -- The bytes of an event that another client serializes, for a namespace that is known, start
  -- every handler of `OnAny` with the event's name and then every handler of that name, each with
  -- the JSON of the arguments, and change nothing. The event is one that can be read back.
  pub on_message-serialize_event :
      (n : Bytes) (ns : Namespace H A) (ack : Option ℕ) (name : Bytes) (values : List Value)
      → IsNamespace n
      → IsShortId ack
      → name ≢ []
      → AreItems (to_items values)
      → c.namespaces n ≡ some ns
      → (bs : Bytes) × (serialize (some (event_packet n ack name values)) ≡ ok bs)
        × (on_message (as_parser wrap) c bs
            ≡ done c (
                start_all_any ns.any_handlers name (map raw (map marshal values))
                ++ start_all (or_empty (ns.handlers name)) (map raw (map marshal values))))
  unfolding on_message
  on_message-serialize_event n ns ack name values hn ha ne hv known =
      let (bs, written, read) = parse-serialize_event n ack name values hn ha ne hv in
      (bs, written, rw (read, on_message) (handle_message-event n ns ack name values known))
