-- ===== src/SocketClient/Messages/Crash.antt =====
-- socket.io/v5/client/handlers.go with the default parser: the two packets on which `onMessage`
-- dereferences nil.
use go_socket_io.Base.{
  sym, ◌∙◌, ◌<◌, ℕ, ◌+◌, ◌-◌, ◌%◌, ◌≡◌, ◌≢◌, ◌↔◌, ◌⊎◌, refl, Option, none, some, [], ◌∷◌, Bytes,
  IsBytes, codes, Result, ok, err, arith, inl, inr, Option-cases,
}
use go_socket_io.SocketParser.Packet.{Message, packet_event, packet_connect_error}
use go_socket_io.SocketParser.Header.{check_data}
use go_socket_io.SocketParser.Serialize.{serialize}
use go_socket_io.SocketParser.Parse.{Failure, default_parser, parse, empty_message_of}
use go_socket_io.SocketParser.Parse.Content.{HasContent, parse-HasContent, parse_one_byte}
use go_socket_io.SocketClient.{Parser, Namespace, Client, panic}
use go_socket_io.SocketClient.Messages.{on_message, handle_message}

-- The default parser, as far as the client calls it.
abbrev pub as_parser : {C H : Type 0} → (C → Option H) → Parser C H
as_parser wrap = record {
  wrap_callback = wrap;
  parse = parse default_parser;
  serialize = serialize;
}

module _ {H A T D : Type 0} where
  handle_message-HasContent :
      (c : Client H A T D) (msg : Message Bytes) → HasContent msg → handle_message c msg ≢ panic
  unfolding handle_message
  handle_message-HasContent c msg h e = ground arith

  -- A message with nothing but its type panics exactly for these types.
  handle_message-empty :
      (c : Client H A T D) (t : ℕ)
      → handle_message c (empty_message_of t) ≡ panic
      → ((t ≡ packet_event) ⊎ (t ≡ packet_connect_error)) × (c.namespaces (codes "/") ≢ none)
  unfolding handle_message
  handle_message-empty c t e = ground arith

  handle_message-crash :
      (c : Client H A T D) (t : ℕ) (ns : Namespace H A)
      → (t ≡ packet_event) ⊎ (t ≡ packet_connect_error)
      → c.namespaces (codes "/") ≡ some ns
      → handle_message c (empty_message_of t) ≡ panic
  unfolding handle_message
  handle_message-crash c t ns h e = ground arith

module _ {C H A T D : Type 0} (wrap : C → Option H) (c : Client H A T D) where
  on_message-parsed :
      (bs : Bytes) (msg : Message Bytes)
      → parse default_parser bs ≡ ok msg
      → on_message (as_parser wrap) c bs ≡ handle_message c msg
  unfolding on_message
  on_message-parsed bs msg e = rw (e, on_message) refl

  on_message-refused :
      (bs : Bytes) {f : Failure}
      → parse default_parser bs ≡ err f
      → on_message (as_parser wrap) c bs ≢ panic
  unfolding on_message
  on_message-refused bs e h = ground arith

  one_byte :
      (b : ℕ) (msg : Message Bytes)
      → b < 256
      → msg ≡ empty_message_of ((b + 256 - b'0') % 256)
      → handle_message c msg ≡ panic
      → ((b ∷ [] ≡ codes "2") ⊎ (b ∷ [] ≡ codes "4")) × (c.namespaces (codes "/") ≢ none)
  one_byte b msg h same e =
      let (type, known) = handle_message-empty c ((b + 256 - b'0') % 256) (rw same at e) in
      (ground arith, known)

  panics_on :
      (bs : Bytes) (r : Result Failure (Message Bytes))
      → IsBytes bs
      → parse default_parser bs ≡ r
      → on_message (as_parser wrap) c bs ≡ panic
      → ((bs ≡ codes "2") ⊎ (bs ≡ codes "4")) × (c.namespaces (codes "/") ≢ none)
  panics_on bs (err f) h q e = absurd (on_message-refused bs q e)
  panics_on [] (ok msg) h q e = unfold parse check_data in cc q
  panics_on (b ∷ []) (ok msg) h q e =
      one_byte b msg h.0 (parse_one_byte b q) (sym (on_message-parsed (b ∷ []) msg q) ∙ e)
  panics_on (b ∷ d ∷ cs) (ok msg) h q e = absurd (
      handle_message-HasContent c msg (parse-HasContent b d cs q)
        (sym (on_message-parsed (b ∷ d ∷ cs) msg q) ∙ e))

  crash :
      (bs : Bytes) (t : ℕ)
      → parse default_parser bs ≡ ok (empty_message_of t)
      → (t ≡ packet_event) ⊎ (t ≡ packet_connect_error)
      → c.namespaces (codes "/") ≢ none
      → on_message (as_parser wrap) c bs ≡ panic
  crash bs t q h known = elim (Option-cases (c.namespaces (codes "/"))) [
    | inl unknown ↦ absurd (known unknown)
    | inr (ns, e) ↦ on_message-parsed bs (empty_message_of t) q ∙ handle_message-crash c t ns h e
  ]

  -- The client panics on a message exactly when the message is the single byte '2', an event with
  -- no payload, or '4', a connect error with no text, and the root namespace is known. The default
  -- parser accepts both.
  pub on_message-panic :
      (bs : Bytes)
      → IsBytes bs
      → (on_message (as_parser wrap) c bs ≡ panic)
        ↔ (((bs ≡ codes "2") ⊎ (bs ≡ codes "4")) × (c.namespaces (codes "/") ≢ none))
  on_message-panic bs h = (panics_on bs (parse default_parser bs) h refl, back)
    where
      back :
          ((bs ≡ codes "2") ⊎ (bs ≡ codes "4")) × (c.namespaces (codes "/") ≢ none)
          → on_message (as_parser wrap) c bs ≡ panic
      back (inl e, known) =
          rw e (crash (codes "2") 2 (unfold parse check_data in refl) (inl refl) known)
      back (inr e, known) =
          rw e (crash (codes "4") 4 (unfold parse check_data in refl) (inr refl) known)
