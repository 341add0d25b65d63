-- ===== src/SocketClient/Node/Constructor/Wired.antt =====
-- socket.io/v5/client/constructor.go: what a client that `NewClient` returns is ready for.
use mathlib.Core.Path.{subst}
use go_socket_io.Url.{Url}
use go_socket_io.Base.{
  ℕ, Bool, ◌≡◌, refl, Option, none, some, List, ok, >>=-eq-ok, ok-inj, equal, equal_refl,
}
use go_socket_io.EngineClient.Lifecycle as Lifecycle
use go_socket_io.SocketClient.{namespace, new_namespace}
use go_socket_io.SocketClient.Node.{connect_socket_io, on_message}
use go_socket_io.SocketClient.Node.Constructor.{
  InitClient, ClientOption, apply_options, Engine, given, made, Made, Defaults, new_engine,
  register_handlers, pick_engine, init_client, finish, name_or_root, check_timer, check, new_client,
}

-- An Engine.IO client that was made calls the Socket.IO client for messages and at the connect.
abbrev pub IsHandled : {Tr G : Type 0} → Engine Tr G → Type 0
IsHandled (given g) = Unit
IsHandled (made e) =
    (e.message_handler ≡ some on_message) × (e.after_connect ≡ some connect_socket_io)

-- The default namespace is there, with no handler and not connected; no callback waits.
pub record IsReady {H A F D Tr P G : Type 0} (m : Made H A F D Tr P G) : Type 0 where
  pub handled : IsHandled m.engine
  pub default_there :
      m.socket.namespaces m.socket.default_ns ≡ some (new_namespace m.socket.default_ns)
  pub no_acks : (n : ℕ) → m.socket.ack_callbacks n ≡ none

module _ {L T D P Tr G : Type 0} (ds : Defaults L T D P Tr) where
  pick_engine-IsHandled :
      (g : Option G) (u : Option Url) (log : L) (redact : Bool) {e : Engine Tr G}
      → pick_engine ds g u log redact ≡ ok e
      → IsHandled e
  unfolding register_handlers Lifecycle.on equal
  pick_engine-IsHandled none none log redact h = cc
  pick_engine-IsHandled (some g) (some u) log redact h = cc
  pick_engine-IsHandled (some g) none log redact h = subst IsHandled (ok-inj h) tt
  pick_engine-IsHandled none (some u) log redact {e = e} h =
      let (c, good, last) =
        >>=-eq-ok (new_engine ds u log redact) (λ x. ok (made (register_handlers x))) h in
      subst IsHandled {x = made (register_handlers c)} (ok-inj last) (refl, refl)

module _ {H A F L T D P Tr G : Type 0} (ds : Defaults L T D P Tr) where
  finish-IsReady :
      (c : InitClient L T P G) (log : L) (e : Engine Tr G)
      → IsHandled e
      → IsReady {H = H} {A = A} {F = F} (finish ds c log e)
  unfolding namespace
  finish-IsReady c log e h = record {
    handled = h;
    default_there = rw (equal_refl (name_or_root c.default_ns_name)) refl;
    no_acks = λ n. refl;
  }

  timer-IsReady :
      (c : InitClient L T P G) (log : L) (t : Option T) {m : Made H A F D Tr P G}
      → check_timer ds c log t ≡ ok m
      → IsReady m
  timer-IsReady c log none h = cc
  timer-IsReady c log (some t) h =
      let (e, picked, last) =
        >>=-eq-ok (pick_engine ds c.engineio c.url log c.redact_payload)
          (λ e. ok (finish ds c log e)) h in
      subst IsReady {x = finish ds c log e} (ok-inj last) (
        finish-IsReady c log e
          (pick_engine-IsHandled ds c.engineio c.url log c.redact_payload picked))

  check-IsReady :
      (c : InitClient L T P G) (log : Option L) {m : Made H A F D Tr P G}
      → check ds c log ≡ ok m
      → IsReady m
  check-IsReady c none h = cc
  check-IsReady c (some log) h = timer-IsReady c log c.timer h

  -- A client that `NewClient` returns, whatever options it was given, has its default namespace,
  -- not connected, and no callback that waits; and if it made its Engine.IO client, that calls
  -- `onMessage` for each message and `connectSocketIO` at the connect.
  pub new_client-IsReady :
      (options : List (ClientOption L T P G)) {m : Made H A F D Tr P G}
      → new_client ds options ≡ ok m
      → IsReady m
  unfolding new_client
  new_client-IsReady options h =
      let (c, applied, rest) =
        >>=-eq-ok (apply_options options (init_client ds)) (λ c. check ds c c.logger) h in
      check-IsReady c c.logger rest
