-- ===== src/SocketClient.antt =====
-- socket.io/v5/client: the Socket.IO client. State is passed explicitly; what a call makes the
-- outside do (packets sent, handlers started, timers) is its list of effects, and a nil
-- dereference is `panic`. Logging and locks are left out; a handler started by `safeGo` runs on
-- its own and cannot stop the client.
pub mod Messages
pub mod Emit
pub mod Node
mod Tests
use go_socket_io.Base.{
  ℕ, suc, ◌+◌, Bool, true, false, Option, none, some, List, [], ◌∷◌, ◌++◌, map, Bytes, equal, codes,
  Result, ok, err, ◌==◌, if◌then◌else◌,
}
use go_socket_io.Base.Int.{ℤ, pos, negsuc}
use go_socket_io.SocketParser.Packet.{Message, Event, Error}
use go_socket_io.SocketParser.Parse.{Failure}
use go_socket_io.SocketParser.Serialize.{Packet}
use go_socket_io.SocketParser.Callback.{Input}

-- `Parser`, the interface of dep.go. `C` stands for callbacks, `H` for wrapped ones; `none` is the
-- nil function.
pub record Parser (C H : Type 0) : Type 0 where
  pub wrap_callback : C → Option H
  pub parse : Bytes → Result Failure (Message Bytes)
  pub serialize : Option Packet → Result Error Bytes

-- `namespace`; `A` stands for the handlers of `OnAny`. Whether `waitConnected` is closed is
-- `connected`: it is closed once, at the first connect packet.
pub record Namespace (H A : Type 0) : Type 0 where
  pub name : Bytes
  pub handlers : Bytes → Option (List (Option H))
  pub any_handlers : List A
  pub connected : Bool

-- An acknowledgement callback: the wrapped callback itself, or the channel of the waiting
-- goroutine of that number.
pub data AckCallback (H : Type 0) : Type 0 where
  direct : H → AckCallback H
  channel : AckCallback H

-- The goroutine of an emission with a timeout: its wrapped callback, the function to call at the
-- timeout, and what the channel `done` holds.
pub record Waiter (H T : Type 0) : Type 0 where
  pub callback : Option H
  pub timeout_callback : Option T
  pub received : Option (List Input)

-- `Client`. `D` stands for the handshake data, `T` for timeout callbacks. Go maps are functions;
-- none is iterated over. The counter does not reach the limit of `int`.
pub record Client (H A T D : Type 0) : Type 0 where
  pub handshake_data : D
  pub namespaces : Bytes → Option (Namespace H A)
  pub default_ns : Bytes
  pub ack_callbacks : ℕ → Option (AckCallback H)
  pub ack_counter : ℕ
  pub waiters : ℕ → Option (Waiter H T)

pub data Effect (H A T : Type 0) : Type 0 where
  send : Bytes → Effect H A T
  start : Option H → List Input → Effect H A T
  start_any : A → Bytes → List Input → Effect H A T
  run : H → List Input → Effect H A T
  run_timeout : T → Effect H A T
  start_timer : ℕ → ℕ → Effect H A T

pub data Outcome {ℓ} (S : Type ℓ) (E : Type ℓ) : Type ℓ where
  done : S → List E → Outcome S E
  panic : Outcome S E

-- A Go map with a key set or deleted.
abbrev pub put {ℓ} : {V : Type ℓ} → (Bytes → V) → Bytes → V → Bytes → V
put m k v j = if equal k j then v else m j

abbrev pub put_ℕ {ℓ} : {V : Type ℓ} → (ℕ → V) → ℕ → V → ℕ → V
put_ℕ m k v j = if k == j then v else m j

abbrev pub or_empty {ℓ} : {A : Type ℓ} → Option (List A) → List A
or_empty none = []
or_empty (some xs) = xs

module _ {H A : Type 0} where
  abbrev pub new_namespace : Bytes → Namespace H A
  new_namespace name = record {
    name = name;
    handlers = λ e. none;
    any_handlers = [];
    connected = false;
  }

  -- `namespace.On` and `namespace.OnAny`.
  unfoldable pub on_ns : {C : Type 0} → Parser C H → Namespace H A → Bytes → C → Namespace H A
  on_ns p ns event handler = record ns {
    handlers =
        put ns.handlers event (some (or_empty (ns.handlers event) ++ p.wrap_callback handler ∷ []));
  }

  unfoldable pub on_any_ns : Namespace H A → A → Namespace H A
  on_any_ns ns handler = record ns { any_handlers = ns.any_handlers ++ handler ∷ [] }

module _ {H A T D : Type 0} where
  abbrev found : Client H A T D → Bytes → Option (Namespace H A) → Client H A T D × Namespace H A
  found c name (some ns) = (c, ns)
  found c name none = (
    record c { namespaces = put c.namespaces name (some (new_namespace name)) },
    new_namespace name,
  )

  -- `Client.namespace`: the namespace of that name, made if there is none.
  unfoldable pub namespace : Client H A T D → Bytes → Client H A T D × Namespace H A
  namespace c name = found c name (c.namespaces name)

  abbrev pub set_namespace : Client H A T D → Bytes → Namespace H A → Client H A T D
  set_namespace c name ns = record c { namespaces = put c.namespaces name (some ns) }

  -- `defaultNs` points into `namespaces`. A change of it; nil would be a panic.
  abbrev pub with_default :
      Client H A T D → (Namespace H A → Namespace H A) → Outcome (Client H A T D) (Effect H A T)
  with_default c f = elim (c.namespaces c.default_ns) [
    | none ↦ panic
    | some ns ↦ done (set_namespace c c.default_ns (f ns)) []
  ]

  -- `Client.On` and `Client.OnAny`
  unfoldable pub on :
      {C : Type 0}
      → Parser C H
      → Client H A T D
      → Bytes
      → C
      → Outcome (Client H A T D) (Effect H A T)
  unfolding on_ns
  on p c event handler = with_default c (λ ns. on_ns p ns event handler)

  unfoldable pub on_any : Client H A T D → A → Outcome (Client H A T D) (Effect H A T)
  unfolding on_any_ns
  on_any c handler = with_default c (λ ns. on_any_ns ns handler)

  -- `SetHandshakeData`; the copy of the top-level keys is a value here.
  unfoldable pub set_handshake_data : Client H A T D → D → Client H A T D
  set_handshake_data c data_copy = record c { handshake_data = data_copy }
