-- ===== src/SocketClient/Emit/Run.antt =====
-- socket.io/v5/client: the goroutines that wait for an acknowledgement, and the life of a client
-- as a sequence of steps.
use go_socket_io.Base.{ℕ, ◌≡◌, Bool, Option, none, some, List, [], ◌∷◌, Bytes}
use go_socket_io.SocketParser.Callback.{Input}
use go_socket_io.SocketClient.{Parser, Waiter, Client, Effect, run, run_timeout, done, put_ℕ, on}
use go_socket_io.SocketClient.Messages.{on_message}
use go_socket_io.SocketClient.Emit.{EventArgument, Argument, Sent, Emits}

module _ {H A T : Type 0} where
  abbrev pub timeout_effect : Option T → List (Effect H A T)
  timeout_effect none = []
  timeout_effect (some f) = run_timeout f ∷ []

  abbrev pub run_effect : Option H → List Input → List (Effect H A T)
  run_effect none input = []
  run_effect (some h) input = run h input ∷ []

module _ {H A T D : Type 0} where
  abbrev gone : Client H A T D → ℕ → Client H A T D
  gone c n = record c { waiters = put_ℕ c.waiters n none }

  -- The goroutine of `sendPacketWithAckTimeout`, case by case: the timer fires, the context is
  -- done, or the answer is in the channel.
  abbrev pub fired : Client H A T D → ℕ → Option (Waiter H T) → Client H A T D × List (Effect H A T)
  fired c n none = (c, [])
  fired c n (some w) = (
    record (gone c n) { ack_callbacks = put_ℕ c.ack_callbacks n none },
    timeout_effect w.timeout_callback,
  )

  unfoldable pub on_timer : Client H A T D → ℕ → Client H A T D × List (Effect H A T)
  on_timer c n = fired c n (c.waiters n)

  unfoldable pub on_context_done : Client H A T D → ℕ → Client H A T D × List (Effect H A T)
  on_context_done c n = (gone c n, [])

  abbrev delivered :
      Client H A T D → ℕ → Option H → Option (List Input) → Client H A T D × List (Effect H A T)
  delivered c n h none = (c, [])
  delivered c n h (some input) = (gone c n, run_effect h input)

  abbrev deliver : Client H A T D → ℕ → Option (Waiter H T) → Client H A T D × List (Effect H A T)
  deliver c n none = (c, [])
  deliver c n (some w) = delivered c n w.callback w.received

  unfoldable pub on_received : Client H A T D → ℕ → Client H A T D × List (Effect H A T)
  on_received c n = deliver c n (c.waiters n)

-- One step of the client, with what it makes the outside do.
pub data Step {C H A T D : Type 0} (p : Parser C H) (c : Client H A T D)
    : Client H A T D → List (Effect H A T) → Type 0 where
  message :
      {c' : Client H A T D} {es : List (Effect H A T)} (bs : Bytes)
      → on_message p c bs ≡ done c' es
      → Step p c c' es
  emit :
      {c' : Client H A T D} {es : List (Effect H A T)} (ctx_done : Bool) (n : Bytes)
      (e : EventArgument) (args : List (Argument C T)) (s : Sent)
      → Emits p c ctx_done n e args (c', es, s)
      → Step p c c' es
  register_handler :
      {c' : Client H A T D} {es : List (Effect H A T)} (event : Bytes) (callback : C)
      → on p c event callback ≡ done c' es
      → Step p c c' es
  timer_fires :
      {c' : Client H A T D} {es : List (Effect H A T)} (n : ℕ)
      → on_timer c n ≡ (c', es)
      → Step p c c' es
  context_done :
      {c' : Client H A T D} {es : List (Effect H A T)} (n : ℕ)
      → on_context_done c n ≡ (c', es)
      → Step p c c' es
  answer_received :
      {c' : Client H A T D} {es : List (Effect H A T)} (n : ℕ)
      → on_received c n ≡ (c', es)
      → Step p c c' es

-- Any number of steps.
pub data Reach {C H A T D : Type 0} (p : Parser C H) (c : Client H A T D)
    : Client H A T D → Type 0 where
  here : Reach p c c
  next :
      {c' c'' : Client H A T D} {es : List (Effect H A T)}
      → Reach p c c'
      → Step p c' c'' es
      → Reach p c c''
