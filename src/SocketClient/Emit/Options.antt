-- ===== src/SocketClient/Emit/Options.antt =====
-- socket.io/v5/client/emit/options.go and the loop over the arguments in emitters.go.
use go_socket_io.Base.{
  ℕ, Bool, true, false, ◌||◌, Option, none, some, List, [], ◌∷◌, Bytes, Result, ok, err, ◌>>=◌,
}
use go_socket_io.SocketParser.Packet.{Event, Error}
use go_socket_io.SocketParser.Serialize.{Arg}

-- `EmitOptions`; the fields are nil pointers at first.
pub record EmitOptions (C T : Type 0) : Type 0 where
  pub timeout : Option ℕ
  pub timeout_callback : Option T
  pub ack_callback : Option C

-- An argument of `Emit`: an option of the package `emit`, or a payload.
pub data Argument (C T : Type 0) : Type 0 where
  with_timeout : ℕ → Option T → Argument C T
  with_ack : Option C → Argument C T
  payload : Arg → Argument C T

-- The first argument of `Emit`: a string, an event, a pointer to one, or something else.
pub data EventArgument : Type 0 where
  name : Bytes → EventArgument
  event : Event Arg → EventArgument
  event_pointer : Option (Event Arg) → EventArgument
  other : EventArgument

pub data EmitError : Type 0 where
  invalid_event_type event_and_params not_a_function context_done : EmitError
  not_serialized : Error → EmitError

abbrev pub is_some : {X : Type 0} → Option X → Bool
is_some none = false
is_some (some x) = true

module _ {C T : Type 0} where
  abbrev pub no_options : EmitOptions C T
  no_options = record { timeout = none; timeout_callback = none; ack_callback = none }

  abbrev pub wants_ack : EmitOptions C T → Bool
  wants_ack o = is_some o.ack_callback || is_some o.timeout

  -- The loop over the arguments: the options, and the payloads in their order. Payloads beside an
  -- event that is given whole are an error.
  unfoldable pub collect :
      Bool → EmitOptions C T → List (Argument C T) → Result EmitError (EmitOptions C T × List Arg)
  collect defined o [] = ok (o, [])
  collect defined o (with_timeout d f ∷ args) =
      collect defined (record o { timeout = some d; timeout_callback = f }) args
  collect defined o (with_ack f ∷ args) = collect defined (record o { ack_callback = f }) args
  collect true o (payload a ∷ args) = err event_and_params
  collect false o (payload a ∷ args) = do (o', ps) ← collect false o args; ok (o', a ∷ ps)

  abbrev named : Bytes → EmitOptions C T × List Arg → EmitOptions C T × Option (Event Arg)
  named n (o, ps) = (o, some (record { name = n; payloads = ps }))

  abbrev given :
      Option (Event Arg) → EmitOptions C T × List Arg → EmitOptions C T × Option (Event Arg)
  given e (o, ps) = (o, e)

  -- The event to send and its options.
  unfoldable pub prepare :
      EventArgument → List (Argument C T) → Result EmitError (EmitOptions C T × Option (Event Arg))
  unfolding collect
  prepare (name n) args = do r ← collect false no_options args; ok (named n r)
  prepare (event e) args = do r ← collect true no_options args; ok (given (some e) r)
  prepare (event_pointer e) args = do r ← collect true no_options args; ok (given e r)
  prepare other args = err invalid_event_type
