-- ===== src/SocketParser/Callback.antt =====
-- socket.io/v5/parser/default/callback.go: `WrapCallback` turns a function of the program into one
-- over a list of payloads. A parameter's type is given by `json.Unmarshal` into it.
pub mod Laws
use go_socket_io.Base.{
  ℕ, zero, suc, ◌+◌, Bool, true, false, Option, none, some, List, [], ◌∷◌, Bytes, length, Result,
  ok, err, ◌>>=◌, ltb, if◌then◌else◌,
}

-- An element of `in`: a `json.RawMessage`, or nil.
pub data Input : Type 0 where
  raw : Bytes → Input
  nil : Input

-- What is given as a callback: a function over the list itself, a function with its parameters, or
-- a value that is no function. A nil interface value is left out.
pub data Callback (V : Type 0) : Type 0 where
  over_list : Callback V
  function : List (Bytes → Option V) → Callback V
  no_function : Callback V

-- Why a function is not called; the number is the argument's index.
pub data Refusal : Type 0 where
  too_few_arguments : ℕ → ℕ → Refusal
  wrong_data : ℕ → Refusal
  unmarshal_error : ℕ → Refusal
  out_of_range : ℕ → Refusal

-- What a call of the wrapped callback does.
pub data Call (V : Type 0) : Type 0 where
  passed : List Input → Call V
  called : List V → Call V
  refused : Refusal → Call V

module _ {V : Type 0} where
  abbrev unmarshal_argument : ℕ → (Bytes → Option V) → Input → Result Refusal V
  unmarshal_argument i unmarshal nil = err (wrong_data i)
  unmarshal_argument i unmarshal (raw bs) = elim (unmarshal bs) [
    | none ↦ err (unmarshal_error i)
    | some v ↦ ok v
  ]

  -- The loop over the parameters, from index `i`.
  unfoldable pub unmarshal_arguments :
      ℕ → List (Bytes → Option V) → List Input → Result Refusal (List V)
  unmarshal_arguments i [] input = ok []
  unmarshal_arguments i (p ∷ ps) [] = err (out_of_range i)
  unmarshal_arguments i (p ∷ ps) (x ∷ xs) = do
    v ← unmarshal_argument i p x
    vs ← unmarshal_arguments (i + 1) ps xs
    ok (v ∷ vs)

  abbrev to_call : Result Refusal (List V) → Call V
  to_call (ok vs) = called vs
  to_call (err e) = refused e

  unfoldable pub call_function : List (Bytes → Option V) → List Input → Call V
  unfolding unmarshal_arguments
  call_function params input =
      if ltb (length input) (length params)
      then refused (too_few_arguments (length params) (length input))
      else to_call (unmarshal_arguments 0 params input)

  -- `none` is the nil function. A payload parser has a `WrapCallback` of its own.
  unfoldable pub wrap_callback :
      Option (Callback V → Option (List Input → Call V)) → Callback V → Option (List Input → Call V)
  unfolding call_function
  wrap_callback (some foreign) callback = foreign callback
  wrap_callback none over_list = some passed
  wrap_callback none (function params) = some (call_function params)
  wrap_callback none no_function = none
