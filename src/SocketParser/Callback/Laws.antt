-- ===== src/SocketParser/Callback/Laws.antt =====
-- socket.io/v5/parser/default/callback.go: when a wrapped callback calls the function.
use mathlib.Core.Path.{subst}
use mathlib.Core.Option
use go_socket_io.Base.{
  >>=-eq-ok, Option-cases, ap, ℕ, ◌+◌, ◌≤◌, ◌≡◌, ◌≢◌, refl, ◌↔◌, Option, none, some, List, [], ◌∷◌,
  Bytes, length, Result, ok, err, arith, inl, inr,
}
use go_socket_io.SocketParser.Callback.{
  Input, raw, nil, Callback, function, Call, called, unmarshal_argument, unmarshal_arguments,
  call_function, wrap_callback,
}

err≢ok : {E A : Type 0} {e : E} {a : A} → ◌≢◌ {A = Result E A} (err e) (ok a)
err≢ok h = cc

ok-injective : {E A : Type 0} {a b : A} → ◌≡◌ {A = Result E A} (ok a) (ok b) → a ≡ b
ok-injective h = cc

module _ {V : Type 0} where
  -- Each parameter's type accepts its input; inputs beyond the parameters do not matter.
  abbrev pub Unmarshals : List (Bytes → Option V) → List Input → List V → Type 0
  Unmarshals [] xs [] = Unit
  Unmarshals [] xs (v ∷ vs) = ⊥
  Unmarshals (p ∷ ps) [] vs = ⊥
  Unmarshals (p ∷ ps) (x ∷ xs) [] = ⊥
  Unmarshals (p ∷ ps) (nil ∷ xs) (v ∷ vs) = ⊥
  Unmarshals (p ∷ ps) (raw bs ∷ xs) (v ∷ vs) = (p bs ≡ some v) × Unmarshals ps xs vs

  unmarshal_arguments_sound :
      (i : ℕ) (ps : List (Bytes → Option V)) (xs : List Input) (vs : List V)
      → unmarshal_arguments i ps xs ≡ ok vs
      → Unmarshals ps xs vs
  unfolding unmarshal_arguments
  unmarshal_arguments_sound i [] xs [] e = tt
  unmarshal_arguments_sound i [] xs (v ∷ vs) e = cc
  unmarshal_arguments_sound i (p ∷ ps) [] vs e = cc
  unmarshal_arguments_sound i (p ∷ ps) (nil ∷ xs) vs e = cc
  unmarshal_arguments_sound i (p ∷ ps) (raw bs ∷ xs) vs e = elim (Option-cases (p bs)) [
    | inl bad ↦ absurd (err≢ok (rw (bad, unmarshal_argument) at e))
    | inr (v, good) ↦
        let (ws, rest, same) =
          >>=-eq-ok (unmarshal_arguments (i + 1) ps xs) (λ ws. ok (v ∷ ws))
            (rw (good, unmarshal_argument) at e) in
        subst (Unmarshals (p ∷ ps) (raw bs ∷ xs)) (ok-injective same)
          (good, unmarshal_arguments_sound (i + 1) ps xs ws rest)
  ]

  unmarshal_arguments_complete :
      (i : ℕ) (ps : List (Bytes → Option V)) (xs : List Input) (vs : List V)
      → Unmarshals ps xs vs
      → unmarshal_arguments i ps xs ≡ ok vs
  unfolding unmarshal_arguments
  unmarshal_arguments_complete i [] xs [] h = refl
  unmarshal_arguments_complete i [] xs (v ∷ vs) h = absurd h
  unmarshal_arguments_complete i (p ∷ ps) [] vs h = absurd h
  unmarshal_arguments_complete i (p ∷ ps) (x ∷ xs) [] h = absurd h
  unmarshal_arguments_complete i (p ∷ ps) (nil ∷ xs) (v ∷ vs) h = absurd h
  unmarshal_arguments_complete i (p ∷ ps) (raw bs ∷ xs) (v ∷ vs) h =
      rw (h.0, unmarshal_argument) (rw (unmarshal_arguments_complete (i + 1) ps xs vs h.1) refl)

  Unmarshals-length :
      (ps : List (Bytes → Option V)) (xs : List Input) (vs : List V)
      → Unmarshals ps xs vs
      → length ps ≤ length xs
  Unmarshals-length [] xs vs h = omega arith
  Unmarshals-length (p ∷ ps) [] vs h = absurd h
  Unmarshals-length (p ∷ ps) (x ∷ xs) [] h = absurd h
  Unmarshals-length (p ∷ ps) (nil ∷ xs) (v ∷ vs) h = absurd h
  Unmarshals-length (p ∷ ps) (raw bs ∷ xs) (v ∷ vs) h =
      omega (arith, Unmarshals-length ps xs vs h.1)

  call_function-called :
      (ps : List (Bytes → Option V)) (xs : List Input) (vs : List V)
      → call_function ps xs ≡ called vs
      → unmarshal_arguments 0 ps xs ≡ ok vs
  unfolding call_function
  call_function-called ps xs vs e = ground arith

  call_function_complete :
      (ps : List (Bytes → Option V)) (xs : List Input) (vs : List V)
      → length ps ≤ length xs
      → unmarshal_arguments 0 ps xs ≡ ok vs
      → call_function ps xs ≡ called vs
  unfolding call_function
  call_function_complete ps xs vs h e = ground arith

  -- What the wrapped callback does with these inputs, if it is not nil.
  abbrev pub call_wrapped : Callback V → List Input → Option (Call V)
  call_wrapped callback xs = Option.map (λ f. f xs) (wrap_callback none callback)

  -- A wrapped function is called exactly with the values to which its parameters' types unmarshal
  -- the leading inputs: never with fewer than it takes, and never if one of them is refused.
  pub wrap_callback-called :
      (ps : List (Bytes → Option V)) (xs : List Input) (vs : List V)
      → (call_wrapped (function ps) xs ≡ some (called vs)) ↔ Unmarshals ps xs vs
  unfolding wrap_callback
  wrap_callback-called ps xs vs = (
    λ h. unmarshal_arguments_sound 0 ps xs vs (call_function-called ps xs vs (cc h)),
    λ h. ap some (
        call_function_complete ps xs vs (Unmarshals-length ps xs vs h)
          (unmarshal_arguments_complete 0 ps xs vs h)),
  )

  -- A function that takes an argument is never called with nil for its first one.
  pub wrap_callback_nil :
      (p : Bytes → Option V) (ps : List (Bytes → Option V)) (xs : List Input) (vs : List V)
      → call_wrapped (function (p ∷ ps)) (nil ∷ xs) ≢ some (called vs)
  wrap_callback_nil p ps xs [] h = (wrap_callback-called (p ∷ ps) (nil ∷ xs) []).0 h
  wrap_callback_nil p ps xs (v ∷ vs) h = (wrap_callback-called (p ∷ ps) (nil ∷ xs) (v ∷ vs)).0 h
