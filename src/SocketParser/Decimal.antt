-- ===== src/SocketParser/Decimal.antt =====
-- `strconv.Itoa`, and `strconv.Atoi` on digits.
use native.Mathlib.Nat.{pow-suc}
use go_socket_io.Base.{
  ap, lt→ltb, ℕ, zero, suc, ◌+◌, ◌-◌, ◌*◌, ◌/◌, ◌%◌, ◌^◌, ◌≤◌, ◌<◌, ◌≡◌, refl, [], ◌∷◌, Bytes, All,
  length, arith, ltb, if◌then◌else◌, Bool-cases, inl, inr, ltb→lt, ltb-false→le, ◌∙◌,
}
use go_socket_io.Base.Int.{ℤ, pos, negsuc}

-- The digits of `n` in front of `out`; `n + 1` rounds are enough.
unfoldable pub itoa_onto : ℕ → ℕ → Bytes → Bytes
itoa_onto zero n out = out
itoa_onto (suc fuel) n out =
    let more = itoa_onto fuel (n / 10) ((b'0' + n % 10) ∷ out) in
    if ltb n 10 then (b'0' + n) ∷ out else more

abbrev pub itoa_ℕ : ℕ → Bytes
itoa_ℕ n = itoa_onto (suc n) n []

unfoldable pub itoa : ℤ → Bytes
itoa (pos n) = itoa_ℕ n
itoa (negsuc n) = b'-' ∷ itoa_ℕ (n + 1)

unfoldable pub atoi_from : ℕ → Bytes → ℕ
atoi_from n [] = n
atoi_from n (c ∷ cs) = atoi_from (n * 10 + (c - b'0')) cs

abbrev pub atoi : Bytes → ℕ
atoi = atoi_from 0

abbrev pub IsDigit : ℕ → Type 0
IsDigit c = (b'0' ≤ c) × (c ≤ b'9')

-- The laws of `itoa_onto`, for enough rounds.
pub atoi-itoa_onto :
    (fuel n : ℕ) (out : Bytes) → n < fuel → atoi_from 0 (itoa_onto fuel n out) ≡ atoi_from n out
unfolding itoa_onto atoi_from
atoi-itoa_onto zero n out h = elim h [ ]
atoi-itoa_onto (suc fuel) n out h = elim (Bool-cases (ltb n 10)) [
  | inl small ↦ rw small (ap (λ m. atoi_from m out) (omega arith))
  | inr large ↦ rw large (
      atoi-itoa_onto fuel (n / 10) ((b'0' + n % 10) ∷ out) (omega (arith, ltb-false→le n 10 large))
      ∙ ap (λ m. atoi_from m out) (omega arith))
]

pub itoa_onto-IsDigit :
    (fuel n : ℕ) (out : Bytes) → All IsDigit out → All IsDigit (itoa_onto fuel n out)
unfolding itoa_onto
itoa_onto-IsDigit zero n out h = h
itoa_onto-IsDigit (suc fuel) n out h = elim (Bool-cases (ltb n 10)) [
  | inl small ↦ rw small (omega (arith, ltb→lt n 10 small), h)
  | inr large ↦ rw large (itoa_onto-IsDigit fuel (n / 10) ((b'0' + n % 10) ∷ out) (omega arith, h))
]

-- Below 10 ^ k there are at most k digits.
pub length-itoa_onto :
    (fuel n k : ℕ) (out : Bytes)
    → n < 10 ^ suc k
    → length (itoa_onto fuel n out) ≤ suc k + length out
unfolding itoa_onto
length-itoa_onto zero n k out h = omega arith
length-itoa_onto (suc fuel) n zero out h = rw (lt→ltb n 10 (omega arith)) (omega arith)
length-itoa_onto (suc fuel) n (suc k) out h = elim (Bool-cases (ltb n 10)) [
  | inl small ↦ rw small (omega arith)
  | inr large ↦ rw large (
      omega (
        arith,
        length-itoa_onto fuel (n / 10) k ((b'0' + n % 10) ∷ out)
            (omega (arith, pow-suc 10 (suc k))),
      ))
]

-- A number has digits.
pub itoa_onto_head :
    (fuel n : ℕ) (out : Bytes) → (c : ℕ) × (cs : Bytes) × (itoa_onto (suc fuel) n out ≡ c ∷ cs)
unfolding itoa_onto
itoa_onto_head zero n out = elim (Bool-cases (ltb n 10)) [
  | inl small ↦ ((b'0' + n), out, rw small refl)
  | inr large ↦ ((b'0' + n % 10), out, rw large refl)
]
itoa_onto_head (suc fuel) n out = elim (Bool-cases (ltb n 10)) [
  | inl small ↦ ((b'0' + n), out, rw small refl)
  | inr large ↦ rw large (itoa_onto_head fuel (n / 10) ((b'0' + n % 10) ∷ out))
]

pub atoi-itoa_ℕ : (n : ℕ) → atoi (itoa_ℕ n) ≡ n
unfolding atoi_from
atoi-itoa_ℕ n = atoi-itoa_onto (suc n) n [] (omega arith)
