-- ===== src/SocketParser/Event/Fuel.antt =====
-- socket.io/v5/parser/default/payloadparser.go: the loop over the payloads ends.
use go_socket_io.Base.{
  ℕ, zero, suc, ◌<◌, ◌≡◌, refl, Bool, true, false, Option, none, some, [], ◌∷◌, Bytes, length, ok,
  err, List, Result, Result-cases, >>=-eq-ok, arith, Bool-cases, inl, inr,
}
use go_socket_io.Json.Scan.{skip_space, read_value}
use go_socket_io.Json.Shrinks.{length-skip_space, read_value-shrinks}
use go_socket_io.SocketParser.Event.{
  delimiter, decode, more, decode_payloads, match_byte, or_fail, cons_payload,
}
use go_socket_io.SocketParser.Packet.{Error}

match_byte-shrinks :
    (b : ℕ) (cs : Bytes) {rest : Bytes} → match_byte b cs ≡ some rest → length rest < length cs
match_byte-shrinks b [] e = cc
match_byte-shrinks b (c ∷ cs) e = ground arith

or_fail-eq-ok : {A : Type 0} (o : Option A) {a : A} → or_fail o ≡ ok a → o ≡ some a
or_fail-eq-ok none e = cc
or_fail-eq-ok (some a) e = cc

delimiter-shrinks :
    (b : ℕ) (cs : Bytes) {rest : Bytes} → delimiter b cs ≡ ok rest → length rest < length cs
unfolding delimiter
delimiter-shrinks b cs e = omega (
  arith,
  length-skip_space cs,
  match_byte-shrinks b (skip_space cs) (or_fail-eq-ok (match_byte b (skip_space cs)) e),
)

decode-shrinks :
    (first : Bool) (cs : Bytes) {v rest : Bytes}
    → decode first cs ≡ ok (v, rest)
    → length rest < length cs
unfolding decode
decode-shrinks true cs e = read_value-shrinks cs (or_fail-eq-ok (read_value cs) e)
decode-shrinks false cs e =
    let (inside, comma, value) = >>=-eq-ok (delimiter b',' cs) _ e in
    omega (
      arith,
      delimiter-shrinks b',' cs comma,
      read_value-shrinks inside (or_fail-eq-ok (read_value inside) value),
    )

cons_payload-some :
    (v : Bytes) (r : Result Error (List Bytes × Bytes))
    → (s : Result Error (List Bytes × Bytes)) × (cons_payload v (some r) ≡ some s)
cons_payload-some v (err e) = (err e, refl)
cons_payload-some v (ok (ps, rest)) = (ok (v ∷ ps, rest), refl)

-- The loop returns by itself: with fuel above the number of bytes left it does not run out of fuel,
-- but returns the payloads or an error of the decoder, and more fuel gives the same result.
pub decode_payloads-fuel :
    (f g : ℕ) (first : Bool) (cs : Bytes)
    → length cs < f
    → length cs < g
    → (r : Result Error (List Bytes × Bytes)) × (decode_payloads f first cs ≡ some r)
      × (decode_payloads g first cs ≡ some r)
unfolding decode_payloads
decode_payloads-fuel zero g first cs h k = elim h [ ]
decode_payloads-fuel (suc f) zero first cs h k = elim k [ ]
decode_payloads-fuel (suc f) (suc g) first cs h k = elim (Bool-cases (more cs)) [
  | inr over ↦ (ok ([], cs), rw (over, decode_payloads) refl, rw (over, decode_payloads) refl)
  | inl goes ↦ elim (Result-cases (decode first cs)) [
    | inl (e, bad) ↦
        (err e, rw (goes, decode_payloads) (rw bad refl), rw (goes, decode_payloads) (rw bad refl))
    | inr ((v, rest), good) ↦
        let shorter = decode-shrinks first cs good in
        let (r, one, two) = decode_payloads-fuel f g false rest (omega arith) (omega arith) in
        let (s, there) = cons_payload-some v r in
        (
          s,
          rw (goes, decode_payloads) (rw good (rw one there)),
          rw (goes, decode_payloads) (rw good (rw two there)),
        )
  ]
]
