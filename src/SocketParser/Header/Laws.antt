-- ===== src/SocketParser/Header/Laws.antt =====
-- socket.io/v5/parser/default/parser.go: the namespace and the acknowledgement id of a packet.
use native.Mathlib.Nat.{zero-add}
use go_socket_io.Base.{
  ℕ, suc, ◌+◌, ◌^◌, ◌≤◌, ◌<◌, ◌≡◌, ◌≢◌, refl, ap, some, [], ◌∷◌, ◌++◌, Bytes, All, length, ok,
  arith, take, drop,
}
use go_socket_io.Base.Int.{pos}
use go_socket_io.SocketParser.Packet.{Message}
use go_socket_io.SocketParser.Decimal.{
  IsDigit, itoa, atoi, atoi-itoa_ℕ, itoa_onto-IsDigit, length-itoa_onto, itoa_onto_head,
}
use go_socket_io.SocketParser.Header.{
  split_namespace, scan_digits, extract_ack_id, extract_namespace, take_ack_id,
}

-- A byte that may stand in a namespace on the wire.
abbrev pub IsPlain : ℕ → Type 0
IsPlain c = (c ≢ b',') × (c ≢ b'[') × (c ≢ b'{')

split_namespace-append :
    (ns rest : Bytes) → All IsPlain ns → split_namespace (ns ++ b',' ∷ rest) ≡ some (ns, rest)
unfolding split_namespace
split_namespace-append [] rest h = refl
split_namespace-append (c ∷ ns) rest h = ground (arith, split_namespace-append ns rest h.1)

-- A namespace in front of a comma is taken off.
pub extract_namespace-append :
    {P : Type 0} (msg : Message P) (ns rest : Bytes)
    → All IsPlain ns
    → extract_namespace msg b'/' (ns ++ b',' ∷ rest) ≡ (record msg { ns = b'/' ∷ ns }, rest)
unfolding extract_namespace
extract_namespace-append msg ns rest h =
    rw
      (split_namespace-append (b'/' ∷ ns) rest
        ((λ e. omega arith, λ e. omega arith, λ e. omega arith), h))
      refl

-- A packet that does not begin with a slash keeps the namespace that it had.
pub extract_namespace-ne :
    {P : Type 0} (msg : Message P) (c : ℕ) (cs : Bytes)
    → c ≢ b'/'
    → extract_namespace msg c cs ≡ (msg, c ∷ cs)
unfolding extract_namespace
extract_namespace-ne msg c cs h = ground arith

abbrev pub StartsNonDigit : Bytes → Type 0
StartsNonDigit [] = Unit
StartsNonDigit (c ∷ cs) = ¬ IsDigit c

scan_digits-append :
    (ds rest : Bytes) (i : ℕ)
    → All IsDigit ds
    → i + length ds ≤ 18
    → StartsNonDigit rest
    → scan_digits i i (ds ++ rest) ≡ ok (i + length ds)
unfolding scan_digits
scan_digits-append [] [] i h le s = ap ok (omega arith)
scan_digits-append [] (c ∷ rest) i h le s = ground arith
scan_digits-append (d ∷ ds) rest i h le s = ground (arith, scan_digits-append ds rest (i + 1) h.1)

take-append : (xs ys : Bytes) → take (length xs) (xs ++ ys) ≡ xs
take-append [] ys = refl
take-append (x ∷ xs) ys = ap (◌∷◌ x) (take-append xs ys)

drop-append : (xs ys : Bytes) → drop (length xs) (xs ++ ys) ≡ ys
drop-append [] ys = refl
drop-append (x ∷ xs) ys = drop-append xs ys

take_ack_id-digits :
    {P : Type 0} (msg : Message P) (c : ℕ) (ds rest : Bytes)
    → take_ack_id msg (c ∷ (ds ++ rest)) (length (c ∷ ds))
      ≡ (record msg { ack_id = some (pos (atoi (c ∷ ds))) }, rest)
take_ack_id-digits msg c ds rest = rw (take-append ds rest, drop-append ds rest) refl

-- With no digit in front there is no acknowledgement id.
pub extract_ack_id-none :
    {P : Type 0} (msg : Message P) (cs : Bytes)
    → StartsNonDigit cs
    → extract_ack_id msg cs ≡ ok (msg, cs)
unfolding extract_ack_id
extract_ack_id-none msg cs s = rw (scan_digits-append [] cs 0 tt (omega arith) s) refl

extract_ack_id-digits :
    {P : Type 0} (msg : Message P) (c : ℕ) (ds rest : Bytes)
    → All IsDigit (c ∷ ds)
    → length (c ∷ ds) ≤ 18
    → StartsNonDigit rest
    → extract_ack_id msg (c ∷ (ds ++ rest))
      ≡ ok (record msg { ack_id = some (pos (atoi (c ∷ ds))) }, rest)
unfolding extract_ack_id
extract_ack_id-digits msg c ds rest h le s =
    rw (scan_digits-append (c ∷ ds) rest 0 h (omega arith) s)
      (rw (zero-add (length (c ∷ ds))) (ap ok (take_ack_id-digits msg c ds rest)))

-- A number below 10 ^ 18 in front of other text is read back.
pub extract_ack_id-itoa :
    {P : Type 0} (msg : Message P) (n : ℕ) (rest : Bytes)
    → n < 10 ^ 18
    → StartsNonDigit rest
    → extract_ack_id msg (itoa (pos n) ++ rest) ≡ ok (record msg { ack_id = some (pos n) }, rest)
unfolding extract_ack_id itoa
extract_ack_id-itoa msg n rest h s =
    let (c, ds, e) = itoa_onto_head n n [] in
    let number = rw e at (atoi-itoa_ℕ n) in
    rw e (
      rw
        (extract_ack_id-digits msg c ds rest (rw e at (itoa_onto-IsDigit (suc n) n [] tt))
          (rw e at (length-itoa_onto (suc n) n 17 [] h)) s)
        (rw number refl))
