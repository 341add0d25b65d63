-- ===== src/EngineClient/Logging/Redaction.antt =====
-- engine.io/v4/client/client.go: what redacted lines tell of a packet.
use mathlib.Core.List.{append_cancel_left, append_cancel_right}
use go_socket_io.Base.{
  ℕ, ◌+◌, ◌≡◌, ◌↔◌, ◌∙◌, refl, sym, ap, true, List, [], ◌∷◌, ◌++◌, Bytes, codes, length, Result, ok,
  err, arith,
}
use go_socket_io.Logger.{Line}
use go_socket_io.SocketParser.Decimal.{itoa_ℕ, atoi, atoi-itoa_ℕ}
use go_socket_io.EngineParser.{Error, Message, parse}
use go_socket_io.EngineClient.Logging.{payload, error_text, parsed_line, packet_lines}

-- What two packets have in common when their redacted lines are the same, by how they are parsed:
-- the type and the length if both are accepted, everything if both are refused.
abbrev pub Alike : Bytes → Bytes → Result Error Message → Result Error Message → Type 0
Alike a b (ok m) (ok n) = (m.type ≡ n.type) × (length a ≡ length b)
Alike a b (err e) (err f) = a ≡ b
Alike a b (ok m) (err f) = ⊥
Alike a b (err e) (ok n) = ⊥

itoa_ℕ_inj : (n m : ℕ) → itoa_ℕ n ≡ itoa_ℕ m → n ≡ m
itoa_ℕ_inj n m e = sym (atoi-itoa_ℕ n) ∙ ap atoi e ∙ atoi-itoa_ℕ m

payload-length : (a b : Bytes) → payload true a ≡ payload true b → length a ≡ length b
unfolding payload
payload-length a b e = itoa_ℕ_inj (length a) (length b) (
    append_cancel_right (itoa_ℕ (length a)) (itoa_ℕ (length b)) (codes " bytes]")
      (append_cancel_left (codes "[redacted ") _ _ e))

length-payload : (a b : Bytes) → length a ≡ length b → payload true a ≡ payload true b
unfolding payload
length-payload a b e = rw e refl

-- Two texts of one length before the ends of equal texts.
first_equal : (a b s t : Bytes) → length a ≡ length b → a ++ s ≡ b ++ t → a ≡ b
first_equal [] [] s t h e = refl
first_equal [] (y ∷ b) s t h e = cc
first_equal (x ∷ a) [] s t h e = cc
first_equal (x ∷ a) (y ∷ b) s t h e = ground (arith, first_equal a b s t)

-- The body of an accepted packet is one byte shorter.
abbrev HasBody : Bytes → Result Error Message → Type 0
HasBody a (ok m) = length a ≡ length m.body + 1
HasBody a (err e) = Unit

parse-HasBody : (a : Bytes) → HasBody a (parse a)
unfolding parse
parse-HasBody [] = tt
parse-HasBody (x ∷ a) = ground arith

handle_inj :
    (x y p q : Bytes)
    → codes "handle: " ++ x ++ (codes " " ++ p) ≡ codes "handle: " ++ y ++ (codes " " ++ q)
    → p ≡ q
    → x ≡ y
handle_inj x y p q e same = append_cancel_right x y (codes " " ++ q) (
    append_cancel_left (codes "handle: ") (x ++ (codes " " ++ q)) (y ++ (codes " " ++ q))
      (rw same at e))

refused_inj :
    (a b s t : Bytes)
    → length a ≡ length b
    → codes "Can't parse packet: " ++ a ++ s ≡ codes "Can't parse packet: " ++ b ++ t
    → a ≡ b
refused_inj a b s t h e =
    first_equal a b s t h (append_cancel_left (codes "Can't parse packet: ") (a ++ s) (b ++ t) e)

text_equal : {n k : ℕ} {x y : Bytes} → ◌≡◌ {A = Line} (n, x) (k, y) → x ≡ y
text_equal e = ap (λ l. l.1) e

line-Alike :
    (a b : Bytes) (r s : Result Error Message)
    → HasBody a r
    → HasBody b s
    → length a ≡ length b
    → parsed_line true a r ≡ parsed_line true b s
    → Alike a b r s
line-Alike a b (ok m) (ok n) ha hb h e = (
  itoa_ℕ_inj m.type n.type (
      handle_inj (itoa_ℕ m.type) (itoa_ℕ n.type) (payload true m.body) (payload true n.body)
        (text_equal e) (length-payload m.body n.body (omega arith))),
  h,
)
line-Alike a b (err e) (err f) ha hb h q =
    refused_inj a b (codes " " ++ error_text e) (codes " " ++ error_text f) h (text_equal q)
line-Alike a b (ok m) (err f) ha hb h e = cc
line-Alike a b (err f) (ok m) ha hb h e = cc

two_lines :
    {l l' k k' : Line} → ◌≡◌ {A = List Line} (l ∷ k ∷ []) (l' ∷ k' ∷ []) → (l ≡ l') × (k ≡ k')
two_lines e = ground arith

both_accepted :
    (a b : Bytes) (m n : Message)
    → HasBody a (ok m)
    → HasBody b (ok n)
    → m.type ≡ n.type
    → length a ≡ length b
    → parsed_line true a (ok m) ≡ parsed_line true b (ok n)
both_accepted a b m n ha hb t h = rw (t, length-payload m.body n.body (omega arith)) refl

Alike-lines :
    (a b : Bytes) (r s : Result Error Message)
    → parse a ≡ r
    → parse b ≡ s
    → HasBody a r
    → HasBody b s
    → Alike a b r s
    → packet_lines true a ≡ packet_lines true b
unfolding packet_lines
Alike-lines a b (ok m) (ok n) p q ha hb (t, h) =
    rw (p, q) (rw (length-payload a b h, both_accepted a b m n ha hb t h) refl)
Alike-lines a b (err e) (err f) p q ha hb h = rw h refl
Alike-lines a b (ok m) (err f) p q ha hb h = elim h [ ]
Alike-lines a b (err e) (ok n) p q ha hb h = elim h [ ]

-- With redaction on, two packets leave the same first lines in the log of `handlePacket` exactly
-- when both are accepted and have the same type and length, or both are refused and are the same:
-- the lines tell no more than the type and the length of an accepted packet, but all of a refused
-- one.
pub same_lines_iff :
    (a b : Bytes) → (packet_lines true a ≡ packet_lines true b) ↔ Alike a b (parse a) (parse b)
unfolding packet_lines
same_lines_iff a b = (
  λ e.
      let (first, second) = two_lines e in
      line-Alike a b (parse a) (parse b) (parse-HasBody a) (parse-HasBody b)
        (payload-length a b (
          append_cancel_left (codes "handle packet: ") (payload true a) (payload true b)
            (text_equal first)))
        second,
  Alike-lines a b (parse a) (parse b) refl refl (parse-HasBody a) (parse-HasBody b),
)
