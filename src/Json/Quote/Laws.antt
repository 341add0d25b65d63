-- ===== src/Json/Quote/Laws.antt =====
-- A quoted string is read back as it was.
use go_socket_io.Base.{
  ℕ, ◌<◌, ◌≡◌, refl, some, List, [], ◌∷◌, ◌++◌, ◌||◌, Bytes, arith, append_assoc, ltb, ◌==◌,
  if◌then◌else◌, ap, ◌∙◌,
}
use go_socket_io.Json.Quote.{
  escape_byte, escape, quote, pieces, plain, Piece, byte, unit, assemble, unquote, hex_digit,
  hex_value, utf8,
}

hex_value-hex_digit : (d : ℕ) → d < 16 → hex_value (hex_digit d) ≡ d
unfolding hex_value hex_digit
hex_value-hex_digit d h = ground arith

abbrev escape_piece : ℕ → Piece
escape_piece c =
    if (ltb c 0x20 || c == b'<' || c == b'>' || c == b'&')
    then (if c == b'\n' || c == b'\r' || c == b'\t' then byte c else unit c)
    else byte c

pieces-escape_byte :
    (c : ℕ) (rest : Bytes)
    → pieces plain (escape_byte c ++ rest) ≡ escape_piece c ∷ pieces plain rest
unfolding pieces escape_byte
pieces-escape_byte c rest = ground arith

assemble-unit : (u : ℕ) (ps : List Piece) → u < 0x80 → assemble (unit u ∷ ps) ≡ u ∷ assemble ps
unfolding assemble utf8
assemble-unit u [] h = ground arith
assemble-unit u (byte c ∷ ps) h = ground arith
assemble-unit u (unit w ∷ ps) h = ground arith

assemble-byte : (c : ℕ) (ps : List Piece) → assemble (byte c ∷ ps) ≡ c ∷ assemble ps
unfolding assemble
assemble-byte c ps = refl

assemble-escape_piece : (c : ℕ) (ps : List Piece) → assemble (escape_piece c ∷ ps) ≡ c ∷ assemble ps
assemble-escape_piece c ps = ground (arith, assemble-unit c ps, assemble-byte c ps)

pieces-escape : (s rest : Bytes) → assemble (pieces plain (escape s ++ b'"' ∷ rest)) ≡ s
unfolding escape
pieces-escape [] rest = unfold pieces assemble in refl
pieces-escape (c ∷ s) rest = rw append_assoc (
    ap assemble (pieces-escape_byte c (escape s ++ b'"' ∷ rest))
    ∙ assemble-escape_piece c (pieces plain (escape s ++ b'"' ∷ rest))
    ∙ ap (◌∷◌ c) (pieces-escape s rest))

-- Reading a quoted string gives the string.
pub unquote-quote : (s : Bytes) → unquote (quote s) ≡ some s
unfolding unquote quote
unquote-quote s = ap some (pieces-escape s [])
