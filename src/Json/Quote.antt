-- ===== src/Json/Quote.antt =====
-- JSON strings: the escapes that `json.Marshal` writes, and their reading.
pub mod Laws
use go_socket_io.Base.{
  ℕ, zero, suc, ◌+◌, ◌-◌, ◌*◌, ◌/◌, ◌%◌, Bool, ◌&&◌, ◌||◌, Option, none, some, List, [], ◌∷◌, ◌++◌,
  Bytes, leb, ltb, ◌==◌, if◌then◌else◌,
}

pub hex_digit : ℕ → ℕ
hex_digit d = if ltb d 10 then b'0' + d else b'a' + (d - 10)

-- What is written for one byte; the HTML characters are escaped too.
unfoldable pub escape_byte : ℕ → Bytes
unfolding hex_digit
escape_byte c =
    if c == b'"' || c == b'\\'
    then b'\\' ∷ c ∷ []
    else if c == b'\n'
    then b'\\' ∷ b'n' ∷ []
    else if c == b'\r'
    then b'\\' ∷ b'r' ∷ []
    else if c == b'\t'
    then b'\\' ∷ b't' ∷ []
    else if ltb c 0x20 || c == b'<' || c == b'>' || c == b'&'
    then b'\\' ∷ b'u' ∷ b'0' ∷ b'0' ∷ hex_digit (c / 16) ∷ hex_digit (c % 16) ∷ []
    else c ∷ []

unfoldable pub escape : Bytes → Bytes
escape [] = []
escape (c ∷ cs) = escape_byte c ++ escape cs

unfoldable pub quote : Bytes → Bytes
quote s = b'"' ∷ (escape s ++ b'"' ∷ [])

-- A piece of a string literal: a byte, or the code unit of a `\u` escape.
pub data Piece : Type 0 where
  byte unit : ℕ → Piece

pub data Mode : Type 0 where
  plain escaped : Mode
  hex : ℕ → ℕ → Mode

pub hex_value : ℕ → ℕ
hex_value c =
    if leb b'0' c && leb c b'9'
    then c - b'0'
    else if leb b'a' c && leb c b'f'
    then c - b'a' + 10
    else c - b'A' + 10

-- The byte that a one-letter escape stands for.
pub unescape_byte : ℕ → ℕ
unescape_byte c =
    if c == b'b'
    then 8
    else if c == b'f'
    then 12
    else if c == b'n'
    then b'\n'
    else if c == b'r'
    then b'\r'
    else if c == b't'
    then b'\t'
    else c

-- Reads up to the closing quote; `hex n u` wants n + 1 more digits. The scanner has checked the
-- escapes before.
unfoldable pub pieces : Mode → Bytes → List Piece
unfolding hex_value unescape_byte
pieces m [] = []
pieces plain (c ∷ cs) = elim (c == b'"') [
  | Bool.true ↦ []
  | Bool.false ↦ elim (c == b'\\') [
    | Bool.true ↦ pieces escaped cs
    | Bool.false ↦ byte c ∷ pieces plain cs
  ]
]
pieces escaped (c ∷ cs) = elim (c == b'u') [
  | Bool.true ↦ pieces (hex 3 0) cs
  | Bool.false ↦ byte (unescape_byte c) ∷ pieces plain cs
]
pieces (hex zero u) (c ∷ cs) = unit (u * 16 + hex_value c) ∷ pieces plain cs
pieces (hex (suc n) u) (c ∷ cs) = pieces (hex n (u * 16 + hex_value c)) cs

-- A code point in UTF-8.
pub utf8 : ℕ → Bytes
utf8 r =
    if ltb r 0x80
    then r ∷ []
    else if ltb r 0x800
    then (0xc0 + r / 64) ∷ (0x80 + r % 64) ∷ []
    else if ltb r 0x10000
    then (0xe0 + r / 4096) ∷ (0x80 + r / 64 % 64) ∷ (0x80 + r % 64) ∷ []
    else (0xf0 + r / 262144) ∷ (0x80 + r / 4096 % 64) ∷ (0x80 + r / 64 % 64) ∷ (0x80 + r % 64) ∷ []

abbrev is_high : ℕ → Bool
is_high u = leb 0xd800 u && ltb u 0xdc00

abbrev is_low : ℕ → Bool
is_low u = leb 0xdc00 u && ltb u 0xe000

-- A surrogate with no partner is U+FFFD.
abbrev lone : ℕ → Bytes
lone u = utf8 (if is_high u || is_low u then 0xfffd else u)

unfoldable pub assemble : List Piece → Bytes
unfolding utf8
assemble [] = []
assemble (byte c ∷ ps) = c ∷ assemble ps
assemble (unit u ∷ []) = lone u
assemble (unit u ∷ byte c ∷ ps) = lone u ++ (c ∷ assemble ps)
assemble (unit u ∷ unit w ∷ ps) = elim (is_high u && is_low w) [
  | Bool.true ↦ utf8 (0x10000 + (u - 0xd800) * 1024 + (w - 0xdc00)) ++ assemble ps
  | Bool.false ↦ lone u ++ assemble (unit w ∷ ps)
]

-- The text of a string literal, its opening quote included; anything else gives `none`.
unfoldable pub unquote : Bytes → Option Bytes
unfolding pieces assemble
unquote [] = none
unquote (c ∷ cs) = if c == b'"' then some (assemble (pieces plain cs)) else none
