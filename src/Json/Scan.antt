-- ===== src/Json/Scan.antt =====
-- The scanner of `encoding/json`: a push-down automaton that takes one byte at a time. It finds the
-- end of the value that a text begins with.
mod Numbers
unfoldable pub use Numbers.*
use go_socket_io.Base.{
  ℕ, zero, suc, Bool, true, false, ◌&&◌, ◌||◌, Option, none, some, List, [], ◌∷◌, Bytes, codes, leb,
  ltb, ◌==◌, if◌then◌else◌,
}

pub data State : Type 0 where
  begin_value begin_value_or_empty begin_string begin_string_or_empty in_string escape : State
  -- That many more hexadecimal digits, and one.
  escape_u : ℕ → State
  number : Number → State
  literal : ℕ → Bytes → State
  end_value : State

-- What the value in hand stands in.
pub data Place : Type 0 where
  object_key object_value array_value : Place

-- One byte leads to a state, or ends the value before or behind the byte, or is an error.
pub data Move : Type 0 where
  go : State → List Place → Move
  before after fail : Move

unfoldable pub is_space : ℕ → Bool
is_space c = c == b' ' || c == b'\t' || c == b'\r' || c == b'\n'

abbrev is_hex : ℕ → Bool
is_hex c = is_digit c || (leb b'a' c && leb c b'f') || (leb b'A' c && leb c b'F')

-- A container closes: the text ends with it, or the scan goes on in what is around it.
abbrev pub close : List Place → Move
close [] = after
close (p ∷ ps) = go end_value (p ∷ ps)

unfoldable pub step_end : List Place → ℕ → Move
unfolding is_space
step_end [] c = before
step_end (object_key ∷ ps) c =
    if is_space c
    then go end_value (object_key ∷ ps)
    else if c == b':'
    then go begin_value (object_value ∷ ps)
    else fail
step_end (object_value ∷ ps) c =
    if is_space c
    then go end_value (object_value ∷ ps)
    else if c == b','
    then go begin_string (object_key ∷ ps)
    else if c == b'}'
    then close ps
    else fail
step_end (array_value ∷ ps) c =
    if is_space c
    then go end_value (array_value ∷ ps)
    else if c == b','
    then go begin_value (array_value ∷ ps)
    else if c == b']'
    then close ps
    else fail

abbrev start_number : Option Number → List Place → Move
start_number none ps = fail
start_number (some n) ps = go (number n) ps

pub step_begin : List Place → ℕ → Move
unfolding is_space number_start
step_begin ps c =
    if is_space c
    then go begin_value ps
    else if c == b'{'
    then go begin_string_or_empty (object_key ∷ ps)
    else if c == b'['
    then go begin_value_or_empty (array_value ∷ ps)
    else if c == b'"'
    then go in_string ps
    else if c == b't'
    then go (literal b'r' (codes "ue")) ps
    else if c == b'f'
    then go (literal b'a' (codes "lse")) ps
    else if c == b'n'
    then go (literal b'u' (codes "ll")) ps
    else start_number (number_start c) ps

pub step_string : State → List Place → ℕ → Move
unfolding is_space
step_string s ps c = if is_space c then go s ps else if c == b'"' then go in_string ps else fail

-- An empty object: its key is taken for read, and the byte for what follows a value.
abbrev close_object : List Place → ℕ → Move
close_object [] c = fail
close_object (p ∷ ps) c = step_end (object_value ∷ ps) c

abbrev step_number : Number → Option Number → List Place → ℕ → Move
step_number n (some m) ps c = go (number m) ps
step_number n none ps c = if number_end n then step_end ps c else fail

abbrev step_literal : Bytes → List Place → Move
step_literal [] ps = go end_value ps
step_literal (d ∷ ds) ps = go (literal d ds) ps

abbrev is_escape : ℕ → Bool
is_escape c =
    c == b'b'
    || c == b'f'
    || c == b'n'
    || c == b'r'
    || c == b't'
    || c == b'\\'
    || c == b'/'
    || c == b'"'

unfoldable pub step : State → List Place → ℕ → Move
unfolding step_begin step_end step_string number_next number_end is_space
step begin_value ps c = step_begin ps c
step begin_value_or_empty ps c =
    if is_space c
    then go begin_value_or_empty ps
    else if c == b']'
    then step_end ps c
    else step_begin ps c
step begin_string ps c = step_string begin_string ps c
step begin_string_or_empty ps c =
    if c == b'}' then close_object ps c else step_string begin_string_or_empty ps c
step in_string ps c =
    if c == b'"'
    then go end_value ps
    else if c == b'\\'
    then go escape ps
    else if ltb c 0x20
    then fail
    else go in_string ps
step escape ps c =
    if is_escape c then go in_string ps else if c == b'u' then go (escape_u 3) ps else fail
step (escape_u zero) ps c = if is_hex c then go in_string ps else fail
step (escape_u (suc n)) ps c = if is_hex c then go (escape_u n) ps else fail
step (number n) ps c = step_number n (number_next n c) ps c
step (literal d ds) ps c = if c == d then step_literal ds ps else fail
step end_value ps c = step_end ps c

-- The bytes put in front of those read before, the last one first.
abbrev pub push : Bytes → Bytes → Bytes
push read [] = read
push read (c ∷ cs) = push (c ∷ read) cs

-- At the end of the input the value is complete if a blank would end it.
abbrev pub at_end : Move → Bytes → Option (Bytes × Bytes)
at_end before read = some (push [] read, [])
at_end (go _ _) read = none
at_end after read = none
at_end fail read = none

-- The bytes of the value, behind those read before, and the bytes behind the value.
unfoldable pub scan : State → List Place → Bytes → Bytes → Option (Bytes × Bytes)
scan s ps read [] = at_end (step s ps b' ') read
scan s ps read (c ∷ cs) = elim (step s ps c) [
  | go s' ps' ↦ scan s' ps' (c ∷ read) cs
  | before ↦ some (push [] read, c ∷ cs)
  | after ↦ some (push [] (c ∷ read), cs)
  | fail ↦ none
]

-- Blanks in front of a value are dropped.
unfoldable pub skip_space : Bytes → Bytes
unfolding is_space
skip_space [] = []
skip_space (c ∷ cs) = if is_space c then skip_space cs else c ∷ cs

unfoldable pub read_value : Bytes → Option (Bytes × Bytes)
unfolding skip_space scan step
read_value cs = scan begin_value [] [] (skip_space cs)
