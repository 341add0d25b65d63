-- ===== src/Json/Complete/Literals.antt =====
-- String and number literals under the scanner.
use go_socket_io.Base.{
  Option-cases, ℕ, ◌≡◌, refl, ◌∙◌, Bool, true, false, none, some, List, [], ◌∷◌, ◌++◌, ◌⊎◌, inl,
  inr, Bytes, arith, append_assoc,
}
use go_socket_io.Json.Quote.{escape_byte, escape, quote}
use go_socket_io.Json.Scan.{
  Number, begin_value, begin_string, begin_string_or_empty, in_string, number, end_value, Place,
  object_value, array_value, number_start, number_next, number_end, step, scan, push, go,
}

-- The bytes that can follow a value inside a list or an object.
abbrev pub IsDelimiter : ℕ → Type 0
IsDelimiter d = (d ≡ b',') ⊎ (d ≡ b']') ⊎ (d ≡ b'}')

-- A number literal by the grammar of JSON.
abbrev pub reads : Number → Bytes → Bool
reads n [] = number_end n
reads n (c ∷ cs) = elim (number_next n c) [ none ↦ false | some m ↦ reads m cs ]

abbrev pub is_number : Bytes → Bool
is_number [] = false
is_number (c ∷ cs) = elim (number_start c) [ none ↦ false | some n ↦ reads n cs ]

pub push-append : (xs ys read : Bytes) → push read (xs ++ ys) ≡ push (push read xs) ys
push-append [] ys read = refl
push-append (x ∷ xs) ys read = push-append xs ys (x ∷ read)

scan-escape_byte :
    (c : ℕ) (ps : List Place) (read rest : Bytes)
    → scan in_string ps read (escape_byte c ++ rest)
      ≡ scan in_string ps (push read (escape_byte c)) rest
unfolding scan step escape_byte
scan-escape_byte c ps read rest = ground arith

scan-escape :
    (s : Bytes) (ps : List Place) (read rest : Bytes)
    → scan in_string ps read (escape s ++ rest) ≡ scan in_string ps (push read (escape s)) rest
unfolding escape
scan-escape [] ps read rest = refl
scan-escape (c ∷ s) ps read rest =
    rw (append_assoc, push-append)
      (scan-escape_byte c ps read (escape s ++ rest) ∙ scan-escape s ps _ rest)

number_next-delimiter : (n : Number) (d : ℕ) → IsDelimiter d → number_next n d ≡ none
unfolding number_next
number_next-delimiter Number.minus d h = ground arith
number_next-delimiter _ d h = ground arith

step-number_end :
    (n : Number) (ps : List Place) (d : ℕ)
    → IsDelimiter d
    → number_end n ≡ true
    → step (number n) ps d ≡ step end_value ps d
unfolding step
step-number_end n ps d h e = rw (number_next-delimiter n d h) (rw e refl)

step-number_next :
    (n m : Number) (ps : List Place) (c : ℕ)
    → number_next n c ≡ some m
    → step (number n) ps c ≡ go (number m) ps
unfolding step
step-number_next n m ps c e = rw e refl

scan-number :
    (l : Bytes) (n : Number) (ps : List Place) (read : Bytes) (d : ℕ) (rest : Bytes)
    → IsDelimiter d
    → reads n l ≡ true
    → scan (number n) ps read (l ++ d ∷ rest) ≡ scan end_value ps (push read l) (d ∷ rest)
unfolding scan
scan-number [] n ps read d rest h e = rw (step-number_end n ps d h e, scan) refl
scan-number (c ∷ l) n ps read d rest h e = elim (Option-cases (number_next n c)) [
  | inl over ↦ absurd (ground (arith, over))
  | inr (m, next) ↦
      rw (step-number_next n m ps c next, scan)
        (scan-number l m ps (c ∷ read) d rest h (ground (arith, next)))
]

step-number_start :
    (n : Number) (ps : List Place) (c : ℕ)
    → number_start c ≡ some n
    → step begin_value ps c ≡ go (number n) ps
unfolding step number_start
step-number_start n ps c e = ground arith

pub scan_num :
    (l : Bytes) (ps : List Place) (read : Bytes) (d : ℕ) (rest : Bytes)
    → IsDelimiter d
    → is_number l ≡ true
    → scan begin_value ps read (l ++ d ∷ rest) ≡ scan end_value ps (push read l) (d ∷ rest)
unfolding scan
scan_num [] ps read d rest h e = cc
scan_num (c ∷ l) ps read d rest h e = elim (Option-cases (number_start c)) [
  | inl over ↦ absurd (ground (arith, over))
  | inr (n, start) ↦
      rw (step-number_start n ps c start, scan)
        (scan-number l n ps (c ∷ read) d rest h (ground (arith, start)))
]

-- A container that closes ends its value, as a delimiter behind it would.
pub scan-close :
    (ps : List Place) (read : Bytes) (d : ℕ) (rest : Bytes)
    → (scan end_value (array_value ∷ ps) read (b']' ∷ d ∷ rest)
        ≡ scan end_value ps (b']' ∷ read) (d ∷ rest))
      × (scan end_value (object_value ∷ ps) read (b'}' ∷ d ∷ rest)
          ≡ scan end_value ps (b'}' ∷ read) (d ∷ rest))
unfolding scan step
scan-close [] read d rest = (refl, refl)
scan-close (p ∷ ps) read d rest = (refl, refl)

pub scan-quote :
    (s : Bytes) (ps : List Place) (read rest : Bytes)
    → (scan begin_value ps read (quote s ++ rest) ≡ scan end_value ps (push read (quote s)) rest)
      × (scan begin_string ps read (quote s ++ rest) ≡ scan end_value ps (push read (quote s)) rest)
      × (scan begin_string_or_empty ps read (quote s ++ rest)
          ≡ scan end_value ps (push read (quote s)) rest)
unfolding quote scan step
scan-quote s ps read rest =
    let inside = scan-escape s ps (b'"' ∷ read) (b'"' ∷ rest) in
    rw (append_assoc, push-append) (inside, inside, inside)
