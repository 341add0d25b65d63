-- ===== src/Json/Shrinks.antt =====
-- Reading a value takes at least one byte, so a loop over the values of a text ends.
use go_socket_io.Base.{
  ◌≢◌, ℕ, suc, ◌≤◌, ◌<◌, ◌≡◌, refl, Option, none, some, List, [], ◌∷◌, Bytes, length, arith,
}
use go_socket_io.Json.Scan.{
  State, begin_value, Place, Move, go, before, after, fail, step, scan, push, skip_space,
  read_value, at_end,
}

-- The value read has a text behind it that is shorter than `n`.
abbrev Leaves : ℕ → Option (Bytes × Bytes) → Type 0
Leaves n none = Unit
Leaves n (some (v, rest)) = length rest < n

abbrev outcome : Bytes → ℕ → Bytes → Move → Option (Bytes × Bytes)
outcome read c cs m = elim m [
  | go s' ps' ↦ scan s' ps' (c ∷ read) cs
  | before ↦ some (push [] read, c ∷ cs)
  | after ↦ some (push [] (c ∷ read), cs)
  | fail ↦ none
]

Leaves-mono : (m n : ℕ) (o : Option (Bytes × Bytes)) → m ≤ n → Leaves m o → Leaves n o
Leaves-mono m n none h l = tt
Leaves-mono m n (some (v, rest)) h l = omega arith

Leaves-outcome_strict :
    (m : Move) (read : Bytes) (c : ℕ) (cs : Bytes)
    → ((s : State) (ps : List Place) → Leaves (suc (length cs)) (scan s ps (c ∷ read) cs))
    → m ≢ before
    → Leaves (suc (length cs)) (outcome read c cs m)
Leaves-outcome_strict (go s ps) read c cs ih ne = ih s ps
Leaves-outcome_strict before read c cs ih ne = absurd (ne refl)
Leaves-outcome_strict after read c cs ih ne = omega arith
Leaves-outcome_strict fail read c cs ih ne = tt

Leaves-outcome :
    (m : Move) (read : Bytes) (c : ℕ) (cs : Bytes)
    → ((s : State) (ps : List Place) → Leaves (suc (length cs)) (scan s ps (c ∷ read) cs))
    → Leaves (suc (suc (length cs))) (outcome read c cs m)
Leaves-outcome (go s ps) read c cs ih =
    Leaves-mono _ _ (scan s ps (c ∷ read) cs) (omega arith) (ih s ps)
Leaves-outcome before read c cs ih = omega arith
Leaves-outcome after read c cs ih = omega arith
Leaves-outcome fail read c cs ih = tt

Leaves-at_end : (m : Move) (read : Bytes) → Leaves 1 (at_end m read)
Leaves-at_end (go s ps) read = tt
Leaves-at_end before read = omega arith
Leaves-at_end after read = tt
Leaves-at_end fail read = tt

Leaves-scan :
    (cs : Bytes) (s : State) (ps : List Place) (read : Bytes)
    → Leaves (suc (length cs)) (scan s ps read cs)
unfolding scan
Leaves-scan [] s ps read = Leaves-at_end (step s ps b' ') read
Leaves-scan (c ∷ cs) s ps read =
    Leaves-outcome (step s ps c) read c cs (λ s' ps'. Leaves-scan cs s' ps' (c ∷ read))

step-begin_value : (ps : List Place) (c : ℕ) → step begin_value ps c ≢ before
unfolding step
step-begin_value ps c e = ground arith

Leaves-begin_value : (cs : Bytes) → Leaves (length cs) (scan begin_value [] [] cs)
unfolding scan step
Leaves-begin_value [] = tt
Leaves-begin_value (c ∷ cs) =
    Leaves-outcome_strict (step begin_value [] c) [] c cs (λ s' ps'. Leaves-scan cs s' ps' (c ∷ []))
      (step-begin_value [] c)

pub length-skip_space : (cs : Bytes) → length (skip_space cs) ≤ length cs
unfolding skip_space
length-skip_space [] = omega arith
length-skip_space (c ∷ cs) = ground (arith, length-skip_space cs)

Leaves-read_value : (cs : Bytes) → Leaves (length cs) (read_value cs)
unfolding read_value
Leaves-read_value cs =
    Leaves-mono _ _ (scan begin_value [] [] (skip_space cs)) (length-skip_space cs)
      (Leaves-begin_value (skip_space cs))

pub read_value-shrinks :
    (cs : Bytes) {v rest : Bytes} → read_value cs ≡ some (v, rest) → length rest < length cs
read_value-shrinks cs e = rw e at (Leaves-read_value cs)
