-- ===== src/Json/Complete.antt =====
-- What `json.Marshal` writes is scanned as one value, whatever follows in a list or an object.
mod Literals
use go_socket_io.Base.{
  Option-cases, ℕ, ◌≡◌, refl, ap, ◌∙◌, Bool, true, false, none, some, List, [], ◌∷◌, ◌++◌, ◌⊎◌, inl,
  inr, Bytes, arith, append_assoc, append-nil,
}
use go_socket_io.Json.{
  Value, null, bool, num, str, arr, obj, Items, nil, cons, Fields, end, field, marshal,
  marshal_items, marshal_fields,
}
use go_socket_io.Json.Quote.{escape_byte, escape, quote}
use go_socket_io.Json.Scan.{
  Number, begin_value, begin_value_or_empty, begin_string, begin_string_or_empty, in_string, number,
  end_value, Place, object_key, object_value, array_value, number_start, number_next, number_end,
  step, scan, push, skip_space, read_value, go,
}
use Literals.{IsDelimiter, is_number, push-append, scan_num, scan-close, scan-quote}

-- Values whose numbers are number literals; Go's formatting of numbers writes no others.
abbrev mutual
  pub IsValue : Value → Type 0
  IsValue null = Unit
  IsValue (bool b) = Unit
  IsValue (num l) = is_number l ≡ true
  IsValue (str s) = Unit
  IsValue (arr vs) = AreItems vs
  IsValue (obj fs) = AreFields fs

  pub AreItems : Items → Type 0
  AreItems nil = Unit
  AreItems (cons v vs) = IsValue v × AreItems vs

  pub AreFields : Fields → Type 0
  AreFields end = Unit
  AreFields (field n v fs) = IsValue v × AreFields fs

abbrev pub StartsDelimiter : Bytes → Type 0
StartsDelimiter [] = ⊥
StartsDelimiter (d ∷ rest) = IsDelimiter d

-- A value does not begin with a blank or a closing bracket.
scan-begin_value_or_empty :
    (v : Value) (ps : List Place) (read rest : Bytes)
    → IsValue v
    → scan begin_value_or_empty ps read (marshal v ++ rest)
      ≡ scan begin_value ps read (marshal v ++ rest)
unfolding scan step marshal number_start quote
scan-begin_value_or_empty null ps read rest h = refl
scan-begin_value_or_empty (bool true) ps read rest h = refl
scan-begin_value_or_empty (bool false) ps read rest h = refl
scan-begin_value_or_empty (num []) ps read rest h = cc
scan-begin_value_or_empty (num (c ∷ l)) ps read rest h = ground arith
scan-begin_value_or_empty (str s) ps read rest h = refl
scan-begin_value_or_empty (arr nil) ps read rest h = refl
scan-begin_value_or_empty (arr (cons v vs)) ps read rest h = refl
scan-begin_value_or_empty (obj end) ps read rest h = refl
scan-begin_value_or_empty (obj (field n v fs)) ps read rest h = refl

pub items-StartsDelimiter : (vs : Items) (rest : Bytes) → StartsDelimiter (marshal_items vs ++ rest)
unfolding marshal_items
items-StartsDelimiter nil rest = inr (inl refl)
items-StartsDelimiter (cons v vs) rest = inl refl

fields-StartsDelimiter : (fs : Fields) (rest : Bytes) → StartsDelimiter (marshal_fields fs ++ rest)
unfolding marshal_fields
fields-StartsDelimiter end rest = inr (inr refl)
fields-StartsDelimiter (field n v fs) rest = inl refl

scan_num-StartsDelimiter :
    (l : Bytes) (ps : List Place) (read rest : Bytes)
    → StartsDelimiter rest
    → is_number l ≡ true
    → scan begin_value ps read (l ++ rest) ≡ scan end_value ps (push read l) rest
scan_num-StartsDelimiter l ps read [] s h = absurd s
scan_num-StartsDelimiter l ps read (d ∷ rest) s h = scan_num l ps read d rest s h

scan_close-StartsDelimiter :
    (ps : List Place) (read rest : Bytes)
    → StartsDelimiter rest
    → (scan end_value (array_value ∷ ps) read (b']' ∷ rest) ≡ scan end_value ps (b']' ∷ read) rest)
      × (scan end_value (object_value ∷ ps) read (b'}' ∷ rest)
          ≡ scan end_value ps (b'}' ∷ read) rest)
scan_close-StartsDelimiter ps read [] s = absurd s
scan_close-StartsDelimiter ps read (d ∷ rest) s = scan-close ps read d rest

mutual
  unfolding scan step marshal marshal_items marshal_fields

  scan-marshal_in :
      (v : Value) (ps : List Place) (read rest : Bytes)
      → IsValue v
      → StartsDelimiter rest
      → scan begin_value ps read (marshal v ++ rest)
        ≡ scan end_value ps (push read (marshal v)) rest
  scan-marshal_in null ps read rest h s = refl
  scan-marshal_in (bool true) ps read rest h s = refl
  scan-marshal_in (bool false) ps read rest h s = refl
  scan-marshal_in (num l) ps read rest h s = scan_num-StartsDelimiter l ps read rest s h
  scan-marshal_in (str t) ps read rest h s = (scan-quote t ps read rest).0
  scan-marshal_in (arr nil) ps read rest h s =
      (scan_close-StartsDelimiter ps (b'[' ∷ read) rest s).0
  scan-marshal_in (arr (cons v vs)) ps read rest h s =
      rw (append_assoc, push-append)
        (scan-begin_value_or_empty v (array_value ∷ ps) (b'[' ∷ read) (marshal_items vs ++ rest) h.0
          ∙ scan-marshal_in v (array_value ∷ ps) (b'[' ∷ read) (marshal_items vs ++ rest) h.0
              (items-StartsDelimiter vs rest)
          ∙ scan-marshal_items vs ps (push (b'[' ∷ read) (marshal v)) rest h.1 s)
  scan-marshal_in (obj end) ps read rest h s =
      (scan_close-StartsDelimiter ps (b'{' ∷ read) rest s).1
  scan-marshal_in (obj (field n v fs)) ps read rest h s =
      rw (append_assoc, push-append)
        ((scan-quote n (object_key ∷ ps) (b'{' ∷ read) _).2
          ∙ rw append_assoc (
              rw push-append (
                scan-marshal_in v (object_value ∷ ps) _ (marshal_fields fs ++ rest) h.0
                  (fields-StartsDelimiter fs rest)
                ∙ scan-marshal_fields fs ps _ rest h.1 s)))

  scan-marshal_items :
      (vs : Items) (ps : List Place) (read rest : Bytes)
      → AreItems vs
      → StartsDelimiter rest
      → scan end_value (array_value ∷ ps) read (marshal_items vs ++ rest)
        ≡ scan end_value ps (push read (marshal_items vs)) rest
  scan-marshal_items nil ps read rest h s = (scan_close-StartsDelimiter ps read rest s).0
  scan-marshal_items (cons v vs) ps read rest h s =
      rw (append_assoc, push-append)
        (scan-marshal_in v (array_value ∷ ps) (b',' ∷ read) (marshal_items vs ++ rest) h.0
            (items-StartsDelimiter vs rest)
          ∙ scan-marshal_items vs ps (push (b',' ∷ read) (marshal v)) rest h.1 s)

  scan-marshal_fields :
      (fs : Fields) (ps : List Place) (read rest : Bytes)
      → AreFields fs
      → StartsDelimiter rest
      → scan end_value (object_value ∷ ps) read (marshal_fields fs ++ rest)
        ≡ scan end_value ps (push read (marshal_fields fs)) rest
  scan-marshal_fields end ps read rest h s = (scan_close-StartsDelimiter ps read rest s).1
  scan-marshal_fields (field n v fs) ps read rest h s =
      rw (append_assoc, push-append)
        ((scan-quote n (object_key ∷ ps) (b',' ∷ read) _).1
          ∙ rw append_assoc (
              rw push-append (
                scan-marshal_in v (object_value ∷ ps) _ (marshal_fields fs ++ rest) h.0
                  (fields-StartsDelimiter fs rest)
                ∙ scan-marshal_fields fs ps _ rest h.1 s)))

push-push : (xs read left : Bytes) → push left (push read xs) ≡ push (xs ++ left) read
push-push [] read left = refl
push-push (x ∷ xs) read left = push-push xs (x ∷ read) left

skip_space-marshal :
    (v : Value) (rest : Bytes) → IsValue v → skip_space (marshal v ++ rest) ≡ marshal v ++ rest
unfolding skip_space marshal number_start quote
skip_space-marshal null rest h = refl
skip_space-marshal (bool true) rest h = refl
skip_space-marshal (bool false) rest h = refl
skip_space-marshal (num []) rest h = cc
skip_space-marshal (num (c ∷ l)) rest h = ground arith
skip_space-marshal (str s) rest h = refl
skip_space-marshal (arr nil) rest h = refl
skip_space-marshal (arr (cons v vs)) rest h = refl
skip_space-marshal (obj end) rest h = refl
skip_space-marshal (obj (field n v fs)) rest h = refl

-- A marshalled value in front of a delimiter is read back byte for byte.
pub read_value-marshal :
    (v : Value) (rest : Bytes)
    → IsValue v
    → StartsDelimiter rest
    → read_value (marshal v ++ rest) ≡ some (marshal v, rest)
unfolding read_value scan step
read_value-marshal v [] h s = absurd s
read_value-marshal v (d ∷ rest) h s = rw (skip_space-marshal v (d ∷ rest) h) (
    scan-marshal_in v [] [] (d ∷ rest) h s
    ∙ ap (λ bs. some (bs, d ∷ rest)) (push-push (marshal v) [] [] ∙ append-nil (marshal v)))

-- So is a string that is quoted.
pub read_value-quote :
    (t rest : Bytes) → StartsDelimiter rest → read_value (quote t ++ rest) ≡ some (quote t, rest)
unfolding marshal
read_value-quote t rest s = read_value-marshal (str t) rest tt s
