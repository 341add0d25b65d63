-- ===== src/SocketParser/Event/RoundTrip.antt =====
-- socket.io/v5/parser/default/payloadparser.go against the JSON that the serializer writes.
use go_socket_io.Base.{
  ℕ, zero, suc, ◌+◌, ◌<◌, ◌≡◌, refl, true, false, some, List, [], ◌∷◌, ◌++◌, Bytes, length,
  length-append, ok, arith, append-nil, equal,
}
use go_socket_io.Json.{
  Value, null, bool, num, str, arr, obj, Items, nil, cons, end, field, marshal, marshal_items,
}
use go_socket_io.Json.Quote.{quote}
use go_socket_io.Json.Quote.Laws.{unquote-quote}
use go_socket_io.Json.Scan.{skip_space, number_start}
use go_socket_io.Json.Shrinks.{read_value-shrinks}
use go_socket_io.Json.Complete.{
  IsValue, AreItems, items-StartsDelimiter, read_value-marshal, read_value-quote,
}
use go_socket_io.SocketParser.Event.{
  delimiter, decode, more, unmarshal_string, decode_name, decode_payloads, parse_event_default,
}

-- The JSON of each value.
abbrev pub raw_items : Items → List Bytes
raw_items nil = []
raw_items (cons v vs) = marshal v ∷ raw_items vs

decode_comma :
    (v : Value) (vs : Items)
    → IsValue v
    → decode false (b',' ∷ (marshal v ++ marshal_items vs)) ≡ ok (marshal v, marshal_items vs)
unfolding decode skip_space
decode_comma v vs h =
    rw (← append-nil (marshal_items vs))
      (rw (read_value-marshal v (marshal_items vs ++ []) h (items-StartsDelimiter vs [])) refl)

decode_payloads-items :
    (fuel : ℕ) (vs : Items)
    → AreItems vs
    → length (marshal_items vs) < fuel
    → decode_payloads fuel false (marshal_items vs) ≡ some (ok (raw_items vs, b']' ∷ []))
unfolding decode_payloads marshal_items skip_space
decode_payloads-items zero vs h lt = elim lt [ ]
decode_payloads-items (suc fuel) nil h lt = refl
decode_payloads-items (suc fuel) (cons v vs) h lt = rw (decode_comma v vs h.0) (
    rw
      (decode_payloads-items fuel vs h.1
        (omega (arith, length-append (marshal v) (marshal_items vs))))
      refl)

-- What follows the opening bracket of a list.
abbrev after_bracket : Items → Bytes
after_bracket nil = b']' ∷ []
after_bracket (cons v vs) = marshal v ++ marshal_items vs

marshal-arr : (vs : Items) → marshal (arr vs) ≡ b'[' ∷ after_bracket vs
unfolding marshal
marshal-arr nil = refl
marshal-arr (cons v vs) = refl

-- The decoder takes the beginning of a value for an element of the list.
more-marshal : (v : Value) (rest : Bytes) → IsValue v → more (marshal v ++ rest) ≡ true
unfolding more skip_space marshal quote number_start
more-marshal null rest h = refl
more-marshal (bool true) rest h = refl
more-marshal (bool false) rest h = refl
more-marshal (num []) rest h = cc
more-marshal (num (c ∷ l)) rest h = ground arith
more-marshal (str s) rest h = refl
more-marshal (arr nil) rest h = refl
more-marshal (arr (cons v vs)) rest h = refl
more-marshal (obj end) rest h = refl
more-marshal (obj (field n v fs)) rest h = refl

decode_first :
    (v : Value) (vs : Items)
    → IsValue v
    → decode true (marshal v ++ marshal_items vs) ≡ ok (marshal v, marshal_items vs)
unfolding decode
decode_first v vs h =
    rw (← append-nil (marshal_items vs))
      (rw (read_value-marshal v (marshal_items vs ++ []) h (items-StartsDelimiter vs [])) refl)

decode_payloads-first :
    (fuel : ℕ) (vs : Items)
    → AreItems vs
    → length (after_bracket vs) < fuel
    → decode_payloads fuel true (after_bracket vs) ≡ some (ok (raw_items vs, b']' ∷ []))
unfolding decode_payloads
decode_payloads-first zero vs h lt = elim lt [ ]
decode_payloads-first (suc fuel) nil h lt = unfold more skip_space in refl
decode_payloads-first (suc fuel) (cons v vs) h lt =
    rw (more-marshal v (marshal_items vs) h.0, decode_payloads)
      (rw (decode_first v vs h.0, decode_payloads-items fuel vs h.1 (omega (arith, shorter))) refl)
  where
    shorter : length (marshal_items vs) < length (marshal v ++ marshal_items vs)
    shorter = rw append-nil at (
        read_value-shrinks _
          (read_value-marshal v (marshal_items vs ++ []) h.0 (items-StartsDelimiter vs [])))

unmarshal_string-quote : (t : Bytes) → unmarshal_string (quote t) ≡ some t
unfolding unmarshal_string equal quote
unmarshal_string-quote t = unquote-quote t

decode_name-quote :
    (name : Bytes) (vs : Items)
    → decode_name false (quote name ++ marshal_items vs) ≡ ok (name, marshal_items vs)
unfolding decode_name decode
decode_name-quote name vs = rw (← append-nil (marshal_items vs)) (
    rw (read_value-quote name (marshal_items vs ++ []) (items-StartsDelimiter vs []))
      (rw (unmarshal_string-quote name) refl))

decode_name-str :
    (name : Bytes) (vs : Items)
    → decode_name false (marshal (str name) ++ marshal_items vs) ≡ ok (name, marshal_items vs)
unfolding marshal
decode_name-str = decode_name-quote

delimiter-list : (vs : Items) → delimiter b'[' (marshal (arr vs)) ≡ ok (after_bracket vs)
unfolding delimiter skip_space
delimiter-list vs = rw (marshal-arr vs) refl

-- The JSON of a named event is read back: its name, and its payloads as the JSON of each.
pub parse_event-named :
    (name : Bytes) (vs : Items)
    → AreItems vs
    → parse_event_default (marshal (arr (cons (str name) vs))) false
      ≡ ok (record { name = name; payloads = raw_items vs })
unfolding parse_event_default
parse_event-named name vs h =
    rw (delimiter-list (cons (str name) vs), parse_event_default)
      (rw (decode_name-str name vs) (
        rw (decode_payloads-items (length (marshal_items vs) + 1) vs h (omega arith))
          (unfold delimiter skip_space in refl)))

-- A list with no name is read back as the answer to an acknowledgement.
pub parse_event-ack :
    (vs : Items)
    → AreItems vs
    → parse_event_default (marshal (arr vs)) true
      ≡ ok (record { name = []; payloads = raw_items vs })
unfolding parse_event_default
parse_event-ack vs h =
    rw (delimiter-list vs, parse_event_default)
      (rw (decode_payloads-first (length (after_bracket vs) + 1) vs h (omega arith))
        (unfold delimiter skip_space in refl))
