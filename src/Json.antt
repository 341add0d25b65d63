-- ===== src/Json.antt =====
-- JSON as Go's `encoding/json` writes and reads it, as far as socket.io/v5/parser/default uses it.
-- Text is bytes. Bytes from 0x80 on are passed through, as that library does with valid UTF-8
-- (U+2028 and U+2029 aside); its limit of 10000 nested values is left out.
pub mod Quote
pub mod Scan
pub mod Complete
pub mod Shrinks
use go_socket_io.Base.{ℕ, Bool, true, false, List, [], ◌∷◌, ◌++◌, Bytes, codes}
use Quote.{quote}

-- A value as `json.Marshal` sees it. A number is given by its literal, an object by its fields in
-- the order written.
mutual
  pub data Value : Type 0 where
    null : Value
    bool : Bool → Value
    num : Bytes → Value
    str : Bytes → Value
    arr : Items → Value
    obj : Fields → Value

  pub data Items : Type 0 where
    nil : Items
    cons : Value → Items → Items

  pub data Fields : Type 0 where
    end : Fields
    field : Bytes → Value → Fields → Fields

-- `json.Marshal`. A list is written with what closes it, one element at a time behind its comma.
unfoldable mutual
  pub marshal : Value → Bytes
  marshal null = codes "null"
  marshal (bool true) = codes "true"
  marshal (bool false) = codes "false"
  marshal (num literal) = literal
  marshal (str s) = quote s
  marshal (arr nil) = codes "[]"
  marshal (arr (cons v vs)) = b'[' ∷ (marshal v ++ marshal_items vs)
  marshal (obj end) = codes "{}"
  marshal (obj (field name v fs)) = b'{' ∷ (quote name ++ (b':' ∷ (marshal v ++ marshal_fields fs)))

  pub marshal_items : Items → Bytes
  marshal_items nil = b']' ∷ []
  marshal_items (cons v vs) = b',' ∷ (marshal v ++ marshal_items vs)

  pub marshal_fields : Fields → Bytes
  marshal_fields end = b'}' ∷ []
  marshal_fields (field name v fs) =
      b',' ∷ (quote name ++ (b':' ∷ (marshal v ++ marshal_fields fs)))

abbrev pub to_items : List Value → Items
to_items [] = nil
to_items (v ∷ vs) = cons v (to_items vs)
