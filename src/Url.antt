-- ===== src/Url.antt =====
-- URLs as far as the program takes them apart and puts them together: the type of net/url.
use go_socket_io.Base.{Option, none, some, List, [], ◌∷◌, Bytes, equal, if◌then◌else◌}

pub record Url : Type 0 where
  pub scheme : Bytes
  pub host : Bytes
  pub path : Bytes
  pub raw_query : Bytes

-- `url.Values`, a map to the values of each parameter.
abbrev pub Values : Type 0
Values = Bytes → Option (List Bytes)

-- The two functions of net/url that are not written out here: what of a query text can be read, and
-- the text of a query.
pub record UrlLibrary : Type 0 where
  pub parse_query : Bytes → Values
  pub encode : Values → Bytes

abbrev pub no_values : Values
no_values k = none

-- `Values.Set`
unfoldable pub set_value : Values → Bytes → Bytes → Values
set_value q k v j = if equal k j then some (v ∷ []) else q j

abbrev or_values : Option (List Bytes) → Option (List Bytes) → Option (List Bytes)
or_values none old = old
or_values (some vs) old = some vs

-- A loop that copies each parameter of one query to another.
unfoldable pub copy_values : Values → Values → Values
copy_values from to k = or_values (from k) (to k)
