-- ===== src/EngineParser/Limits.antt =====
-- engine.io/v4/parser/parser.go: the limit on outbound data.
use go_socket_io.Base.{
  inl, inr, Bool, true, not, ◌&&◌, map, if◌then◌else◌, refl, Bool-cases, ◌<◌, ◌≡◌, ◌↔◌, List, [],
  ◌∷◌, length, ok, err, arith,
}
use go_socket_io.Base.Int.{ℤ, pos, is_nonpos}
use go_socket_io.EngineParser.{
  Message, EngineIoV4Parser, apply_options, new_engine_io_v4_parser, with_max_serialize_size, limit,
  serialize, message_too_large, max_size_not_positive, default_max_serialize_size,
}

-- `Serialize` fails exactly when the data is longer than the limit in force.
serialize_too_large_iff :
    (p : EngineIoV4Parser) (msg : Message)
    → (serialize p msg ≡ err message_too_large) ↔ (limit p < length msg.body)
unfolding serialize
serialize_too_large_iff p msg = ground arith

-- Whether every size is positive, and the last size of the list.
abbrev pub all_positive : List ℤ → Bool
all_positive [] = true
all_positive (size ∷ sizes) = not (is_nonpos size) && all_positive sizes

abbrev pub last_size : ℤ → List ℤ → ℤ
last_size default [] = default
last_size default (size ∷ sizes) = last_size size sizes

apply_options-sizes :
    (p : EngineIoV4Parser) (sizes : List ℤ)
    → apply_options (map with_max_serialize_size sizes) p ≡ (
        if all_positive sizes
        then ok (record { max_serialize_size = last_size p.max_serialize_size sizes })
        else err max_size_not_positive)
unfolding apply_options with_max_serialize_size
apply_options-sizes p [] = refl
apply_options-sizes p (size ∷ sizes) = elim (Bool-cases (is_nonpos size)) [
  | inl bad ↦ rw bad refl
  | inr good ↦ rw good (apply_options-sizes (record { max_serialize_size = size }) sizes)
]

-- A parser built from a list of size options takes the last of them, or the default if there is
-- none, and is not built at all if one of the sizes is not positive.
new_engine_io_v4_parser-sizes :
    (sizes : List ℤ)
    → new_engine_io_v4_parser (map with_max_serialize_size sizes) ≡ (
        if all_positive sizes
        then ok (record { max_serialize_size = last_size (pos default_max_serialize_size) sizes })
        else err max_size_not_positive)
unfolding new_engine_io_v4_parser
new_engine_io_v4_parser-sizes sizes = apply_options-sizes _ sizes
