-- ===== src/Polling/Payload.antt =====
-- engine.io/v4/client/transport/polling/transport.go: the size limit of `poll`.
use go_socket_io.Base.{
  ◌⊎◌, ℕ, zero, suc, ◌+◌, ◌^◌, ◌≤◌, ◌<◌, ◌≡◌, ◌↔◌, refl, true, none, List, [], ◌∷◌, Bytes, length,
  take, ok, arith,
}
use go_socket_io.Base.Int.{pos}
use go_socket_io.Polling.{
  Transport, Response, answered, to_end, read_limit, read_at_most, read_body, fetch,
}

read_limit_cases :
    (max : ℕ)
    → max < 2 ^ 63
    → (read_limit max ≡ max + 1) ⊎ ((max + 1 ≡ 2 ^ 63) × (read_limit max ≡ max))
unfolding read_limit
read_limit_cases max h = ground arith

module _ {ℓ} {A : Type ℓ} where
  length-take : (n : ℕ) (xs : List A) → n ≤ length xs → length (take n xs) ≡ n
  length-take zero xs h = refl
  length-take (suc n) [] h = absurd (omega arith)
  length-take (suc n) (x ∷ xs) h = omega (arith, length-take n xs (omega arith))

-- The body fits, and it was read to its end.
abbrev pub Fits : ℕ → Response → Bytes → Type 0
Fits max r body = (length r.content ≤ max) × (r.broken ≡ none) × (body ≡ r.content)

to_end_iff :
    (r : Response) (body : Bytes) → (to_end r ≡ ok body) ↔ ((r.broken ≡ none) × (body ≡ r.content))
to_end_iff r body = ground arith

read_body_iff :
    (max : ℕ) (r : Response) (body : Bytes)
    → 0 < max
    → max < 2 ^ 63
    → length r.content + 1 < 2 ^ 63
    → (read_body (pos max) r ≡ ok body) ↔ Fits max r body
unfolding read_body read_at_most
read_body_iff zero r body p h l = absurd (omega arith)
read_body_iff (suc m) r body p h l =
    ground (arith, read_limit_cases (suc m) h, length-take (suc m + 1) r.content, to_end_iff r body)

-- For a response, `poll` hands on a body exactly when the status is from 200 to 299, the body was
-- read to its end, and it is no longer than the limit; it is the whole body then. The limit is
-- positive and fits into an `int64`, and so does the body's length, with one to spare.
pub fetch_iff :
    (t : Transport) (max : ℕ) (r : Response) (body : Bytes)
    → t.has_messages ≡ true
    → t.max_payload_size ≡ pos max
    → 0 < max
    → max < 2 ^ 63
    → length r.content + 1 < 2 ^ 63
    → (fetch t (answered r) ≡ ok body) ↔ ((200 ≤ r.status) × (r.status < 300) × Fits max r body)
unfolding fetch
fetch_iff t max r body there size p h l =
    rw (there, size) (ground (arith, read_body_iff max r body p h l))
