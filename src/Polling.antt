-- ===== src/Polling.antt =====
-- engine.io/v4/client/transport/polling/transport.go: the transport's state and what its methods do
-- to it. The goroutines are in Polling/Loop. Logging is left out.
pub mod Loop
pub mod Payload
pub mod Constructor
mod Tests
use go_socket_io.Base.{
  ℕ, ◌+◌, ◌^◌, ◌%◌, Bool, true, false, not, ◌&&◌, ◌||◌, Option, none, some, List, [], ◌∷◌, Bytes,
  codes, length, take, Result, ok, err, ◌>>=◌, ltb, leb, equal, if◌then◌else◌,
}
use go_socket_io.Base.Int.{ℤ, pos, is_nonpos, to_ℕ, wrap_pos}
use go_socket_io.Url.{Url, UrlLibrary, no_values, set_value}
use go_socket_io.EngineClient.{HandshakeResponse, Gate, absent, shut, opened, close_once}
use go_socket_io.EngineClient.Handshake.{milliseconds, is_zero}

-- `Transport`. A channel that is only closed is a gate; `stop_pooling` is whether the channel of
-- that name holds a value, and `cancelled` whether `Stop` has cancelled the context of requests.
pub record Transport : Type 0 where
  pub url : Option Url
  pub sid : Bytes
  pub has_messages : Bool
  pub has_on_close : Bool
  pub handshake_done : Gate
  pub stop_ch : Gate
  pub stop_once : Bool
  pub stop_pooling : Bool
  pub cancelled : Bool
  pub stopped : Bool
  pub pinger : ℤ
  pub max_payload_size : ℤ

-- `markHandshakeDoneLocked`
abbrev pub mark_handshake_done : Gate → Gate
mark_handshake_done absent = absent
mark_handshake_done shut = opened
mark_handshake_done opened = opened

-- The period that `SetHandshake` sets; the default is ten seconds.
unfoldable pub ping_period : ℤ → ℤ
unfolding milliseconds
ping_period n = if is_zero n then pos 10000000000 else milliseconds n

-- `SetHandshake`; `none` when `Reset` of the ticker panics on a period that is not positive.
unfoldable pub set_handshake : Transport → HandshakeResponse → Option Transport
unfolding ping_period
set_handshake t r =
    if is_nonpos (ping_period r.ping_interval)
    then none
    else some (record t {
      sid = r.sid;
      pinger = ping_period r.ping_interval;
      handshake_done = mark_handshake_done t.handshake_done;
    })

-- What `Run` sets before it starts the polling loop. The flags say whether the channels are there.
unfoldable pub run : Transport → Url → Bytes → Bool → Bool → Transport
run t url sid has_messages has_on_close = record t {
  url = some url;
  sid = sid;
  has_messages = has_messages;
  has_on_close = has_on_close;
  handshake_done = if equal sid [] then shut else opened;
  stop_ch = shut;
  stop_once = false;
  stop_pooling = false;
  cancelled = false;
  stopped = false;
}

-- The three parts of `Stop`: the flag, the broadcast, and the value for the loop, which is dropped
-- when the channel is full.
unfoldable pub stop_flag : Transport → Transport
stop_flag t = record t { stopped = true }

abbrev with_stop_ch : Transport → Option Gate → Option Transport
with_stop_ch t none = none
with_stop_ch t (some gate) = some (record t { stop_ch = gate; stop_once = true; cancelled = true })

unfoldable pub stop_broadcast : Transport → Option Transport
stop_broadcast t = if t.stop_once then some t else with_stop_ch t (close_once t.stop_ch t.stop_once)

unfoldable pub stop_signal : Transport → Transport
stop_signal t = record t { stop_pooling = true }

-- `buildHttpUrl`; the URL's own query is not taken over. `none` is a nil dereference.
unfoldable pub build_http_url : UrlLibrary → Option Url → Bytes → Option Url
unfolding set_value
build_http_url lib none sid = none
build_http_url lib (some url) sid =
    let query =
      set_value
        (set_value (set_value no_values (codes "transport") (codes "polling")) (codes "EIO")
          (codes "4"))
        (codes "sid") sid in
    some (record url { raw_query = lib.encode query })

-- The response of the HTTP client: its status and its body, which may break off with an error.
pub record Response : Type 0 where
  pub status : ℕ
  pub content : Bytes
  pub broken : Option Bytes

-- What becomes of a request: it cannot be made, it fails, or it is answered.
pub data Reply : Type 0 where
  not_created failed : Bytes → Reply
  answered : Response → Reply

pub data Error : Type 0 where
  no_messages canceled transport_stopped : Error
  not_created failed broken : Bytes → Error
  unexpected_status : ℕ → Error
  too_large : ℕ → Error
  context_error : Bytes → Error

-- One byte more than the limit, in an `int64`.
unfoldable pub read_limit : ℕ → ℕ
read_limit max =
    let limit = wrap_pos ((max + 1) % 2 ^ 64) in if is_nonpos limit then max else to_ℕ limit

abbrev pub to_end : Response → Result Error Bytes
to_end r = elim r.broken [ none ↦ ok r.content | some e ↦ err (broken e) ]

-- `io.ReadAll` behind a limit, which ends the text before it can break off.
unfoldable pub read_at_most : ℕ → Response → Result Error Bytes
read_at_most limit r = if leb limit (length r.content) then ok (take limit r.content) else to_end r

unfoldable pub read_body : ℤ → Response → Result Error Bytes
unfolding read_limit read_at_most
read_body max r = if is_nonpos max then to_end r else do
  body ← read_at_most (read_limit (to_ℕ max)) r
  if ltb (to_ℕ max) (length body) then err (too_large (length body)) else ok body

-- `poll` up to the body that it hands on.
unfoldable pub fetch : Transport → Reply → Result Error Bytes
unfolding read_body
fetch t reply = if not t.has_messages then err no_messages else elim reply [
  | not_created e ↦ err (not_created e)
  | failed e ↦ err (failed e)
  | answered r ↦
      if ltb r.status 200 || leb 300 r.status
      then err (unexpected_status r.status)
      else read_body t.max_payload_size r
]

-- `SendMessage`: the status of the response is not looked at.
unfoldable pub send_message : Reply → Option Error
send_message (not_created e) = some (not_created e)
send_message (failed e) = some (failed e)
send_message (answered r) = none
