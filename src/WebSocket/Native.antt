-- ===== src/WebSocket/Native.antt =====
-- websocket/native/ws.go: a connection of golang.org/x/net/websocket that may not be there. `K`
-- stands for connections; what that library returns is an argument.
use go_socket_io.Base.{Option, none, some, Bytes, Result, ok, err}

pub record WebSocketConnection (K : Type 0) : Type 0 where
  pub conn : Option K

pub data Error : Type 0 where
  not_connected : Error
  library_error : Bytes → Error

module _ {K : Type 0} where
  -- What the library answers to a dial: the configuration is refused, or there is a connection or
  -- an error.
  abbrev dialled : WebSocketConnection K → Result Bytes K → WebSocketConnection K × Option Error
  dialled ws (err e) = (record { conn = none }, some (library_error e))
  dialled ws (ok k) = (record { conn = some k }, none)

  -- `Dial`; a connection that was there is not closed.
  unfoldable pub dial :
      WebSocketConnection K → Option Bytes → Result Bytes K → WebSocketConnection K × Option Error
  dial ws (some e) answer = (ws, some (library_error e))
  dial ws none answer = dialled ws answer

  abbrev on_conn : {X : Type 0} → Option K → (K → Result Bytes X) → Result Error X
  on_conn none f = err not_connected
  on_conn (some k) f = elim (f k) [ ok x ↦ ok x | err e ↦ err (library_error e) ]

  unfoldable pub send :
      WebSocketConnection K
      → (K → Bytes → Result Bytes (Unit {0}))
      → Bytes
      → Result Error (Unit {0})
  send ws library v = on_conn ws.conn (λ k. library k v)

  unfoldable pub receive : WebSocketConnection K → (K → Result Bytes Bytes) → Result Error Bytes
  receive ws library = on_conn ws.conn library

  abbrev close_conn : Option K → (K → Option Bytes) → Option Error
  close_conn none library = none
  close_conn (some k) library = elim (library k) [ none ↦ none | some e ↦ some (library_error e) ]

  unfoldable pub close : WebSocketConnection K → (K → Option Bytes) → Option Error
  close ws library = close_conn ws.conn library
