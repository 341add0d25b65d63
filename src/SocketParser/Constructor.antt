-- ===== src/SocketParser/Constructor.antt =====
-- socket.io/v5/parser/default/constructor.go: `NewParser` and its options. `L` stands for loggers,
-- `E` for errors of an option; with one, `NewParser` panics.
use go_socket_io.Base.{Option, none, some, List, [], ◌∷◌, Result, ok, err, ◌>>=◌}
use go_socket_io.SocketParser.Parse.{PayloadParser, SocketIoV5DefaultParser}

pub record Config (L : Type 0) : Type 0 where
  pub logger : Option L
  pub payload_parser : Option PayloadParser

abbrev pub ParserOption : Type 0 → Type 0 → Type 0
ParserOption E L = Config L → Result E (Config L)

module _ {E L : Type 0} where
  unfoldable pub with_logger : Option L → ParserOption E L
  with_logger logger c = ok (record c { logger = logger })

  unfoldable pub with_payload_parser : Option PayloadParser → ParserOption E L
  with_payload_parser payload_parser c = ok (record c { payload_parser = payload_parser })

  unfoldable pub apply_options : List (ParserOption E L) → Config L → Result E (Config L)
  apply_options [] c = ok c
  apply_options (opt ∷ opts) c = do c' ← opt c; apply_options opts c'

module _ {L : Type 0} where
  abbrev or_default : L → Option L → L
  or_default log none = log
  or_default log (some l) = l

  abbrev built : {E : Type 0} → L → Result E (Config L) → Option (L × SocketIoV5DefaultParser)
  built log (err e) = none
  built log (ok c) = some (or_default log c.logger, record { payload_parser = c.payload_parser })

  -- `NewParser`, with the default logger; `none` is a panic.
  unfoldable pub new_parser :
      {E : Type 0} → L → List (ParserOption E L) → Option (L × SocketIoV5DefaultParser)
  unfolding apply_options
  new_parser log options =
      built log (apply_options options (record { logger = none; payload_parser = none }))
