-- ===== src/Lib.antt =====
-- go.socket.io, a client for Socket.IO in Go, as definitions over lists of bytes, with proofs.
--
-- The program. A `Client` of socket.io/v5/client keeps namespaces with their handlers and the
-- callbacks that wait for an acknowledgement. What it emits is serialized by a parser
-- (socket.io/v5/parser/default) and handed to the Engine.IO client; each message that the
-- Engine.IO client receives goes to `onMessage`, which parses it and starts the handlers. The
-- Engine.IO client (engine.io/v4/client) connects over a transport, reads the handshake, upgrades
-- to a better transport and answers pings; engine.io/v4/parser puts one byte of packet type before
-- each message. A transport moves the bytes: polling with HTTP requests
-- (engine.io/v4/client/transport/polling) or a WebSocket (engine.io/v4/client/transport/websocket,
-- over websocket/native).
--
-- The files.
--   * Base: names of the library that are passed on, lists, options and results, `ℤ` over the
--     native numbers. Base/Tests is the Boolean tests.
--   * Url: the type of net/url and the map of a query.
--   * EngineParser: engine.io/v4/defs.go and engine.io/v4/parser/parser.go (`Parse`, `Serialize`,
--     `NewEngineIOV4Parser`, `WithMaxSerializeSize`).
--   * EngineClient: engine.io/v4/client/client.go: the state, the calls of transports and handlers;
--     Handshake (`handleHandshake`, `transportUpgrade`), Packets (`handlePacket`), Lifecycle
--     (`Connect`, `Send`, `On`, `Close`, and the life of a client as a sequence of steps),
--     Constructor (constructor.go), Logging (`payload` and the first log lines of a packet).
--   * Logger: utils/logger.go.
--   * Polling: engine.io/v4/client/transport/polling: the state and what each method does to it
--     (transport.go); Loop (`pollingLoop`, `poll`, `RequestHandshake` and `Stop` as one sequence of
--     steps), Constructor (constructor.go).
--   * WebSocket: engine.io/v4/client/transport/websocket: the state, `buildWsUrl`; Loop
--     (`wsReadLoop` as a sequence of steps), Constructor (constructor.go), Native
--     (websocket/native/ws.go).
--   * Json: JSON text as encoding/json of the standard library writes and reads it. Json/Quote is
--     string literals, Json/Scan the reading of one value, Json/Complete and Json/Shrinks its laws.
--   * SocketParser: socket.io/v5/defs.go (Packet) and socket.io/v5/parser/default: Header
--     (`checkData`, `extractNamespace`, `extractAckId` of parser.go), Event (`ParseEvent`), Parse
--     (`Parse`), Serialize (serializer.go), Callback (`WrapCallback`), Decimal (strconv),
--     Constructor (constructor.go).
--   * SocketClient: socket.io/v5/client: the state and client.go, Messages (handlers.go), Emit
--     (emitters.go; Options is emit/options.go and the loop over the arguments), Emit/Run (the
--     goroutine that waits for an acknowledgement, and the life of a client as a sequence of
--     steps), Emit/Ledger (what a client promises about acknowledgements), Node (a client together
--     with its Engine.IO client, `Connect`, `Close`, and how a packet reaches `onMessage`),
--     Node/Opening (the connect packet and its answer), Node/Constructor (constructor.go).
--
-- The correspondence. A function keeps its name in snake case. State is an argument and a result;
-- what a call makes the outside do (bytes sent, handlers started, timers) is a list of effects in
-- its order. An error is a constructor for each error value of the source. A nil pointer is `none`,
-- and a dereference of it is `panic`. A Go map is a function to options. A handler that is started
-- by `safeGo` runs on its own; a step of a client is one call of `onMessage`, `Emit` or `On`, or
-- one case of the waiting goroutine, each of which the source guards by a lock for what it changes.
--
-- The Engine.IO client calls its transports through an interface. What a call returns is given by an
-- argument that may depend on all calls before; the calls are kept in the state, the last first. A
-- channel that is only closed is a gate (nil, made, closed), beside the `sync.Once` that closes it.
-- `Connect` is three steps and `Close` two, since the message loop may run between them; `Send` is
-- one step at a moment when both its gates let it pass, and waits at any other. The wait for
-- `transportClosed` is taken to end. Text of a handshake is read by an argument that stands for
-- `json.Unmarshal`.
--
-- The run of a transport is a relation between states: a step is one case of a `select` or one call
-- between two of them, and goroutines take turns in any order. A `select` takes any case that is
-- ready, and its `default` if none is. What the HTTP client and the connection give is free; a
-- channel of one place is whether it holds a value. net/url's reading and writing of a query are
-- arguments. `Stop` of the polling transport is three steps, since the loop may run between them.
--
-- Bounds and fuel. A byte is a number below 256, and `data[0] - '0'` wraps. An acknowledgement id
-- that is parsed has at most 18 digits and fits into an `int`; the client's counter is a number and
-- does not overflow. The loop over an event's payloads runs on fuel, one more than the bytes that
-- are left, which is enough because each round takes a byte; to run out of it is told apart from an
-- error. The reading of a JSON value is by recursion on its bytes. The limit of a polling body wraps at 64 bits. The loops of the
-- transports need no fuel: a run is as long as its list of steps.
--
-- Not modelled. Log lines, but for those of a packet in `handlePacket` that come before the switch
-- over its type; locks; the timer (utils/timer.go); mocks and end-to-end tests; a panic of a
-- handler, which `safeGo` recovers; a handler that is a nil interface value. JSON: text is bytes
-- and a byte from 128 on is passed through, which is what the library does for valid UTF-8; its
-- limit of nesting (10000) is left out; numbers and nested values of an event are kept as text,
-- which is what `json.RawMessage` is. The hand-over of an answer to the waiting goroutine is one
-- step, since the channel has room for it. The errors of a URL and of a transport are not told
-- apart. In the transports: the length of a pause, that a cancelled request fails at once, a send
-- into the client's channels that waits for room, and the message that the reading goroutine of a
-- WebSocket holds back when the loop ends before it takes it. A handler that the Engine.IO client
-- calls runs to its end before the next packet.
pub mod Base
pub mod Url
pub mod EngineParser
pub mod EngineClient
pub mod Logger
pub mod Polling
pub mod WebSocket
pub mod Json
pub mod SocketParser
pub mod SocketClient
