-- ===== src/Lib.antt =====
-- A model of the Go implementation of Gotalk, a protocol for requests, streams and notifications
-- over one connection, with the theorems that make it correct.
--
-- The program's parts and their files:
--   * protocol.go, the wire format: Protocol. A message is a type byte and fields of fixed-width
--     hexadecimal numbers. Protocol/Fixnum has `copyFixnum` and `rShiftSlice` with their in-place
--     loops, over `strconv.AppendUint` and `strconv.ParseUint`; Protocol/Make has `MakeMsg` and
--     `MakeHeartbeatMsg`, Protocol/Reader `readn`, Protocol/Read `ReadMsg`, and Protocol/Version the
--     handshake's version and `FormatRequestID`.
--   * limits.go, how many requests a socket serves at once, and how long a refused one shall wait:
--     Limits. Limits/Counter has the counter alone, and Limits/Counter/Shared the counter under
--     goroutines that interleave at each atomic addition.
--   * handle.go, the handlers by operation name: Handlers. Objects stand in a store, since
--     sub-handlers share their outer object: a later registration at it is seen through
--     them. Handlers/Wrap has the wrapping of typed functions, by what `reflect` and `encoding/json`
--     answer, and Handlers/Defaults the functions of the package, which register at one object.
--   * sock.go, request.go and response.go, a socket: Sock. Its state has the map of pending responses,
--     what was written to the connection, and what was sent to the channels of responses and of
--     streaming requests. Sock/Pending is about the map and `readResponse`, Sock/Wire about `writeMsg` and
--     `SendRequest`, Sock/Retry about `BufferRequest`, Sock/Close and Sock/Closing about `Close` and
--     `CloseError`. Sock/Serving has `readBufferReq`, Sock/Streams `readStreamReq`, `readStreamReqPart` and
--     `streamWriter`, Sock/Sending what a user of the socket sends, Sock/Setup its handshake, heartbeats
--     and shutdown, Sock/Dialing how it gets a connection, and Sock/Loop the loop of `Read` with its
--     dispatch and its errors. Sock/Exchange puts two sockets together, one that asks and one that
--     serves, and has several requests at once.
--   * server.go, the loop that accepts connections, with its back-off, and what is done with a connection:
--     Server. Server/Listening has how it comes to listen, and `Close` beside the loop.
--   * tls.go, the pool of root certificates: Tls.
--   * websocket.go, the server of web sockets: WebSocket. It serves the client's script, for which
--     WebSocket/CommaSet parses a header, and makes a socket of an upgraded connection. WebSocket/Setup
--     has what is made once.
--   * examples/websocket-chat/server.go, a chat server on top of these: Chat. It has the rooms, the
--     sockets and what they are notified of, Chat/History what happens in any order of whole calls, and
--     Chat/Locks the order in which each function takes its locks, action by action.
-- A socket reads messages with `ReadMsg`, lets a request in by the counters of its limits, looks its
-- handler up, and answers with `MakeMsg`.
--
-- How the model corresponds to the code:
--   * Bytes and numbers are natural numbers. Where the code's 32-bit or 64-bit arithmetic can wrap,
--     the wrap-around is written out; a `time.Duration` is an integer of nanoseconds.
--   * A Go panic (an index out of range, `rand.Intn(0)`) is the result `panic`, an error value the
--     result `err`, so a theorem that a function gives `ok` says that it does not panic.
--   * A connection is the list of what its `Read` calls will return, each some bytes with an error or
--     none; behind it is the end of the stream. A stream with no read failure is one whose reads
--     return no error until the end.
--   * What a connection answers to `Write` and `Close` is a parameter, and so are the texts of errors and
--     which channels have room at `Close`; an operation that holds its lock is one step. `BufferRequest`
--     gets the list of what comes out of its channel, each with what other goroutines have done to the
--     socket by then, and recurses on that list. The loop of `Read` gets what the other goroutines do to
--     the socket and its limits before each of its rounds, and gives back the goroutines that it starts.
--     `Close` gives the pending channels their response in the map's list order, where Go's order is
--     unspecified.
--   * A send to a channel in the loop of `Read` (`ch <- Response`, `rch <- b`) is one step that succeeds: the
--     model goes on as if somebody took it sooner or later. Where nobody does, the goroutine blocks there
--     for ever, and what the model says of the steps behind it does not come about.
--   * Random draws and the time are arguments.
--   * Loops recurse on a number of rounds that the code's bounds give; the digits of a number
--     use fuel, 15 rounds behind the first, and a 64-bit number has at most 16 digits; the loop of `Read`
--     uses as fuel one round more than its stream has bytes, and each message takes 9 of these at least.
--   * A handler or channel is known by a number. The locks of the registries make each operation one step.
--
-- Not modelled: the accessors of sock.go and websocket.go, which only read; log.go and jslib.go, which
-- write output and hold generated data; the JavaScript client and the vendored WebSocket library; of the
-- chat server its HTTP server, signals and names file; the other examples. What a handler does is a
-- parameter: the results that it writes, its error, or what it does to the socket.
--
-- Common has the shared helpers. Examples applies the theorems at concrete messages.
pub mod Common
pub mod Protocol
pub mod Limits
pub mod Handlers
pub mod Sock
pub mod Tls
pub mod Server
pub mod WebSocket
pub mod Chat
pub mod Examples
