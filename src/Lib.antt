-- ===== src/Lib.antt =====
-- airpc is an edge gateway and a private connector. Clients reach the edge over HTTP, WebSocket
-- and TCP; the connector sits next to the backends and only dials out: to NATS, which carries the
-- calls and the questions who opens a stream, and to the edge, by a data tunnel (one WebSocket)
-- which carries the bytes of streams.
--
-- What happens to a call. The edge picks a route, filters the headers and sends an envelope on
-- the subject of the route; one connector of the queue group decodes it, calls the backend and
-- answers with an envelope. A stream is opened by a question on the open subject of the route;
-- the connector that accepts names itself, the edge takes the link that is registered for that
-- connector and writes an open frame on it. From then on both sides exchange frames of that
-- session, within a window of credit.
--
-- The files, with the code that they model:
--   Prelude     Boolean tests, lists, Go strings as lists of bytes, the rune loop, maps and
--               shared objects, results, and what the program uses of strings, net and strconv.
--   Codec, Url  MessagePack and the URL parser as parameters; Codec/Fields writes the codecs of
--               the tests.
--   Config      internal/config/config.go: the records, tokens, header names and subjects
--               (Tokens, Subjects), cancel subjects (Cancels), addresses and URLs (Addresses,
--               Hosts), the validation of routes and of the whole (Checks, Names, Routes,
--               Accepted), byte sizes (Sizes, Overflow), loading (Loading), and
--               internal/config/tls.go (Tls, Mutual).
--   Tunnel      internal/protocol/tunnel/envelope.go: frames and open envelopes, their validation
--               (Frames, Opens) and coding (Coding).
--   Unary       internal/protocol/httpunary/envelope.go: the envelopes of a call (Requests,
--               Responses).
--   Session     internal/datatunnel/session.go: one end of a session (Credit), and the flow
--               control of a sender and a receiver with the frames in flight (Flow).
--   Link        internal/datatunnel/link.go: the multiplexer, with the methods of sessions that
--               write on it (Registry, Closing, Steps, Traffic), histories of calls (History) and
--               the independence of sessions (Isolation).
--   Relay       internal/datatunnel/relay.go: the relay of a TCP connection, what it sends
--               (Order, Steps) of what it reads (Reading), what it writes of the frames that come
--               in (Writing, Carrying) and both its ends (Carried), that of a WebSocket
--               (WebSockets, Messages), both its ends (Ends, Told), and the idle guard (Idle).
--   Headers     internal/httpheaders/headers.go: the header filters (Values), and headers that
--               are added to an answer (Normal).
--   Connector   internal/connector/connector.go, data.go and proxy.go: the route maps, the target
--               URL, the answer to an open question (Opens), the forwarding of calls (Unaries)
--               and their replies (Replies), open frames (Streams, Opening), the calls in flight
--               (Inflight, Kept), streamed bodies (Bodies), the backends of sessions (Backends),
--               the redialling (Backoff), and the start (Starting) with what it holds (Served,
--               Settings) and serves (Subjects).
--   Edge        internal/edge/edge.go and data.go: routing (Best, Choice, Paths), the registry of
--               data tunnels and the opening of sessions (Tunnels, Opens), tunnels that come and
--               go (Drops, Registry), both sides of an open together (Handshake), the admission
--               of tunnels and the streams of connectors (Admission), the streamed bodies of
--               replies (Streams, Bodies), one call (Calls, Outcomes) and both sides of it
--               together (EndToEnd); what the client is written and which status is counted
--               (Recorder, Shown, Counted); the start and the shutdown (Server, Closing,
--               Startup), with internal/telemetry/metrics.go, the listeners with TLS (Listeners,
--               Encrypted), the dial of a connector (Dialling), and the connections of clients
--               (Conns).
--   Observer    internal/grpcobs/observer.go: the feeds of bytes (Feed) as streams (Refines,
--               Delivery), the preface (Prefaces), the RPCs in flight (Histories, Rpcs) and the
--               labels (Labels).
--   Command     cmd/airpc/main.go: the command line (Starts, Spellings).
--
-- How the code is read. A Go function is one definition with its name in snake case; `(value,
-- error)` is Result, with one constructor of the error type for each message; a pointer to a
-- session or a link is an address in a store, so that the map, the relay and the claimant share
-- one object. What holds a mutex is one step. A channel is a list with its capacity, and the
-- choice of a `select` whose cases are ready is an argument (`pick`). The modules Unaries and
-- Inflight show two sides of one function, the reply of a call and its context. int and int64 are
-- signed integers, and a place where they wrap around is written out.
--
-- Bounds. Loops over lists are structural. The retry loop of openDataSession runs over the
-- attempts that fit before the timeout; the read loop of a link runs over the messages until the
-- connection fails. The flow control is modelled for one direction of one session; the other
-- direction is the same code.
--
-- What the model rests on. MessagePack reads back what it has written (RoundTrips) and, where a
-- theorem says so, writes every value (IsTotal); the sample codecs show that both can hold.
-- ToLower, TrimSpace, EqualFold and IsDigit are those of ASCII texts. The backend, NATS, random
-- ids, the clock and websocket.FormatCloseMessage are arguments. The maps that Go loops over are
-- lists in the order in which the loop meets them.
--
-- What is not modelled: sockets, the running of timers, the library of metrics, and logging; the
-- YAML decoder and the HTTP/2 framer, which are libraries; signals; the wrapper of the NATS
-- client; cmd/airpc-e2e, a driver of tests. A relay that has returned sends nothing more: what
-- its reading goroutine may still send comes behind the close frame, and the other side drops it,
-- since the session is gone.
pub mod Prelude
pub mod Codec
pub mod Url
pub mod Config
pub mod Tunnel
pub mod Unary
pub mod Session
pub mod Link
pub mod Relay
pub mod Headers
pub mod Connector
pub mod Edge
pub mod Observer
pub mod Command
