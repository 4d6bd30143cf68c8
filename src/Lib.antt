-- ===== src/Lib.antt =====
-- A model of the Wisp protocol library of epoxy-tls (the crate in wisp/), of the proxy server around
-- it (server/) and of the browser's client (client/). A client and a server multiplex
-- TCP and UDP streams over one WebSocket-like transport, with credit-based flow control and, in
-- version 2, an exchange of protocol extensions; the proxy decides which streams a client may open and
-- where they go.
--
-- The parts, and where they are:
--   Packet      wisp/src/packet.rs. Kinds has the tables of numbers, Codec the packets and their
--               `encode`/`decode`, Info the information packet with its list of extensions, Extended
--               the packets of extensions and the stream that sends them (stream/handles.rs).
--   Extension   wisp/src/extensions: Motd, Password and Cert are motd.rs, password.rs and cert.rs;
--               Any is mod.rs and udp.rs, and Erased the casts and lists of type-erased values. A
--               builder is a state machine, so its methods return the builder after the call beside
--               their result.
--   Sink        wisp/src/locked_sink.rs: Lock is the lock that handles share, Waiter a waker in its
--               list; Transport is what a poll meets at the write half.
--   Stream      wisp/src/stream and `StreamInfo` of wisp/src/mux/inner.rs: Read is `MuxStreamRead`,
--               Write is `MuxStreamWrite`, Info the state that the halves share with the multiplexor,
--               Deliver how a payload enters a stream, Bytes the write half for bytes (compat.rs).
--   Mux         wisp/src/mux: State is the stream map and its objects, Handlers what a packet does,
--               Events the event loop and the end of `MuxInner`. Conn, Supported, Handshake and
--               Create are the handshakes of both sides; Select is wisp/src/unfair_select.rs.
--   Ws          wisp/src/ws/unfold.rs: transports that are made from asynchronous functions.
--   Server      server/src. Address has the classes of addresses and Resolve the fate of a request
--               (stream.rs); Config is config.rs with its defaults, overrides, ranges of ports and
--               the extensions that a handshake offers; Http is upgrade.rs and route.rs; Clients,
--               Streams and Stats are the table of clients, its users and its statistics (main.rs,
--               handle/wisp/mod.rs, stats.rs); Session is the acceptance of a connection
--               (handle/wisp/mod.rs); Wispnet and Proxy are handle/wisp/wispnet.rs and
--               handle/wsproxy.rs; Anyhow is the result type of all these.
--   Client      client/src. Provider is the multiplexor that the streams of a browser share
--               (stream_provider.rs); Fetch are the redirects and the headers of `fetch` (lib.rs,
--               utils/mod.rs); Socket is the browser's WebSocket as a transport (ws_wrapper.rs);
--               Websocket is a WebSocket of a page over a stream (websocket.rs).
--   Base, Bytes shared helpers, errors (wisp/src/lib.rs), and the interface of the `bytes` crate.
--   Tests       the interfaces at concrete functions, and theorems at concrete inputs.
--
-- How the parts meet: the multiplexor decodes a frame (Packet), finds the stream's object through
-- its map (Mux.State) and puts the payload in its channel (Stream.Deliver); the reader takes it from
-- there and announces free room with CONTINUE frames (Stream.Read); the writer spends the credit it
-- was granted (Stream.Write). The handshake reads and writes information packets with the builders of
-- Extension, and ends with the buffer size that credits start from. The server routes an HTTP request
-- to a handler (Server.Http), offers the extensions of its configuration (Server.Config.Opts),
-- accepts a connection that agrees on those it requires (Server.Session), and for each stream
-- resolves the request (Server.Resolve), connects it (Server.Resolve.Connect or Server.Wispnet) and
-- lists it (Server.Streams, Server.Clients).
--
-- Conventions. A `Result` is `Outcome`: `ok`, `err`, and `panic` for a call that aborts the task
-- (`unwrap`, reads past the end of a buffer); `diverge` is fuel that has run out. A stateful method
-- takes the state and returns it. What another crate or the peer answers is an argument: the crates
-- `bytes` (Bytes.Buf), `flume` (Stream.Channel.Flume), `slab` (Sink.Lock.Slab), `ed25519` and
-- `bitflags` (Extension.Cert.CertDeps), and the memory behind a `Box` (Extension.Erased.Boxes), are
-- records of functions with the behaviour they document; the answers of the transport during a poll
-- are a `Transport`, those during a handshake a `Conn`. Atomics are numbers and every method is one
-- step.
-- Numbers are unbounded, with the bounds of the Rust types as hypotheses (IsU32) and saturation,
-- truncation and overflow checks written out. The only fuel is that of `InfoPacket::decode`'s loop,
-- the length of the packet: every round takes at least five bytes.
--
-- The server is modelled in its default build, without the features twisp and speed-limit. Its regular
-- expressions, resolvers, sockets, hashes, JSON and HTTP types are records of functions too
-- (Server.Resolve.Regexes and Names, Connect.Sockets, Opts.CertFiles, Http.HttpDeps). Names of clients
-- and streams are numbers, and a concurrent run is the sequence of accesses to the table of clients.
-- In Client.Provider.get_stream the list of fates says which clients are lost between two passes; it
-- bounds the passes, and one that is kept is enough. In Client.Websocket the frames that are read are
-- a list, at whose end the task waits. parse_digits, starts_with and their like are the standard
-- library's functions, written out.
--
-- The redirects of Client.Fetch have the redirect limit as their fuel, as the code's loop does. A future
-- of Ws.Unfold is what its polls give: nothing for a number of them, then its output.
--
-- Not modelled: the adapters to third-party WebSocket crates (wisp/src/ws), and the byte-oriented read
-- half, which is the `futures` crate's; of the server, the copying of data between a stream and its
-- socket, the listeners, reading a configuration file, and the copy of tokio's Chain (util_chain.rs);
-- of the client, TLS, the bodies of `fetch` and the bindings of the browser; and simple-wisp-client/,
-- which is I/O around the crate.
pub mod Base
pub mod Bytes
pub mod Packet
pub mod Extension
pub mod Sink
pub mod Stream
pub mod Mux
pub mod Ws
pub mod Server
pub mod Client
pub mod Tests
