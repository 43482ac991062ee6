-- ===== src/Lib.antt =====
-- The RPC protocol library: frames on the wire, JSON-pointer routing, and bulk transfers.
--
-- A frame is a 48-byte header, a query and a body. A carrier reads a frame, `route` looks its query
-- up in the router, the handler's response is framed with the request's query and written back.
-- Large transfers run beside the calls: a producer asks the transfer's control for credit, the
-- receiver acknowledges or resumes, and a ring keeps what may have to be sent again. A value stream
-- is pulled instead: its producer cuts what a body writes into chunks, a session keeps one chunk ahead
-- so that the last one can be marked, and the client calls `next` until that mark. A gateway maps HTTP
-- requests to the registry, and a fleet retries its calls over several clients.
--
-- Which file models which code:
--   Prelude       shared names, lists, Boolean tests, little-endian words, text, and `Outcome`: a
--                 Rust call returns `Ok`, returns `Err` or panics
--   Constants     repe-core/src/constants.rs: the enums and their wire codes
--   Error         src/error.rs: RepeError, its codes and its texts
--   Header        src/header.rs: Header, encode, decode
--   Message       src/message.rs: Message, MessageView, the parses and the wire form; Message/Builder
--                 is MessageBuilder, Message/Response the response constructors and the query echo
--   Io            src/io.rs: readers and writers over a transport
--   JsonPointer   src/json_pointer.rs
--   Stream        src/stream.rs: ReplayRing and TransferControl
--   Server        src/server_request.rs, and Router::get and Router::call_into of src/server.rs
--   Registry      src/registry.rs: the table of functions, and mount prefixes
--   Client        src/client.rs: the pending map, the response loop and the checks on a response
--   ValueStream   src/value_stream.rs: Producer is ChunkSink and produce, Session the sessions and the
--                 handlers of open, next and cancel, Client the pull loop, Reader the ChunkReader, Trailer the
--                 TrailerHold
--   Peers         src/peer.rs: PeerRegistry
--   Rest          src/rest.rs: RestGateway; Path is the pointer of a request path, Negotiation the
--                 accepted representation and the entity tags, Reads and Conditional the forms of a read
--   Fleet         src/fleet.rs: the node table and the retried call
--   WebSocket     src/websocket_limits.rs, and the framing and off-reader dispatch of
--                 src/websocket_server.rs
--   Examples      concrete inputs
--
-- How state and operations correspond: a struct is a record, an enum a data type, a `Vec<u8>` or a
-- `str` a list of bytes, a hash map an association list. A method with `&mut self`, or behind a mutex,
-- is a function to the new state; a reader or a writer gives its next state. A handler is a
-- function on the application's state. `usize_max` (or `u`) is the largest `usize` of the target;
-- arithmetic that overflow checks would stop is a panic. The clock is an argument.
--
-- Fuel: `read_exact` runs its loop for as many rounds as it wants bytes, and a round takes a byte at
-- least. A decimal numeral has no more digits than the number has units, and one. A wait on a
-- condition variable is a list of wakes. `ChunkSink::write` runs for as many rounds as there are bytes,
-- and a round takes a byte at least, unless a chunk has none. A pull loop ends within one round more
-- than there are chunks.
--
-- Assumed: the transport's `read` and `write_all` keep the contract of `std::io`, as `IsReader`,
-- `IsReliable` and `IsWriter` say it: a write that returns has taken its whole buffer; structio's encodings are parameters,
-- and where a round trip needs it, its reader reads what its writer writes.
--
-- Not modelled: sockets, threads, tasks and timers, the other clients and the asynchronous fleet, the
-- body readers and the typed-slice builders of src/message.rs, the registrars and middleware of the
-- router, the transfer registry, the files of a download, broadcasts, the notify
-- slot, struct dispatch, the HTTP layer of the gateway, the plugin surface and the derive macro.
pub mod Prelude
pub mod Constants
pub mod Error
pub mod Header
pub mod Message
pub mod Io
pub mod JsonPointer
pub mod Stream
pub mod Server
pub mod Registry
pub mod Client
pub mod ValueStream
pub mod Peers
pub mod Rest
pub mod Fleet
pub mod WebSocket
pub mod Examples
