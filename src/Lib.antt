-- ===== src/Lib.antt =====
-- perk-redis: a Redis plugin that speaks perk/v1, JSON-RPC 2.0 over newline-delimited frames on
-- standard input and output. The development models its core and proves what makes it correct.
--
-- The parts, from the wire inwards:
--   * src/protocol.rs reads frames, and builds responses and errors. Protocol has the envelope and
--     the error kinds; Protocol/Frame has `read_frame` over the buffers that a reader delivers, and
--     its children state the framing as a function of the byte stream.
--   * src/server.rs runs the frame loop, the session table, one task per session request, the
--     registry of cancellation tokens and the writer. Server has the state; Server/Dispatch has
--     `handle_message` and each `handle_*`; Server/Methods has `run_session_method`;
--     Server/Schedule has the spawned task's end, the writer, the shutdown and `run`;
--     Server/Capabilities has the handshake advertisement. Server/Turn and Server/Steps are the same
--     transitions as relations, on which the invariants are proved by induction; Server/Handled,
--     Server/Requested and Server/World carry what the handlers keep of the backend over to runs.
--   * src/service.rs is the interface between the two: Service/Errors has `ServiceError`,
--     Service/Handlers the traits `SessionService` and `SessionFactory` as records. Its other half is the
--     in-memory service that the transport's tests run the server on: Memory has the validation of its
--     row writes (`memory_identity`, `memory_update_fields`), Memory/Statement `execute_statement`,
--     Memory/Rows the writes and the browse, and Memory/Service the two instances of the interface.
--   * src/redis_service.rs: Statement parses statements and classifies commands (`parse_statement`,
--     `parse_select`, `command_metadata`); RowWrite validates row writes (`parse_row_write`); Reply
--     turns Redis replies into tables and bounds them (`reply_rows`, `finalize`).
--     On these stands the session, Redis: Redis/Query runs one command (`query`, `run_command`,
--     `close`); Redis/Guidance advises on WRONGTYPE failures; Redis/Browse and Redis/Previews show
--     the keys table (`run_select`, `browse_page`, `fetch_preview`); Redis/Rows writes rows and
--     Redis/Script has the Lua script of an update, as its text and as what it does; Redis/View is
--     the `server` view; Redis/Handlers has the handlers, and Redis/Service makes them an instance of
--     the interface of src/service.rs, whose children run the server on it; Redis/Target builds and
--     reads targets, and Redis/Target/Open opens sessions.
--   * src/dto: Dto has the wire types as records, and the constructor of `RowsAffected`.
-- Prelude, Text, Assoc and Json are what these share: tests, lists, results, the functions of
-- Rust's standard library on `str`, maps with number keys and JSON values. Tests runs the models on
-- concrete inputs.
--
-- How the state corresponds. `Server` is the struct `Server` with what it shares: the registry, the
-- tokens that have been cancelled, the spawned tasks, the gate and queue of `Sink`, what has been
-- written, and the backend. A cancellation token is a number, shared by the registry and its task. A
-- session is a value of a type S and the backend a value of a type W, both parameters, with the
-- handlers as functions on them. The tasks, the frame loop and the writer run concurrently: a
-- schedule is a list of events (a frame arrives, a task's handler runs to its end, a cancelled
-- task's handler is dropped and leaves any backend, the writer writes one frame, the input ends),
-- and what is stated of runs is stated of every list.
--
-- The session's state is the shared part of `RedisService` (the guarded connection and the flag), kept
-- by number for its clones, beside the backend; a handler is an `Action`, which returns its result and
-- the world that it leaves. The backend is any state that the redis crate's calls act on, so that
-- other clients may act in between; the keyspace that the update script works on is read off it.
-- The in-memory service keeps its stores by number, each a map by its entries; a handler runs under the
-- store's lock, and a Boolean tells whether a cancellation comes before the end of a sleep.
--
-- Parameters, for code outside the repository: serde's decoders and encoders (`Serde`), the text of
-- a serialized response, `shell_words::split`, the texts of floats, bytes and JSON (`Printers`),
-- the redis crate with the clock and UTF-8 (`Crate`), the server's keyspace (`Keyspace`), the url crate
-- (`UrlCrate`) and the opening of connections (`Connector`).
-- Where a statement relies on one, its hypothesis says so: the serialized text of a response holds no
-- newline, the shell splitter cuts plain and double-quoted words apart at the spaces between them
-- (Statement/Shell), SET and RENAME do what Redis documents and a script runs at once, and the text of
-- a URL that setters made of the base `redis://localhost/` is read back as the URL
-- (Redis/Target/RoundTrip).
--
-- Bounds. Every function is structural, but for two that take fuel. The printer of decimals has one
-- more than the number, which has fewer digits than that (Text/Decimal reads every printed number
-- back). The SCAN loop needs as many steps as the server gives replies in its iteration
-- (Redis/Browse/Scan); Redis itself does not bound that number. Numbers are unbounded but where the source
-- bounds them: frames at 16 MiB, rows at 500, cells at 300 characters, LIMIT and OFFSET at 64 bits,
-- and session ids, which wrap at 2 ^ 64. What is stated of session ids takes runs with fewer events
-- than there are ids left.
--
-- Not modelled: interleavings inside one handler, and between the two halves of a shutdown; a writer
-- that fails; a handler of the Redis session that is dropped half-way, but for the `server` view's
-- race with a cancellation; the wait for the connection's lock; the conversions that serde derives for
-- src/dto, which the build generates; the adapter of standard output and src/main.rs, which are I/O.
pub mod Prelude
pub mod Text
pub mod Assoc
pub mod Json
pub mod Protocol
pub mod Dto
pub mod Service
pub mod Statement
pub mod RowWrite
pub mod Reply
pub mod Redis
pub mod Memory
pub mod Server
pub mod Tests
