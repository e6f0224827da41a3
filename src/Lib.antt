-- ===== src/Lib.antt =====
-- The Rust client of TessariDB: the value codec, the frames of its protocol, and what they carry.
--
-- A client speaks to a node over one connection. It greets, and then both sides exchange frames: a
-- kind, a length and a body. A request is answered by a frame with one outcome for each statement,
-- refused by a frame with a class and a message, or sent elsewhere by a redirect. A subscription is
-- answered by a feed of changes and progress reports. The bodies hold values in the value codec.
-- On such a client stand the handles: the queue and the consumer, which settle what they are handed,
-- the cache and its containers, and the vault. Beside it stands a client of the HTTP gateway.
--
--   Common    shared names; results, readers and their loops (Outcome), lists cut at a length
--             (Lists), machine words (Bytes, Ints), UTF-8 as String::from_utf8 decides it (Utf8),
--             and a BTreeMap as its sorted entries (SortedMap).
--   Value     src/value.rs: the value types. A String is its bytes, a double is its 64 bits.
--             Value/Valid says what the Rust types guarantee of a value, and what the codec can count.
--   Geometry  src/geometry.rs: the shapes, and Judging for what makes one well-formed.
--   Codec     src/codec/: tags (Tag, ShapeKind, NumberKind, BoundKind, RecordIdKind), Write for
--             write.rs, Reader and Read for read.rs, RoundTrip and Prefix for the two
--             together.
--   Error     src/error.rs, as far as the modelled parts report it.
--   Refusal   src/refusal.rs.
--   Wire      src/wire/: Stream is the connection, Kind, Frame and Body are frame.rs, Request and
--             Answer are message.rs, Push is push.rs, Settlement and Redirect are redirect.rs. The
--             constants of `protocol` in src/lib.rs are Wire/Frame/Protocol.
--   Feed      src/feed.rs: the state is the connection and whether the feed has ended.
--   Client    src/client.rs: Client.exchange asks one connection; Follow is src/client/follow.rs and
--             `send`; Naming, Trail, Sending and Asking are their proofs. Dialing another node is a
--             parameter. Session is what the handles ask of a client, VaultFrame is `vault_frame`, Following is
--             the subscription that a client becomes.
--   Query     src/query/: Names and Span say what may be written into a statement, Binder turns values
--             into parameters, Filter, Select and Write render, Builders are the calls before `build`.
--   Statement what src/vault/, src/queue/, src/consumer/ and src/cache/ share in their statements:
--             names, durations, parameters and the answer that is read. References says which
--             parameters a text refers to.
--   Polling   `next_batch` and the loops around it, in src/queue.rs and src/consumer.rs.
--   Queue     src/queue/statements.rs (Statements) and src/queue.rs (Worker).
--   Consumer  src/consumer/statements.rs (Statements) and src/consumer.rs (Run).
--   Cache     src/cache/statements.rs (Statements), src/cache/statements/containers.rs
--             (Statements/Containers), src/cache.rs (Space), src/cache/containers.rs (Containers) and
--             src/cache/containers/rankings.rs (Rankings).
--   Vault     src/vault/statements.rs (Statements), src/vault/call.rs (Call) and src/vault.rs
--             (Status, Store and Handle).
--   Mapping   src/mapping/: MappingFault, the conversions of impls.rs and the rows of mod.rs. Elements
--             is about the faults in a sequence.
--   Http      src/http/: Basic is basic.rs, Paths is object.rs, Calendar and Events are series.rs,
--             Json is condition.rs and what mod.rs reads of an answer, Reply is reply.rs, Operations
--             is the handle and one request of mod.rs, Calls are its operations.
--   Examples  runs at concrete inputs, on a connection that gives one byte at a time.
--
-- Conventions. A function that appends to `out` is the bytes that it appends. A reader with a
-- position is a function from the bytes that are left to a value and the bytes then left, or an
-- error. An async function on a connection is a function from the state of the connection to a
-- result and the next state. The connection is a parameter: `Stream` has the operations of tokio's
-- AsyncRead and AsyncWrite that the source calls, and `IsReliable` states what their documentation
-- promises of a connection without faults, whose chunks may have any size. What else is not of this
-- repository is a parameter too: the JSON library, the line reader, connecting to a gateway, the
-- clock, the stop signal and the pause of a handle, the handler or loader that a caller passes, the
-- text of a double, and the holder that a lock draws at random.
--
-- Bounds. Machine integers are numbers with their ranges as hypotheses; a count is written as
-- `u32::try_from(len).unwrap_or(u32::MAX)` has it. take_value and take_geometry recurse on the
-- levels that are left, which start at MAX_DEPTH + 1, as the source counts them up from zero. The
-- loop that reads a header has HEADER rounds, and each round but the last adds a byte. The loop that
-- follows redirects recurses on the hops that are left, from MOST_HOPS down, and check_span on the
-- bytes of the bound, of which each round reads two.
-- The loop over the headers of a reply has one round more than their ceiling, and a line that is read
-- uses up at least a byte of it. The loops that ask for a batch have rounds and batches, since a node
-- may never have one; `Ends` says how many rounds are enough for a stop signal that comes. Copying
-- the body of a file has as many rounds as it has bytes.
--
-- Not modelled: the texts of errors and of Debug, conversions of values without branches,
-- TLS, how a client or a handle is built from another, and the holder that a lock
-- draws.
pub mod Common
pub mod Geometry
pub mod Value
pub mod Codec
pub mod Refusal
pub mod Error
pub mod Wire
pub mod Feed
pub mod Query
pub mod Client
pub mod Statement
pub mod Mapping
pub mod Polling
pub mod Queue
pub mod Consumer
pub mod Cache
pub mod Vault
pub mod Http
mod Examples
