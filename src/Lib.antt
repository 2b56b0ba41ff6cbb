-- ===== src/Lib.antt =====
-- The Rust SDK of Zerobus (rust/sdk): the protobuf parser zeroparser, and the parts of the SDK that
-- keep the records of a stream between `ingest` and their acknowledgement: the gRPC stream, the Arrow
-- Flight stream, and the multiplexed stream over several gRPC streams; and the conversion of the schema
-- of a table into a protobuf descriptor and an Arrow schema.
--
-- A stream gives each record an offset, puts it into the landing zone and lets the sender task take
-- it out from there; the receiver task removes a record when the service acknowledges it. When the
-- connection breaks, the supervisor puts the records that were sent and not acknowledged back into
-- the queue. The Arrow Flight stream sends whole batches of rows: it keeps each pending batch with the
-- range of its rows, the service acknowledges a count of rows, and after a reconnection the suffixes
-- that were not acknowledged are sent again, with the counts rebased. The multiplexed stream spreads
-- records over its sub-streams in turn, and its message ids name a sub-stream and an offset in it. The
-- parser reads records in the protobuf wire format with a descriptor of their type.
--
-- Files:
--   Common            names of the library that the parts share; Boolean tests on numbers, lists,
--                     signed integers, bit operations, texts and association lists
--   LandingZone       rust/sdk/src/landing_zone.rs: the state of a zone as a record, one function
--                     per operation, and histories of a zone as sequences of atomic steps
--   Errors            rust/sdk/src/errors.rs: the errors of the SDK and when they are retried; what
--                     the source uses of tonic is the parameter Tonic
--   GrpcStream        rust/sdk/src/stream/grpc: the tasks of a stream over the state they share
--     State             types.rs, ingest.rs and sender.rs
--     Receiver          receiver.rs: what is done with each message of the service
--     Supervisor        supervisor.rs between two connections, and get_unacked_batches of acks.rs
--     Outcomes          what one operation does to the callbacks and the zone
--     Acks, Failure     what one acknowledgement does, and what a failure leaves
--     History           histories of a stream through any number of connections
--   ArrowStream       rust/sdk/src/stream/arrow: the state that a stream shares between its tasks
--     Batch             batch.rs: pending batches, their deadlines and their rebuilding for replay
--     Acks              acks.rs: acknowledgements, and what pauses the sender
--     Ingest            mod.rs: ingest_batch, from the permit to the hand-over to the sender
--     Recovery          supervisor.rs: reconnect, replay and finalization; get_unacked_batches of mod.rs
--     Close             mod.rs: wait_for_offset, flush and close
--     Rotation          acks.rs: the deadlines, the errors and the drain of a rotation
--     Process           acks.rs: the loop of AckProcessor::process, one round after the other
--     Supervise         supervisor.rs: the loop of Supervisor::run, and the limit of its retries
--     Rows, Ranges, Retain, Replay    rows and ranges of lists of batches
--     Valid, Admits, Recovers, Steps, Owed    what each operation keeps, and histories of a stream
--     Retrieval, Drain, Kept, Losses, Ends    retrieval and close, and the rotation
--     Reconnects, Supervised, GivesUp    what the supervisor keeps, and when it gives up
--   MultiplexedStream rust/sdk/src/multiplexed_stream.rs, over an interface of sub-streams
--     Message           the ids of its messages
--     Routing           which sub-stream takes a record, and the shutdown
--   OffsetGenerator   rust/sdk/src/offset_generator.rs: the counter of offsets as an i64
--   Schema            rust/sdk/src/schema.rs: what a table of Unity Catalog becomes
--     Types, TypeJson   columns and errors, the names of types, and the JSON of a type after serde_json
--     Names             names of fields and messages, and the collector of nested messages
--     FieldTypes, Descriptor    the protobuf descriptor of a table, in the types of Zeroparser.Registry
--     DataTypes, ArrowFields    the Arrow schema of a table
--     Identifiers, Unique       what names are, and that a free one is found
--     Scopes, Collected, Messages,
--     WellFormed                     what the messages of a descriptor name
--     Supported, Accepts, Depth       which types and tables are taken
--     Columns, Numbers          the order of the columns, and the numbers of the fields
--   TokenCache        rust/sdk/src/token_cache.rs: the cache of OAuth tokens, with its slots as a
--                     store, and the clock and the fetch as arguments
--   Zeroparser        rust/sdk/src/zeroparser:
--     Errors            errors.rs and the results of the parser
--     Wire              wire.rs: varints, tags, fields, zigzag and the accessors of a wire value
--     Types             types.rs: scalar types, packed fields, map keys
--     SparseFieldMap    sparse_field_map.rs: fields by number, an array and an overflow map
--     Registry          registry.rs: descriptors prepared for the parser
--     Parser            parser.rs: messages, merge_from and the recursive parser
--
-- Numbers are those of the native ℕ. A u64 or u32 is its number, and the shifts and sums of the code
-- are taken modulo 2^64 or 2^32 where they can wrap; an i32 or i64 is an integer ℤ; usize has 64
-- bits. Floats stand as their bits. A slice that the code walks along is a list.
--
-- A result of the parser is `ok`, `err` with the error of the code, `panic` where the code indexes
-- out of bounds, or `stuck` where a loop of the model runs out of fuel. The fuel of a loop is the
-- length of what it reads, since every round takes at least one byte, or the number of descriptors;
-- the recursion of the parser has the depth limit of the code for its fuel.
--
-- The JSON of a type is read by serde_json, the parameter Serde; the search for a free name of a message
-- has the number of names used for its fuel, which is enough to find one. The positions of columns are
-- i32, and the sum in a field number wraps around as in a release build.
--
-- What the Arrow stream uses of the library arrow is the parameter Arrow: rows, their count, slices
-- and the comparison of schemas. A batch is known by its rows, and a history of a stream is a sequence
-- of atomic steps, each made under the locks of the code. The histories are those with the option
-- `recovery` on; in a call of `close`, what the supervisor's task does while it waits is an argument.
-- Instants and durations are milliseconds. The events that the acknowledgement processor, the supervisor
-- and the waiting loops see are given as lists; where such a list ends first the loop has no result.
--
-- Not modelled: the transports (tonic, the connection and the C data interface of Arrow Flight), the
-- requests for tokens, the builders, dynamic protobuf, and the bindings for other languages. In the parts that are modelled, these are left out: from_setup_status of errors.rs; the
-- oneshot channels of ingest.rs, wait_for_offset and close of the gRPC stream; which of several ready
-- events the select of the Arrow stream takes, and the JSON of its metadata; ingest_records, the
-- callback adapter and Drop of the multiplexed stream. Waiting is an operation that is not enabled, or
-- a list of what is seen: the wakeups of tokio are not modelled.
pub mod ArrowStream
pub mod Common
pub mod Errors
pub mod GrpcStream
pub mod LandingZone
pub mod MultiplexedStream
pub mod OffsetGenerator
pub mod Schema
pub mod TokenCache
pub mod Zeroparser
