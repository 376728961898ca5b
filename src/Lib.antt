-- ===== src/Lib.antt =====
-- A verification library for amqprs, a client of the protocol AMQP 0-9-1.
--
-- The program reads and writes frames over a connection that many channels share. Its parts and
-- their files here:
--
--   Serde (amqp_serde/src): the wire format. Serde/Types is types.rs (field values, tables, arrays,
--     strings and the lengths they keep), Serde/Ser is ser.rs (what each call of the serializer
--     appends), Serde/De is de.rs with error.rs (the deserializer as a state that every call passes
--     on). Serde/Wire is the interface of a type that is written and read back: what is written, the
--     parser, what fits, and the law; the records of methods and frames are built from it.
--   Frame (amqprs/src/frame): Frame/Method/* are the arguments of the methods of method/*.rs,
--     Frame/Methods and Frame/DecodeMethod the variants and ids that impl_frame! gives them,
--     Frame/ContentHeader content_header.rs (flags, setters, the visitor), Frame/Frames and
--     Frame/Decode the enum Frame, get_frame_type and Frame::decode of mod.rs. Frame/Payload,
--     Frame/Stream and Frame/Short are their theorems.
--   Net (amqprs/src/net): Net/ChannelIdRepo is channel_id_repo.rs, the bitmap of channel ids, and
--     Net/ChannelManager channel_manager.rs, the resources of the open channels, which keeps the
--     bitmap in step with its map. Net/SplitConnection is the two halves of split_connection.rs: the
--     write buffer with the frames that a body is cut into, and the read loop on the pieces of a
--     stream. Net/ReaderHandler is reader_handler.rs with the commands of mod.rs, the task that hands
--     the frames of the connection to its channels (Frames: handle_frame, Loop: run_until_shutdown),
--     and Net/WriterHandler is writer_handler.rs, the task that writes them and the heartbeats.
--   Api (amqprs/src/api): Api/Dispatcher is channel/dispatcher.rs with the messages and commands of
--     channel/mod.rs, the task that takes the frames of one channel: Consumers (the resources of the
--     consumers), Contents (headers and bodies), Frames (the match on a frame) and Loop (commands, the
--     purge timer, the main loop). Subscriber is what a consumer is to its client, the sender that is
--     registered and the messages that wait for one; the task is compared with it. The other files
--     are theorems. Api/Security is security.rs, the credentials and the responses. Api/Connection is connection.rs: the arguments, what the two
--     sides say of themselves (ServerProperties), the handshake of Connection::open with the header of
--     frame/protocol_header.rs (Handshake), and the calls of an open connection (Calls). Api/Channel
--     is the calls of channel/mod.rs, tx.rs and confim.rs, with Exchange, Queue, Basic and Consume for
--     exchange.rs, queue.rs and basic.rs, and Answers for the responses that they wait for. Api/Call
--     is what all these calls are made of: synchronous_request! of mod.rs and the errors of error.rs.
--   Prelude: lists and maps over native numbers, tests, bytes, bits, and Outcome, the result of a
--     function that may panic.
--
-- How the code is modelled. A u8, u16, u32, u64 or usize is a natural number with its bound in the
-- statement, and the overflow checks are those of a build with debug assertions: where they fail, the
-- result is a panic. A signed number or a float is its bit pattern, a String its UTF-8 bytes. A
-- HashMap is a list of entries in some order of iteration. A method that changes its object returns
-- the new state. A failed assert!, unwrap, index or unreachable! is the value panic, so a theorem that
-- a call returns also says that these lines are not reached.
--
-- Tasks. Senders of tokio, callbacks and the clock are parameters: the interfaces Parties and Peers
-- say, for the time of a call, whether a receiving half is alive and what a callback returns. A task
-- is a function of a list of events, which is what select! takes, in its order, and returns its last
-- state and the list of what it did to the outside. A time is a number of milliseconds. A callback
-- that fails to return, and the order in which tokio runs the tasks, are left to the list of events.
--
-- Calls. A call is a function of a World, of the flag of its object and of the log of what the call
-- did so far; it returns a value, fails with an error, waits, or panics. The World holds the ends of
-- the channels that the call makes, says whether what it sends is taken, and what its receiving halves
-- get, each as a function of the log. A statement on a call and a task together supposes that the
-- halves of the call get what the task does to theirs (Hears, ConnHears, GetsInOrder, ConnDrops).
--
-- Fuel. The parsers of nested values recurse on fuel: de_field_table takes two more than the length
-- of the input, which is above every length that its parsers meet. The loop over a body takes one
-- more than its length, which suffices since a round takes a byte where a frame has room for one.
-- The read loop recurses on the pieces of the stream.
--
-- Not modelled: the causes of failures of sockets, TLS, the messages of errors, Display and the
-- traces, the arguments of a URI, which a third-party parser reads, the setters of arguments that
-- a macro makes, the names of the types of exchanges, the optional assertions of compliance, and
-- how long a sender waits for room in a bounded channel. The callbacks and the consumers are the
-- user's.
pub mod Prelude
pub mod Serde
pub mod Frame
pub mod Net
pub mod Api
