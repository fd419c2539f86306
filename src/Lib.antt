-- ===== src/Lib.antt =====
-- Longboy sends small payloads of fixed size between game clients and a server over UDP, over
-- several sockets at once, and makes up for lost datagrams by repeating the last few payloads in
-- each one. This library models the protocol and the tasks that run it.
--
-- The protocol (crates/longboy/src/proto) has two ends. A `Sender` asks its `Source` for a
-- payload on each poll, puts it in the slot of the current cycle, and sends a datagram with an
-- encrypted header (cycle and timestamp) and one slot for each of the last `WINDOW_SIZE` cycles.
-- A `Receiver` opens the header, drops what is stale or passed, hands each payload that it has
-- not seen to its `Sink`, and advances its local cycle over the cycles that have arrived. The
-- tasks of a client (crates/longboy/src/client) own a sender or a receiver with sockets, tell the
-- server's mapper where they are by heartbeats, and mirror each datagram over three sockets. The
-- two tasks of a server (crates/longboy/src/server) do the same for all sessions: they learn of
-- sessions from the server by events and of their addresses from heartbeats; the sending task
-- polls the sender of each session, and the receiving task passes each datagram to the receiver
-- of the session whose address it comes from. The server's program (crates/longboy-server-cli)
-- seats players, hands each new connection a session number and a key, registers the session, and
-- relays inputs between the players' clients (crates/longboy-client-cli).
--
--   `Prelude`: lists, slices and writes of byte arrays, blocks, arithmetic on rings,
--     little-endian bytes, Boolean tests.
--   `Proto/Constants`: crates/longboy/src/proto/constants.rs; `IsValid` is what the compiler
--     checks, and a `SIZE` of at least 1.
--   `Proto/Cipher`: crates/longboy/src/proto/cipher.rs. The block cipher of the `rc5` crate is
--     the parameter `Rc5`: a block keeps its length and decryption undoes encryption.
--   `Proto/Sender`: crates/longboy/src/proto/sender.rs; `poll_datagram` is composed of `stamp`,
--     `store` and `transmit`, in the order of the code.
--   `Proto/Receiver`: crates/longboy/src/proto/receiver.rs; `handle_datagram` is composed of
--     `open_header`, `accept`, `skip_cycles`, `sink_input`, `sink_slot` and `advance`.
--   `Proto/Link`: both ends together, over a network that loses datagrams (`Burst`, `Session`,
--     also where the cycle wraps), and, before the cycle wraps, over one that repeats and
--     reorders them, too: `Proto/Receiver/Arrived` is the receiver's abstract state, the set of
--     the cycles that have arrived, `Stream` lists what a sender sends, and `Unordered` puts the
--     two together.
--   `Effects`: crates/longboy/src/mirroring.rs and schema.rs, and what tasks do to the outside:
--     `send_to` is a parameter, and a panic is an outcome.
--   `Client/ToServer`: crates/longboy/src/client/client_to_server_sender.rs.
--   `Client/FromServer`: crates/longboy/src/client/server_to_client_receiver.rs.
--   `Builders`, `Client/Builder`: crates/longboy/src/client.rs; `ClientSession` is what it reads
--     of a session.
--   `Server/FromClients`: crates/longboy/src/server/client_to_server_receiver.rs, with
--     server_session_event.rs and factory.rs. The arena of the `thunderdome` crate is the
--     parameter `Arena`, with the laws that the crate documents; a hash map is a function; a
--     panic is `none`.
--   `Server/ToClients`: crates/longboy/src/server/server_to_client_sender.rs; `Iter` is the
--     arena's `iter_mut`, as the indices that it visits.
--   `Server/Registry`, `Server/Builder`: crates/longboy/src/server.rs; the port of a socket is a
--     parameter. `Server/Registry/Lives` runs the server with its two tasks, each from its start
--     on: what a task has read of its channel is cut into the batches of its polls.
--   `Handshake`: crates/longboy/src/server/server_session.rs and
--     crates/longboy/src/client/client_session.rs; which operations on the stream succeed is an
--     argument.
--   `Broker`: crates/longboy-server-cli/src/broker.rs.
--   `Broker/Connections`: what crates/longboy-server-cli/src/main.rs does with each connection;
--     the key generator is a parameter.
--   `ClientProgram`: the source and the sink of crates/longboy-client-cli/src/main.rs, what the
--     source writes (`Words`), and how it sets up its client (`SetUp`).
--   `Schemas`: crates/longboy-schema/src/lib.rs, the sizes that the two programs use, and how the
--     server's program sets up its tasks.
--   `EndToEnd`: a client's sending task and the server's receiving task together; the network is
--     a function that gives each socket an address. `EndToEnd/Downstream`: the server's sending
--     task and a client's receiving task; the network brings what is sent to an address.
--   `Runtimes`: the loops of crates/longboy/src/runtimes, as the timestamps that they poll a task
--     with; `Runtimes/Threads`: thread_runtime.rs, its threads as steps in any order, where the
--     test of the token and the poll are two steps; `Runtimes/Tokio`: tokio_runtime.rs, in the
--     same way, where what `select!` finds ready and takes is an argument of each turn.
--   `Tests`: concrete runs, with a toy cipher.
--
-- Where the cycle wraps, two cycles of one buffer can share a flag, so what is said of reordered
-- datagrams stops before the wrap. A byte is a number, an array a list whose length the theorems
-- state. Cycles and timestamps are native numbers with the wrap-around written out. The loop that
-- advances the local cycle runs on a fuel of `MAX_BUFFERED` rounds, which is enough since each
-- round clears one of as many flags; the other loops are structural. `recv_from` is the list of
-- the datagrams that it yields before its first error.
--
-- Not modelled: the timers of the runtimes; the drop of `TokioRuntime`, whose aborts take effect
-- when tokio's scheduler sees to it; logging and tracing spans; the configuration, TLS and
-- endpoints of the two command line programs, which are calls of third-party libraries; the
-- quality-of-service calls on sockets (udp_socket_ext.rs), which always succeed. A `recv` of the
-- client's source that waits is a poll without a result.
pub mod Prelude
pub mod Proto
pub mod Effects
pub mod Builders
pub mod Client
pub mod Server
pub mod Handshake
pub mod Broker
pub mod ClientProgram
pub mod Schemas
pub mod EndToEnd
pub mod Runtimes
pub mod Tests
