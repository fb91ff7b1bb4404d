-- ===== src/Lib.antt =====
-- Flight-Safety-System: a server that passes commands to aircraft and stores what they report, a
-- library for its clients, and the transport between them.
--
-- The parts, from the bottom:
--   Base        Boolean tests, bytes in network order, lists of addresses.
--   Floats      the floating-point arithmetic of src/transport-messages.cpp, a parameter.
--   Clock       `fss_current_timestamp` of src/fss-main.cpp.
--   Buffer      `buf_len` and `packString` of src/transport-messages.cpp; Buffer.Cursor follows the
--               guarded reads of the `unpackData` methods through a buffer.
--   Message     the messages of src/fss-transport.hpp: Message.Pack (`packData`, `getPacked`),
--               Message.Unpack and Message.Decode (`unpackData`, `fss_message::decode`),
--               Message.Capabilities (`addCapability`, `getCapability`), Message.Constructors and
--               Message.Accessors (the public constructors and the getters),
--               Message.Wire (the wire format, described apart from the code).
--   Connection  `fss_connection` of src/transport.cpp and src/transport-ssl.cpp: sending and the
--               queue; Connection.Receive (`recvMsg`, `processMessages`), Connection.Send (the plain
--               `sendMsg`), Connection.Connect (`convert_str_to_sa` of src/transport-helpers.cpp,
--               `connectTo`), Connection.Accept (`fss_listen`, the accepting side of TLS),
--               Connection.Plain (the connections without TLS), Connection.Tls (`recvSessionBytes`),
--               Connection.Names (the names of certificates), and Connection.Race (the turns of
--               `processMessages` and `setHandler`, two threads on one queue).
--   Db          `db_connection` of src/db.cpp, over src/server-db.h.
--   Server      `server::fss_client` of src/server.cpp; Server.Clients (`server_clients`),
--               Server.Process (`processMessage`, new connections, the periodic round), Server.Main
--               (`main`), Server.Shutdown (the destructor of `server_clients` and the threads that
--               go for its lock), Server.Roster (who is listed as what, described apart from the
--               messages), Server.Stored (what goes to the database, described apart from src/db.cpp)
--               and Server.Silent (a client that sends nothing while `main` goes on).
--   Client      `client_ssl::fss_server` of src/client-ssl.cpp; Client.Servers (`fss_client`),
--               Client.Process (`fss_server::processMessage`), Client.Backoff and Client.Waits (when
--               a server is tried again), Client.Early (a connection that closes inside
--               `attemptReconnect`), Client.Queued (`reconnect` where the new connection has queued
--               messages) and Client.Disconnect (`disconnect`, with what the joined threads hand
--               over).
--   Exchange    a message of one side and what the other does with it: Exchange.Rtt,
--               Exchange.Command, Exchange.Identity, Exchange.Position, Exchange.Status and
--               Exchange.Settings.
--   FakeClient  the program examples/fake_client.cpp.
--   Examples    the theorems at concrete inputs.
-- A message goes from a `send_msg` of one side, which gives it an id and packs it, through the bytes
-- of a stream to `recv_msg` and `process_messages` of the other, which hand it to the
-- `process_message` of the server or of the client.
--
-- State and objects. An object that C++ shares by pointer (a client of the server, a server of a
-- client) is an address in a store, and the lists hold addresses, so that a change through one list
-- is seen through the other. An operation takes the state and returns it. What goes out is kept:
-- `sent` of a connection (what it hands to its session or socket, taken in full), `writes` of the
-- server for the database, `calls` of a client for the virtual functions of the application. What C++
-- leaves undefined is a result of its own: a read or write outside a buffer (`none` of the unpacking
-- functions, `fault` of the loops), and a loop that goes on from an erased node (`erased`).
--
-- Numbers. Every integer is a natural number; the wrap-around of the C++ type is written out where
-- it can occur (`% 2 ^ 16` for the lengths, `% 2 ^ 32` for the count of clients, `% 2 ^ 64` for ids
-- and times). A signed field of a message is its bit pattern.
--
-- Loops. `unpack_servers` runs on fuel, two rounds more than the buffer has bytes, which is enough
-- since each round moves the offset. `process_messages` runs on a number of rounds that the caller
-- gives. The loops on a socket consume the list of what the calls of the socket return, and say that
-- they wait where the list ends.
--
-- Parameters, since their code is elsewhere: gnutls and the sockets (what a call answers: `Network`,
-- `Peer`, `Reply`, `SendReply`), the database behind src/server-db.h (`Database`), the JSON reader
-- (`Config`) and the clock (`Timeval` for what it answers; a time in milliseconds is an argument).
--
-- Threads. An operation is one step, except in Connection.Race, Server.Shutdown and Client.Early,
-- and in Client.Disconnect, where what a thread does while it is joined is an argument. In the first
-- two the state holds how far each thread has got, a turn is one access to what the threads share,
-- and a run follows a list of turns, any list that is given.
--
-- Not modelled: data races inside one access (the loops of the server that send to all take no
-- lock), the send lock of a connection, what new connections have queued in the loop of
-- `attemptReconnect`, what a thread hands over while `reconnect` drops its old connection, the SQL
-- of src/server-db.pgc, the reading of the JSON files (their values are parameters), the signal
-- that ends the loops of the programs (it is the end of the list of rounds), and the printing under
-- DEBUG.
pub mod Base
pub mod Buffer
pub mod Floats
pub mod Clock
pub mod Message
pub mod Connection
pub mod Db
pub mod Server
pub mod Client
pub mod Exchange
pub mod FakeClient
pub mod Examples
