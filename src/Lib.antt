-- ===== src/Lib.antt =====
-- simple_messenger, a client and a server for text messages, and what its code does.
--
-- The server keeps a post box for each user that is online, takes messages over gRPC, puts them into
-- the post box of their recipient, and streams each post box to its user. Users log in with an e-mail
-- address and a password that are looked up in a PostgreSQL table. Post boxes and task queues are
-- circular buffers of fixed capacity. Beside gRPC, the code has endpoints over UDP, which send a message
-- again until the other side has acknowledged it.
--
-- The files, and the code that they model:
--
-- CircularBuffer: common/utilities/CircularBuffer.hpp. The buffer is a record of the array and the
--   three positions; push, pop, is_empty, is_full, operator[] (`at`) and the two constructors are
--   functions of the same names. `Queue` is the abstract FIFO.
-- Memory: memcpy and strlen over lists of bytes, and the object representation (`Layout`) of what
--   is copied through a payload. `none` is an access outside an array.
-- Message: common/interfaces/defines.hpp, common/interfaces/proto_defines.proto and
--   common/message_processor/MessageProcessing.hpp. `Payload` has get_payload and set_payload,
--   `Struct` the bytes of an envelope, `Convert` has putEnvToProtoBuf and getEnvFromProtoBuf.
-- Decimal: std::to_string, std::stoul and std::atoi, as far as the code uses them. std::atoi is
--   cut to a 32-bit int.
-- Psql: server_app/psql_manager and server_app/authentification_service, over libpq as a record of
--   its functions. What PostgreSQL answers to a SELECT over a connection that works is the
--   hypothesis `AnswersSelect`, and `Psql.Table` is a libpq for which it holds; what it does with
--   the table and an INSERT are `HasTable` and `StoresUser` in `Psql.Register`, and `Psql.Store`
--   is a libpq for these. `Psql.Life` is about the end of the connection.
-- UserMap: std::unordered_map from UserID as an association list.
-- GrpcServer: server_app/endpoint/GrpcServer.cpp. acceptConnection, receiveMessage and a round of
--   the loop of streamIncomingMessages are functions of the server's state; `Mail` is the abstract
--   post office, `StreamCall` a whole call of streamIncomingMessages, and `Handlers` any number of
--   handlers at once, each of which gives way to others between its test and its access to the
--   map: what they deliver, who can be online, and how a user who has logged out comes back. The
--   accesses without the lock are steps of `Handlers.Step`; where one overlaps another use of the
--   map it is a move of `Handlers.Move`, after which anything may follow.
-- ThreadManager: common/thread_manager. Each critical section is a function of what the mutex
--   protects; `System.Step` interleaves four workers, the callers of schedule_task and the
--   destructor. `Safety` is about what is taken in which order, `Awake`, `Shutdown` and `Joined`
--   about the end of the destructor.
-- Endpoint: common/endpoint/EndpointBase.cpp, pollSocket and the conversion between an envelope
--   and the bytes of a datagram. The wire format of the generated protobuf classes is the record
--   `Wire`, a parameter, with the law that parsing gives back what was serialized.
-- UdpEndpoint: common/endpoint/UdpEndpointBase.cpp. Each method is a function of the endpoint's
--   queues and buffers; the loop of sendEnvFromOutQueue takes what the listener receives in each
--   wait as an argument. `Store` has the loops that drop the oldest entry, `Ack` and `Interrupted`
--   the queue of acknowledgements, `Expiry` how they leave it, `Send`, `Retransmit` and
--   `Unacknowledged` the repeated sending, `RoundTrip` two endpoints, `Duplicates` a message that
--   nobody asks for. `Network` runs two endpoints with all their threads against each other, over
--   a network that may lose, repeat and reorder what is sent; an access to a queue or a call of
--   sendDataGram is one step of `Network.Step` there, and two calls of sendDataGram at once are a
--   move of `Network.Move`, which may send any bytes. `Threads` is the life of one endpoint, from
--   the constructor, which starts the two threads, to the destructor, which joins them.
-- Server: server_app/endpoint/ServerTcpEndpoint.cpp, common/endpoint/TcpEndpointBase.cpp and
--   server_app/server_manager/ServerManager.cpp. `Login` has authentifyClient and whom
--   findOnlineClient finds after it, `Relay` has checkMail, over the endpoint of UdpEndpoint,
--   `SetUp` the constructor of the server manager, for the database, `Tcp` what receiveEnvelope
--   reads, `Delivery` a login with the mail after it, `Descriptors` what is opened and closed,
--   `Lifetime` the order in which the services are made and destroyed, and `Application` the
--   sockets and the event loop of the process.
-- Sockets: the sockets of EndpointBase and of the endpoints that are made of it, in
--   common/endpoint, server_app/endpoint and client_app/endpoint, as calls of the operating
--   system.
-- Client: client_app/endpoint/GrpcClient.cpp and client_app/client_app_main.cpp, what the client
--   sends and prints; `EndToEnd` takes a text from one client through GrpcServer to another,
--   `SendLoop` is about the sending loop, `Session` about that loop on a server, `Printed` about
--   all that a client prints, `Start` about the login of the predefined users, `TcpLogin` about a
--   login over TCP, and `Loops` about the two threads of grpc_client against a server.
-- Logger: common/logger/Logger.hpp, the lines of the log file.
-- Singleton: common/utilities/DynamicCrtpSingleton.hpp and
--   common/utilities/StaticCrtpSingleton.hpp.
--
-- Numbers are natural numbers with the wrap of size_t and int written out where the code computes
-- with them. A payload has 976 bytes: 1024 less the 48 of EnvelopeMeta with 8-byte alignment. Bytes
-- that a constructor leaves unset are arguments. The loop of schedule_task and the loops of the threads
-- are steps of a relation. The loops that store a message into a full queue take two rounds of fuel
-- (`store_rounds`), which `store_in_lem` shows to be enough for any valid queue; the five attempts of
-- sendEnvFromOutQueue are a recursion on their number.
--
-- Not modelled: the operating system behind the sockets, the gRPC runtime, the wire format of protobuf,
-- the prompts of the client, the build and the container scripts.
pub mod Prelude
pub mod CircularBuffer
pub mod Memory
pub mod Message
pub mod Decimal
pub mod Psql
pub mod UserMap
pub mod Singleton
pub mod Logger
pub mod Sockets
pub mod GrpcServer
pub mod ThreadManager
pub mod Endpoint
pub mod UdpEndpoint
pub mod Server
pub mod Client
