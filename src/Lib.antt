-- ===== src/Lib.antt =====
-- paxosme: a multi-Paxos library in C++, a log that a group of nodes agree on, instance by instance.
--
-- A node is a PaxController with three players, an acceptor, a proposer and a learner, which share
-- the instance id, a Scheduler for timeouts, a queue of incoming messages and a log. The controller
-- gives each message to the player that it is for; when the learner has learned a value the
-- controller executes it and begins the next instance. Clients hand in values at a ProposalProv.
-- A step of a node is a function from `Node` to `Node`, or to `Run (Node S)` where the source can
-- deadlock, read a null pointer or read out of a container: those are values of `Fault`.
--
-- Files and sources (paths from the repository's root):
--   Message          include/messages.hpp, include/common.hpp
--   Options          include/config.hpp
--   Queue            src/util/include/queue.hpp
--   Schedule         src/util/schedule.cpp, src/util/event.cpp and their headers: Defs keeps the queue
--                    in the order of time, Heap has it as the vector that it is, and Answers compares
--                    the two
--   Prov             src/core/proposal_prov.cpp, src/core/include/proposal_prov.hpp
--   Store            src/core/storage_pax.cpp, include/logstorage.hpp, src/core/proto/state.proto
--   State            the records and state classes of the players: AcceptorState, ProposerState,
--                    ProposalCounter, PaxLearnerState
--   Node             src/core/player_pax.cpp, src/core/communicate_pax.cpp: what the players share
--   Acceptor         src/core/acceptor_pax.cpp
--   Proposer         src/core/proposer_pax.cpp
--   Learner          src/core/learner_pax.cpp, learner_follow.cpp and learner_lead.cpp in src/core;
--                    Sending has the sending loop, Synced what it sends, Acks where it stalls
--   Controller       src/core/controller.cpp: Handlers has the operations, Loop the rounds of MainLoop,
--                    Bare what they come to without a provider
--   Segment          src/storage/segment_store.cpp: files as bytes. Store has Append and Read, Replay
--                    the start, the replay and the removal, Clean the rounds of
--                    AutoDispatch; Layout describes a file as a list of records, and Contents,
--                    Appends and Restart show that the store keeps such a list
--   LevelDb          the interface of LevelDB
--   Database         src/storage/log_stroage.cpp and src/storage/index_db.cpp; Refines describes the
--                    storage as a map from keys to values, Runs and Mixed have sequences of
--                    operations and Recovery the start after a crash
--   Kv               src/kvsm/kv.cpp, src/kvsm/kvsm.cpp and src/kvsm/proto/kv.proto
--   Network          include/network.hpp, src/network/network.cpp and src/network/Communicator.cpp:
--                    Peers, PeerSet, Clients and Servers, where NetworkServer is the interface of the
--                    transports; src/network/grpc: Grpc and Calls for client.cpp and client.hpp, Server
--                    for server.cpp, server.hpp and server_func_impl.cpp; src/network/asio: Udp for
--                    the server and the client, Echo and Exchange for what passes between them;
--                    Silence has what the clients are given to send
--   Startup          include/node.hpp and src/node/node.cpp
--   Samples, */Tests data at which the theorems apply
-- A method HandlePropose is `handle_propose` of its player's Handlers, and so on for the others; a
-- member `promised_proposal_id_` is the field `promised_proposal_id`.
--
-- Numbers are natural numbers; ids wrap at 2^64 where the source increments them. The text of an
-- id has twenty digits at most, which is enough below 2^64. HandleMessage of the controller takes
-- fuel for the call that the proposer makes back into it: 1 is enough, as no message gets to the
-- proposer. The loop that sends learned values goes by a list of what it finds at the tests of its
-- condition, the current instance and the log, and its waits by a list of what each of them finds,
-- a reading of the clock and some acks; where a list ends the loop is still under way. The id of a
-- segment is an int32_t, and Append faults where the next one would leave its range; an off_t is
-- below 2^63. The clock is a number of milliseconds that the caller gives, and Publish adds
-- seconds to it, as the source does. The heap of events is a list, the latest first; on the
-- vector the loops take a round for each event and one more. The majority threshold is a
-- fraction. Replaying a segment takes fuel for its records: a round for each byte of the file and
-- one more are enough, whatever the bytes are, and for a file of records a round for each of them
-- and one more. Aligning the index takes a round for each record and two more. The loop of
-- MainLoop over the due events takes a round for each event in the queue and one more.
--
-- Parameters: the storage behind LogStorage and the protobuf codec of PaxosLogEntry are
-- interfaces with the laws they are documented to have, and so are LevelDB, the codec of the
-- key-value store and inet_ntoa with inet_addr; crc32 is any function into 32 bits, the hash of a
-- peer any function, std::push_heap and std::pop_heap any functions with the laws of the
-- standard, and calls on an open file succeed, but for an lseek past the greatest off_t. The buffers
-- that Append and ReplayLog put on the stack are taken to fit there. The Send of a NetworkClient is an
-- argument, for which there are GrpcClient's and UdpClient's. What gRPC's completion queues and Boost.Asio
-- report, and when, is an argument. The pointers to storage, communicator and state machine are
-- taken as set; the pointer to the provider is an Option. Messages that are sent are recorded in
-- the node and the entries executed as well.
--
-- Not modelled: threads other than as steps; of the endless loops MainLoop, AutoDispatch and
-- SendingLoop more than any number of their rounds, or one of the last; the paths of files, the log
-- lines, the opening of databases and sockets; what gRPC and Asio do inside; MyLock, SafeMap and
-- DirectMemory, which wrap the standard library and the last of which is not built; and
-- src/network/asio/include/io_client_server.hpp, an example of Asio that nothing includes.
pub mod Prelude
pub mod Message
pub mod Options
pub mod Schedule
pub mod Queue
pub mod Prov
pub mod Startup
pub mod Store
pub mod State
pub mod Node
pub mod Acceptor
pub mod Samples
pub mod Proposer
pub mod Learner
pub mod Controller
pub mod Segment
pub mod LevelDb
pub mod Database
pub mod Kv
pub mod Network
